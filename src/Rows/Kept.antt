-- ===== src/Rows/Kept.antt =====
-- What a filter keeps of a table, and that it finds a row where there is one.
use spidercheck.Prelude.{
  ◌≡◌, refl, ap, Bool, true, false, List, All, [], ◌∷◌, ◌++◌, some, arith, any, keep, if◌then◌else◌,
  inl, inr, Bool-cases,
}
use spidercheck.Rows.{first_row}
use spidercheck.Rows.Among.{Among}

module _ {ℓ} {A : Type ℓ} (p : A → Bool) where
  pub keep-never : (xs : List A) → any p xs ≡ false → keep p xs ≡ []
  unfolding any keep
  keep-never [] h = refl
  keep-never (x ∷ xs) h = elim (Bool-cases (p x)) [
    | inl e ↦ absurd (ground arith)
    | inr e ↦ rw e (keep-never xs (ground arith))
  ]

  pub keep-snoc :
      (xs : List A) (y : A) → keep p (xs ++ y ∷ []) ≡ keep p xs ++ (if p y then y ∷ [] else [])
  unfolding keep
  keep-snoc [] y = refl
  keep-snoc (x ∷ xs) y = elim (Bool-cases (p x)) [
    | inl e ↦ rw e (ap (◌∷◌ x) (keep-snoc xs y))
    | inr e ↦ rw e (keep-snoc xs y)
  ]

  -- A test that is passed is passed by a row.
  pub any-Among : (xs : List A) → any p xs ≡ true → (x : A) × Among xs x × (p x ≡ true)
  unfolding any
  any-Among [] h = absurd cc
  any-Among (x ∷ xs) h = elim (Bool-cases (p x)) [
    | inl e ↦ (x, (λ t k. ground arith), e)
    | inr e ↦
        let (y, among, hit) = any-Among xs (ground arith) in
        (y, (λ t k. ground (arith, among t k)), hit)
  ]

  -- A query by a test that a row passes finds a row.
  pub some-first_row : (xs : List A) → any p xs ≡ true → (x : A) × (first_row (keep p xs) ≡ some x)
  unfolding any keep first_row
  some-first_row [] h = absurd cc
  some-first_row (x ∷ xs) h = elim (Bool-cases (p x)) [
    | inl e ↦ (x, rw e refl)
    | inr e ↦ let (y, f) = some-first_row xs (ground arith) in (y, rw e f)
  ]

  -- What all rows have, the row that is found has.
  pub some-first_row-All {κ} :
      {P : A → Type κ} (xs : List A)
      → All P xs
      → any p xs ≡ true
      → (x : A) × (first_row (keep p xs) ≡ some x) × P x
  unfolding any keep first_row
  some-first_row-All [] all h = absurd cc
  some-first_row-All (x ∷ xs) all h = elim (Bool-cases (p x)) [
    | inl e ↦ (x, rw e refl, all.0)
    | inr e ↦ let (y, f, q) = some-first_row-All xs all.1 (ground arith) in (y, rw e f, q)
  ]

-- ===== src/Rows/Among.antt =====
-- Rows of a table, and what a query returns of them.
use spidercheck.Prelude.{
  ◌+◌, ◌≤◌, ◌≡◌, refl, none, some, Bool, true, false, List, [], ◌∷◌, arith, any, keep, length, not,
  ◌==◌, ◌≢◌, ◌&&◌, inl, inr, Bool-cases,
}
use spidercheck.Seq.{first, count_if}
use spidercheck.Rows.{insert_by, order_by, first_row, last_row}
use spidercheck.Rows.Laws.{any-of-count_if, count_if-split, any-keep, any-keep-le}
use spidercheck.Rows.Order.{any-order_by}

-- `x` is a row of the table: every test that it passes is passed by some row.
abbrev pub Among {ℓ} : {A : Type ℓ} → List A → A → Type ℓ
Among {A} xs x = (t : A → Bool) → t x ≡ true → any t xs ≡ true

module _ {ℓ} {A : Type ℓ} where
  pub Among-here : (x : A) (xs : List A) → Among (x ∷ xs) x
  unfolding any
  Among-here x xs t h = ground arith

  pub first_row-Among : (xs : List A) (x : A) → first_row xs ≡ some x → Among xs x
  unfolding first_row any
  first_row-Among [] x e t h = cc
  first_row-Among (y ∷ xs) x e t h = ground arith

  pub last_row-Among : (xs : List A) (x : A) → last_row xs ≡ some x → Among xs x
  unfolding last_row any
  last_row-Among [] x e t h = cc
  last_row-Among (y ∷ []) x e t h = ground arith
  last_row-Among (y ∷ z ∷ xs) x e t h = ground (arith, last_row-Among (z ∷ xs) x e t h)

  pub order_by-Among :
      (before : A → A → Bool) (xs : List A) (x : A) → Among (order_by before xs) x → Among xs x
  order_by-Among before xs x h t e = rw (any-order_by before t xs) at (h t e)

  -- A row that a filter keeps passes it, and is a row of the whole table.
  pub keep-Among :
      (q : A → Bool) (xs : List A) (x : A) → Among (keep q xs) x → Among xs x × (q x ≡ true)
  keep-Among q xs x h = (
    λ t e. any-keep-le t q xs (h t e),
    elim (Bool-cases (q x)) [
      | inl passes ↦ passes
      | inr fails ↦
          let found : any (λ y. not (q y)) (keep q xs) ≡ true = h (λ y. not (q y)) (rw fails) in
          let none_left : any (λ y. not (q y)) (keep q xs) ≡ false =
            any-keep (λ y. not (q y)) q false xs (λ y e. ground arith) in
          absurd (ground arith)
    ],
  )

  pub first_row-some : (xs : List A) → length xs ≢ 0 → (x : A) × (first_row xs ≡ some x)
  unfolding first_row
  first_row-some [] h = absurd (h refl)
  first_row-some (x ∷ xs) h = (x, refl)

  pub last_row-some : (xs : List A) → length xs ≢ 0 → (x : A) × (last_row xs ≡ some x)
  unfolding last_row
  last_row-some [] h = absurd (h refl)
  last_row-some (x ∷ []) h = (x, refl)
  last_row-some (x ∷ y ∷ xs) h = last_row-some (y ∷ xs) (omega arith)

  pub first-eq-first_row : (xs : List A) → first xs (λ _. true) none ≡ first_row xs
  unfolding first first_row
  first-eq-first_row [] = refl
  first-eq-first_row (x ∷ xs) = refl

  length-insert_by :
      (before : A → A → Bool) (x : A) (ys : List A) → length (insert_by before x ys) ≡ length ys + 1
  unfolding insert_by
  length-insert_by before x [] = omega arith
  length-insert_by before x (y ∷ ys) = ground (arith, length-insert_by before x ys)

  pub length-order_by :
      (before : A → A → Bool) (xs : List A) → length (order_by before xs) ≡ length xs
  unfolding order_by
  length-order_by before [] = refl
  length-order_by before (x ∷ xs) =
      omega (arith, length-insert_by before x (order_by before xs), length-order_by before xs)

  -- A filter leaves nothing exactly where no row passes it.
  pub length-keep-zero : (q : A → Bool) (xs : List A) → any q xs ≡ not (length (keep q xs) == 0)
  unfolding any keep
  length-keep-zero q [] = ground arith
  length-keep-zero q (x ∷ xs) = ground (arith, length-keep-zero q xs)

  pub length-keep-add :
      (q : A → Bool) (xs : List A)
      → length (keep (λ x. not (q x)) xs) + length (keep q xs) ≡ length xs
  unfolding keep
  length-keep-add q [] = omega arith
  length-keep-add q (x ∷ xs) = ground (arith, length-keep-add q xs)

  -- Where at most one row passes a test, two rows that pass it answer every other test alike.
  pub Among-unique :
      (p : A → Bool) (xs : List A) (x y : A)
      → count_if xs p ≤ 1
      → Among xs x
      → Among xs y
      → p x ≡ true
      → p y ≡ true
      → (t : A → Bool) → t x ≡ true
      → t y ≡ true
  Among-unique p xs x y one ax ay px py t tx = elim (Bool-cases (t y)) [
    | inl same ↦ same
    | inr differs ↦ absurd (
        ground (
          arith,
          count_if-split p t xs,
          any-of-count_if (λ z. p z && t z) xs,
          any-of-count_if (λ z. p z && not (t z)) xs,
          ax (λ z. p z && t z),
          ay (λ z. p z && not (t z)),
        ))
  ]

  -- And where a row passes it that fails another test, no row passes both.
  pub Among-excludes :
      (p q : A → Bool) (xs : List A) (x : A)
      → count_if xs p ≤ 1
      → Among xs x
      → p x ≡ true
      → q x ≡ false
      → any (λ z. p z && q z) xs ≡ false
  Among-excludes p q xs x one ax px qx = elim (Bool-cases (any (λ z. p z && q z) xs)) [
    | inr absent ↦ absent
    | inl here ↦ absurd (
        ground (
          arith,
          count_if-split p q xs,
          any-of-count_if (λ z. p z && q z) xs,
          any-of-count_if (λ z. p z && not (q z)) xs,
          ax (λ z. p z && not (q z)),
        ))
  ]

-- ===== src/Rows/Order.antt =====
-- What `order_by` keeps and what stands first after it.
use spidercheck.Prelude.{
  ◌+◌, ◌≡◌, refl, sym, ◌∙◌, some, Bool, true, false, ◌||◌, List, [], ◌∷◌, arith, any, All,
  if◌then◌else◌, inl, inr, Bool-cases,
}
use spidercheck.Seq.{count_if}
use spidercheck.Rows.{insert_by, order_by, first_row, last_row}

module _ {ℓ} {A : Type ℓ} (before : A → A → Bool) (p : A → Bool) where
  any-insert_by : (x : A) (ys : List A) → any p (insert_by before x ys) ≡ p x || any p ys
  unfolding any insert_by
  any-insert_by x [] = refl
  any-insert_by x (y ∷ ys) = ground (arith, any-insert_by x ys)

  pub any-order_by : (xs : List A) → any p (order_by before xs) ≡ any p xs
  unfolding any order_by
  any-order_by [] = refl
  any-order_by (x ∷ xs) = ground (arith, any-insert_by x (order_by before xs), any-order_by xs)

  count_if-insert_by :
      (x : A) (ys : List A)
      → count_if (insert_by before x ys) p ≡ (if p x then 1 else 0) + count_if ys p
  unfolding count_if insert_by
  count_if-insert_by x [] = refl
  count_if-insert_by x (y ∷ ys) = ground (arith, count_if-insert_by x ys)

  pub count_if-order_by : (xs : List A) → count_if (order_by before xs) p ≡ count_if xs p
  unfolding count_if order_by
  count_if-order_by [] = refl
  count_if-order_by (x ∷ xs) =
      ground (arith, count_if-insert_by x (order_by before xs), count_if-order_by xs)

module _ {ℓ κ} {A : Type ℓ} (before : A → A → Bool) (P : A → Type κ) where
  All-of-insert_by : (x : A) (ys : List A) → All P (insert_by before x ys) → P x × All P ys
  unfolding insert_by
  All-of-insert_by x [] h = h
  All-of-insert_by x (y ∷ ys) h = elim (Bool-cases (before x y)) [
    | inl e ↦ rw e at h
    | inr e ↦
        let (hy, rest) = rw e at h in let (hx, hys) = All-of-insert_by x ys rest in (hx, (hy, hys))
  ]

  insert_by-All : (x : A) (ys : List A) → P x → All P ys → All P (insert_by before x ys)
  unfolding insert_by
  insert_by-All x [] hx h = (hx, tt)
  insert_by-All x (y ∷ ys) hx h = elim (Bool-cases (before x y)) [
    | inl e ↦ rw e (hx, h)
    | inr e ↦ rw e (h.0, insert_by-All x ys hx h.1)
  ]

  pub All-of-order_by : (xs : List A) → All P (order_by before xs) → All P xs
  unfolding order_by
  All-of-order_by [] h = tt
  All-of-order_by (x ∷ xs) h =
      let (hx, hxs) = All-of-insert_by x (order_by before xs) h in (hx, All-of-order_by xs hxs)

-- An order that is total and transitive, as one read off a key is.
pub record IsOrder {ℓ} {A : Type ℓ} (before : A → A → Bool) : Type ℓ where
  pub total : (x y : A) → before x y ≡ false → before y x ≡ true
  pub trans : (x y z : A) → before x y ≡ true → before y z ≡ true → before x z ≡ true

module _ {ℓ} {A : Type ℓ} (before : A → A → Bool) (order : IsOrder before) where
  before_self : (x : A) → before x x ≡ true
  before_self x = elim (Bool-cases (before x x)) [ inl h ↦ h | inr h ↦ order.total x x h ]

  -- `x` may stand in front of, or behind, every row.
  abbrev Leads : A → List A → Type 0
  Leads x = All (λ y. before x y ≡ true)

  abbrev Trails : A → List A → Type 0
  Trails x = All (λ y. before y x ≡ true)

  Leads-trans : (x y : A) (zs : List A) → before x y ≡ true → Leads y zs → Leads x zs
  Leads-trans x y [] h hs = tt
  Leads-trans x y (z ∷ zs) h hs = (order.trans x y z h hs.0, Leads-trans x y zs h hs.1)

  first_row-insert_by :
      (a : A) (s : List A)
      → ((z : A) → first_row s ≡ some z → Leads z s)
      → (x : A) → first_row (insert_by before a s) ≡ some x
      → Leads x (insert_by before a s)
  unfolding insert_by first_row
  first_row-insert_by a [] ih x e = (let q : a ≡ x = cc in rw q (before_self x), tt)
  first_row-insert_by a (y ∷ s) ih x e = elim (Bool-cases (before a y)) [
    | inl h ↦
        let q : a ≡ x = ground arith in
        rw (← q) (rw h (before_self a, (h, Leads-trans a y s h (ih y refl).1)))
    | inr h ↦
        let q : y ≡ x = ground arith in
        rw (← q) (
          rw h (
            before_self y,
            insert_by-All before (λ z. before y z ≡ true) a s (order.total a y h) (ih y refl).1,
          ))
  ]

  last_row-cons-insert_by :
      (y a : A) (s : List A) → last_row (y ∷ insert_by before a s) ≡ last_row (insert_by before a s)
  unfolding insert_by last_row
  last_row-cons-insert_by y a [] = refl
  last_row-cons-insert_by y a (z ∷ s) = elim (Bool-cases (before a z)) [
    | inl h ↦ rw h
    | inr h ↦ rw h
  ]

  Trails-tail :
      (y : A) (s : List A)
      → ((z : A) → last_row (y ∷ s) ≡ some z → Trails z (y ∷ s))
      → (z : A) → last_row s ≡ some z
      → Trails z s
  unfolding last_row
  Trails-tail y [] ih z e = tt
  Trails-tail y (w ∷ s) ih z e = (ih z e).1

  last_row-insert_by :
      (a : A) (s : List A)
      → ((z : A) → last_row s ≡ some z → Trails z s)
      → (x : A) → last_row (insert_by before a s) ≡ some x
      → Trails x (insert_by before a s)
  unfolding insert_by last_row
  last_row-insert_by a [] ih x e = (let q : a ≡ x = cc in rw q (before_self x), tt)
  last_row-insert_by a (y ∷ s) ih x e = elim (Bool-cases (before a y)) [
    | inl h ↦
        let last : last_row (y ∷ s) ≡ some x = ground arith in
        rw h (order.trans a y x h (ih x last).0, ih x last)
    | inr h ↦
        let last : last_row (y ∷ insert_by before a s) ≡ some x = rw h at e in
        let rest =
          last_row-insert_by a s (Trails-tail y s ih) x
            (sym (last_row-cons-insert_by y a s) ∙ last) in
        let (ax, _) = All-of-insert_by before (λ z. before z x ≡ true) a s rest in
        rw h (order.trans y a x (order.total a y h) ax, rest)
  ]

  first_row-Leads :
      (xs : List A) (x : A) → first_row (order_by before xs) ≡ some x → Leads x (order_by before xs)
  unfolding order_by first_row
  first_row-Leads [] x e = cc
  first_row-Leads (a ∷ xs) x e = first_row-insert_by a (order_by before xs) (first_row-Leads xs) x e

  -- The first row of an ordered table stands before every row of the table.
  pub first_row-order_by :
      (xs : List A) (x : A)
      → first_row (order_by before xs) ≡ some x
      → All (λ y. before x y ≡ true) xs
  first_row-order_by xs x e = All-of-order_by before _ xs (first_row-Leads xs x e)

  last_row-Trails :
      (xs : List A) (x : A) → last_row (order_by before xs) ≡ some x → Trails x (order_by before xs)
  unfolding order_by last_row
  last_row-Trails [] x e = cc
  last_row-Trails (a ∷ xs) x e = last_row-insert_by a (order_by before xs) (last_row-Trails xs) x e

  -- The last row of an ordered table stands behind every row of the table.
  pub last_row-order_by :
      (xs : List A) (x : A)
      → last_row (order_by before xs) ≡ some x
      → All (λ y. before y x ≡ true) xs
  last_row-order_by xs x e = All-of-order_by before _ xs (last_row-Trails xs x e)

-- ===== src/Rows/Sorted.antt =====
-- What `order_by` gives is in order.
use spidercheck.Prelude.{◌≡◌, Bool, true, List, [], ◌∷◌, All, All-imp, inl, inr, Bool-cases}
use spidercheck.Rows.{insert_by, order_by}
use spidercheck.Rows.Order.{IsOrder}

module _ {ℓ} {A : Type ℓ} (before : A → A → Bool) where
  -- Each row may stand in front of all that follow.
  abbrev pub IsSorted : List A → Type 0
  IsSorted [] = Unit
  IsSorted (x ∷ xs) = All (λ y. before x y ≡ true) xs × IsSorted xs

  All-insert_by {κ} :
      (P : A → Type κ) (x : A) (ys : List A) → P x → All P ys → All P (insert_by before x ys)
  unfolding insert_by
  All-insert_by P x [] h hs = (h, tt)
  All-insert_by P x (y ∷ ys) h hs = elim (Bool-cases (before x y)) [
    | inl e ↦ rw e (h, hs)
    | inr e ↦ rw e (hs.0, All-insert_by P x ys h hs.1)
  ]

  insert_by-IsSorted :
      IsOrder before → (x : A) (ys : List A) → IsSorted ys → IsSorted (insert_by before x ys)
  unfolding insert_by
  insert_by-IsSorted order x [] h = (tt, tt)
  insert_by-IsSorted order x (y ∷ ys) h = elim (Bool-cases (before x y)) [
    | inl e ↦ rw e ((e, All-imp ys (λ z k. order.trans x y z e k) h.0), h)
    | inr e ↦ rw e (
      All-insert_by (λ z. before y z ≡ true) x ys (order.total x y e) h.0,
      insert_by-IsSorted order x ys h.1,
    )
  ]

  pub order_by-IsSorted : IsOrder before → (xs : List A) → IsSorted (order_by before xs)
  unfolding order_by
  order_by-IsSorted order [] = tt
  order_by-IsSorted order (x ∷ xs) =
      insert_by-IsSorted order x (order_by before xs) (order_by-IsSorted order xs)

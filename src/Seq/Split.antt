-- ===== src/Seq/Split.antt =====
-- What `first`, `count_if` and `split_list` of src/spidercheck/seqtools.py compute.
use mathlib.Core.List.{Perm, perm_middle}
use mathlib.Core.List.Perm
use spidercheck.Prelude.{
  ◌≡◌, refl, Option, Bool, true, false, not, List, [], ◌∷◌, ◌++◌, arith, length, keep, All,
  Bool-cases, inl, inr,
}
use spidercheck.Seq.{first, count_if, split_list}

module _ {ℓ} {A : Type ℓ} (condition : A → Bool) where
  keep-All : (xs : List A) → All (λ x. condition x ≡ true) (keep condition xs)
  unfolding keep
  keep-All [] = tt
  keep-All (x ∷ xs) = elim (Bool-cases (condition x)) [
    | inl holds ↦ rw holds (holds, keep-All xs)
    | inr fails ↦ rw fails (keep-All xs)
  ]

  drop-All : (xs : List A) → All (λ x. condition x ≡ false) (keep (λ x. not (condition x)) xs)
  unfolding keep
  drop-All [] = tt
  drop-All (x ∷ xs) = elim (Bool-cases (condition x)) [
    | inl holds ↦ rw holds (drop-All xs)
    | inr fails ↦ rw fails (fails, drop-All xs)
  ]

  split-perm : (xs : List A) → Perm (keep condition xs ++ keep (λ x. not (condition x)) xs) xs
  unfolding keep
  split-perm [] = Perm.refl []
  split-perm (x ∷ xs) = elim (Bool-cases (condition x)) [
    | inl holds ↦ rw holds (Perm.cons x (split-perm xs))
    | inr fails ↦ rw fails (
        Perm.trans (perm_middle (keep condition xs) (keep (λ y. not (condition y)) xs))
          (Perm.cons x (split-perm xs)))
  ]

  count_if-eq-length : (xs : List A) → count_if xs condition ≡ length (keep condition xs)
  unfolding count_if keep
  count_if-eq-length [] = refl
  count_if-eq-length (x ∷ xs) = ground (arith, count_if-eq-length xs)

  -- `split_list` sends the items that satisfy the condition to the first list and the others to
  -- the second, loses and repeats none, and the first list is as long as `count_if` says.
  pub split_list_lem :
      (xs : List A)
      → All (λ x. condition x ≡ true) (split_list xs condition).0
        × All (λ x. condition x ≡ false) (split_list xs condition).1
        × Perm ((split_list xs condition).0 ++ (split_list xs condition).1) xs
        × (count_if xs condition ≡ length (split_list xs condition).0)
  unfolding split_list
  split_list_lem xs = (keep-All xs, drop-All xs, split-perm xs, count_if-eq-length xs)

  -- `first` returns the item at the front of what the condition keeps, and the default where it
  -- keeps nothing.
  pub first-of-keep :
      (xs : List A) (default : Option A)
      → first xs condition default ≡ first (keep condition xs) (λ _. true) default
  unfolding first keep
  first-of-keep [] default = refl
  first-of-keep (x ∷ xs) default = elim (Bool-cases (condition x)) [
    | inl holds ↦ rw holds
    | inr fails ↦ rw fails (first-of-keep xs default)
  ]

-- ===== src/Rows/Laws.antt =====
-- How each change of a table changes what its queries see.
use spidercheck.Prelude.{
  ℕ, ◌+◌, ◌≤◌, ◌≡◌, refl, Bool, true, false, not, ◌&&◌, ◌||◌, List, [], ◌∷◌, ◌++◌, arith, any, keep,
  length, ◌==◌, if◌then◌else◌,
}
use spidercheck.Seq.{count_if}
use spidercheck.Rows.{replace, member, difference, set_add, set_of}

module _ {ℓ} {A : Type ℓ} (p : A → Bool) where
  pub count_if-snoc :
      (xs : List A) (y : A) → count_if (xs ++ y ∷ []) p ≡ count_if xs p + (if p y then 1 else 0)
  unfolding count_if
  count_if-snoc [] y = ground arith
  count_if-snoc (x ∷ xs) y = ground (arith, count_if-snoc xs y)

  pub length-keep : (xs : List A) → length (keep p xs) ≡ count_if xs p
  unfolding count_if keep
  length-keep [] = refl
  length-keep (x ∷ xs) = ground (arith, length-keep xs)

  pub any-of-count_if : (xs : List A) → any p xs ≡ not (count_if xs p == 0)
  unfolding any count_if
  any-of-count_if [] = refl
  any-of-count_if (x ∷ xs) = ground (arith, any-of-count_if xs)

  pub count_if-split :
      (t : A → Bool) (xs : List A)
      → count_if xs p ≡ count_if xs (λ x. p x && t x) + count_if xs (λ x. p x && not (t x))
  unfolding count_if
  count_if-split t [] = omega arith
  count_if-split t (x ∷ xs) = ground (arith, count_if-split t xs)

  pub count_if-eq-zero : (xs : List A) → any p xs ≡ false → count_if xs p ≡ 0
  count_if-eq-zero xs h = ground (arith, any-of-count_if xs)

  module _ (q : A → Bool) where
    pub count_if-keep-le : (xs : List A) → count_if (keep q xs) p ≤ count_if xs p
    unfolding count_if keep
    count_if-keep-le [] = omega arith
    count_if-keep-le (x ∷ xs) = ground (arith, count_if-keep-le xs)

    pub count_if-keep : (xs : List A) → count_if (keep q xs) p ≡ count_if xs (λ x. q x && p x)
    unfolding count_if keep
    count_if-keep [] = refl
    count_if-keep (x ∷ xs) = ground (arith, count_if-keep xs)

    -- Where the filter says the same of every row that passes the test.
    pub any-keep :
        (c : Bool) (xs : List A)
        → ((x : A) → p x ≡ true → q x ≡ c)
        → any p (keep q xs) ≡ c && any p xs
    unfolding any keep
    any-keep c [] h = ground arith
    any-keep c (x ∷ xs) h = ground (arith, any-keep c xs h, h x)

    pub any-keep-and : (xs : List A) → any p (keep q xs) ≡ any (λ x. p x && q x) xs
    unfolding any keep
    any-keep-and [] = refl
    any-keep-and (x ∷ xs) = ground (arith, any-keep-and xs)

    pub any-keep-le : (xs : List A) → any p (keep q xs) ≡ true → any p xs ≡ true
    unfolding any keep
    any-keep-le [] h = h
    any-keep-le (x ∷ xs) h = ground (arith, any-keep-le xs)

  -- A row passes, and none passes the other test: it passes and fails the other.
  pub any-and-not :
      (q : A → Bool) (xs : List A)
      → any p xs ≡ true
      → any q xs ≡ false
      → any (λ x. p x && not (q x)) xs ≡ true
  unfolding any
  any-and-not q [] h e = cc
  any-and-not q (x ∷ xs) h e = ground (arith, any-and-not q xs)

  -- Two tests that differ only on rows that are not there see the same.
  pub any-agree :
      (q r : A → Bool) (xs : List A)
      → any r xs ≡ false
      → ((x : A) → r x ≡ false → p x ≡ q x)
      → any p xs ≡ any q xs
  unfolding any
  any-agree q r [] h e = refl
  any-agree q r (x ∷ xs) h e = ground (arith, any-agree q r xs, e x)

  pub any_mono :
      (q : A → Bool) (xs : List A)
      → ((x : A) → p x ≡ true → q x ≡ true)
      → any p xs ≡ true
      → any q xs ≡ true
  unfolding any
  any_mono q [] h e = cc
  any_mono q (x ∷ xs) h e = ground (arith, any_mono q xs h, h x)

  pub count_if_mono :
      (q : A → Bool) (xs : List A)
      → ((x : A) → p x ≡ true → q x ≡ true)
      → count_if xs p ≤ count_if xs q
  unfolding count_if
  count_if_mono q [] h = omega arith
  count_if_mono q (x ∷ xs) h = ground (arith, count_if_mono q xs h, h x)

pub any-never {ℓ} : {A : Type ℓ} (xs : List A) → any (λ _. false) xs ≡ false
unfolding any
any-never [] = refl
any-never (x ∷ xs) = any-never xs

module _ {ℓ} {A : Type ℓ} (key : A → ℕ) (new : A) (p : A → Bool) where
  -- A test that the new row and every row that it replaces answer alike does not see the change.
  pub any-replace :
      (xs : List A)
      → ((x : A) → key x ≡ key new → p x ≡ p new)
      → any p (replace key new xs) ≡ any p xs
  unfolding any replace
  any-replace [] h = refl
  any-replace (x ∷ xs) h = ground (arith, any-replace xs h, h x)

  pub count_if-replace :
      (xs : List A)
      → ((x : A) → key x ≡ key new → p x ≡ p new)
      → count_if (replace key new xs) p ≡ count_if xs p
  unfolding count_if replace
  count_if-replace [] h = refl
  count_if-replace (x ∷ xs) h = ground (arith, count_if-replace xs h, h x)

  -- A test that the new row fails sees at most what it saw.
  pub count_if-replace-le :
      (xs : List A) → p new ≡ false → count_if (replace key new xs) p ≤ count_if xs p
  unfolding count_if replace
  count_if-replace-le [] h = omega arith
  count_if-replace-le (x ∷ xs) h = ground (arith, count_if-replace-le xs h)

  -- Where no row of another key passes the test, only rows of this key do afterwards.
  pub count_if-replace-key :
      (xs : List A)
      → any (λ x. p x && not (key x == key new)) xs ≡ false
      → count_if (replace key new xs) p ≤ count_if xs (λ x. key x == key new)
  unfolding any count_if replace
  count_if-replace-key [] h = omega arith
  count_if-replace-key (x ∷ xs) h = ground (arith, count_if-replace-key xs)

  pub any-replace-le :
      (xs : List A) → p new ≡ false → any p (replace key new xs) ≡ true → any p xs ≡ true
  unfolding any replace
  any-replace-le [] h e = e
  any-replace-le (x ∷ xs) h e = ground (arith, any-replace-le xs h)

  -- A test that the new row passes is passed, if there is a row to replace.
  pub any-replace-new :
      (xs : List A)
      → p new ≡ true
      → any (λ x. key x == key new) xs ≡ true
      → any p (replace key new xs) ≡ true
  unfolding any replace
  any-replace-new [] h e = e
  any-replace-new (x ∷ xs) h e = ground (arith, any-replace-new xs h)

pub member-snoc : (n m : ℕ) (xs : List ℕ) → member n (xs ++ m ∷ []) ≡ member n xs || m == n
unfolding member any
member-snoc n m [] = ground arith
member-snoc n m (x ∷ xs) = ground (arith, member-snoc n m xs)

pub member-cons : (n x : ℕ) (xs : List ℕ) → member n (x ∷ xs) ≡ x == n || member n xs
unfolding member any
member-cons n x xs = refl

pub member-nil : (n : ℕ) → member n [] ≡ false
unfolding member any
member-nil n = refl

pub member-difference :
    (n : ℕ) (xs ys : List ℕ) → member n (difference xs ys) ≡ member n xs && not (member n ys)
unfolding difference
member-difference n [] ys = ground (arith, member-nil n)
member-difference n (x ∷ xs) ys =
    ground
      (arith, member-difference n xs ys, member-cons n x (difference xs ys), member-cons n x xs)

pub member-set_add : (n x : ℕ) (xs : List ℕ) → member n (set_add x xs) ≡ member n xs || x == n
unfolding set_add
member-set_add n x xs = ground (arith, member-snoc n x xs)

pub member-set_of :
    (n : ℕ) (seen xs : List ℕ) → member n (set_of seen xs) ≡ member n seen || member n xs
unfolding set_of
member-set_of n seen [] = ground (arith, member-nil n)
member-set_of n seen (x ∷ xs) =
    ground (arith, member-set_of n (set_add x seen) xs, member-set_add n x seen, member-cons n x xs)

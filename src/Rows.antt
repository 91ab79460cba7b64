-- ===== src/Rows.antt =====
-- Tables as lists of rows, and the queries that the program writes against Django's QuerySet:
-- `exists` is `any`, `count` is `count_if`, `filter` and `exclude` are `keep`, `order_by` a stable
-- sort, `first` and `last` the ends, and an UPDATE by primary key is `replace`.
pub mod Among
pub mod Kept
pub mod Laws
pub mod Order
pub mod Sorted
use spidercheck.Prelude.{
  ℕ, Option, none, some, Bool, true, false, List, [], ◌∷◌, ◌++◌, any, ◌==◌, if◌then◌else◌, map,
}

module _ {ℓ} {A : Type ℓ} where
  insert_by : (A → A → Bool) → A → List A → List A
  insert_by before x [] = x ∷ []
  insert_by before x (y ∷ ys) = if before x y then x ∷ y ∷ ys else y ∷ insert_by before x ys

  -- `before x y` says that `x` may stand in front of `y`.
  unfoldable pub order_by : (A → A → Bool) → List A → List A
  unfolding insert_by
  order_by before [] = []
  order_by before (x ∷ xs) = insert_by before x (order_by before xs)

  unfoldable pub first_row : List A → Option A
  first_row [] = none
  first_row (x ∷ xs) = some x

  unfoldable pub last_row : List A → Option A
  last_row [] = none
  last_row (x ∷ []) = some x
  last_row (x ∷ y ∷ xs) = last_row (y ∷ xs)

  -- The row `new` in place of each row with its key.
  unfoldable pub replace : (A → ℕ) → A → List A → List A
  replace key new [] = []
  replace key new (x ∷ xs) = (if key x == key new then new else x) ∷ replace key new xs

-- Python's sets of primary keys, as lists in which only membership counts.
unfoldable pub member : ℕ → List ℕ → Bool
unfolding any
member n xs = any (λ x. x == n) xs

-- `set.add`
unfoldable pub set_add : ℕ → List ℕ → List ℕ
set_add x xs = if member x xs then xs else xs ++ x ∷ []

-- `set(xs)`
unfoldable pub set_of : List ℕ → List ℕ → List ℕ
set_of seen [] = seen
set_of seen (x ∷ xs) = set_of (set_add x seen) xs

-- `xs - ys`
unfoldable pub difference : List ℕ → List ℕ → List ℕ
difference [] ys = []
difference (x ∷ xs) ys = if member x ys then difference xs ys else x ∷ difference xs ys

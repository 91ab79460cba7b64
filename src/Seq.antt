-- ===== src/Seq.antt =====
-- The sequence helpers, src/spidercheck/seqtools.py. A sequence that the caller exhausts is a list;
-- the two generators that loop on a condition recur on fuel and return `none` when it runs out.
pub mod Split
pub mod Batch
pub mod Fragments
use mathlib.Core.Option
use spidercheck.Prelude.{
  ℕ, zero, suc, ◌+◌, Option, none, some, Bool, true, false, not, List, [], ◌∷◌, Text, length, take,
  drop, keep, ltb, leb, ◌==◌, if◌then◌else◌,
}

module _ {ℓ} {A : Type ℓ} where
  -- `default` is `none` for Python's `None`.
  unfoldable pub first : List A → (A → Bool) → Option A → Option A
  first [] condition default = default
  first (item ∷ rest) condition default =
      if condition item then some item else first rest condition default

  unfoldable pub count_if : List A → (A → Bool) → ℕ
  count_if [] condition = 0
  count_if (item ∷ rest) condition = (if condition item then 1 else 0) + count_if rest condition

  -- Each of the two generators runs over its own copy of the iterable.
  unfoldable pub split_iter : List A → (A → Bool) → List A × List A
  unfolding keep
  split_iter iterable condition = (keep condition iterable, keep (λ x. not (condition x)) iterable)

  unfoldable pub split_list : List A → (A → Bool) → List A × List A
  unfolding split_iter
  split_list iterable condition = split_iter iterable condition

  -- The `for i in range(size)` loop of `batch`: the chunk, what is left of the iterator, and
  -- whether it stopped.
  fill : ℕ → List A → List A × List A × Bool
  fill zero items = ([], items, false)
  fill (suc n) [] = ([], [], true)
  fill (suc n) (x ∷ items) = let (chunk, rest, stopped) = fill n items in (x ∷ chunk, rest, stopped)

  -- `if chunk: yield tuple(chunk)`
  yield_chunk : List A → List (List A) → List (List A)
  yield_chunk [] later = later
  yield_chunk (x ∷ chunk) later = (x ∷ chunk) ∷ later

  -- The `while True` loop of `batch`.
  unfoldable pub batch : ℕ → List A → ℕ → Option (List (List A))
  unfolding fill yield_chunk
  batch zero iterable size = none
  batch (suc fuel) iterable size =
      let (chunk, rest, stopped) = fill size iterable in
      let later = batch fuel rest size in
      if stopped then some (yield_chunk chunk []) else Option.map (yield_chunk chunk) later

  -- `seq.find(c)` for one item: its first position.
  index_of : (A → Bool) → List A → Option ℕ
  index_of p [] = none
  index_of p (x ∷ xs) = if p x then some 0 else Option.map suc (index_of p xs)

-- `text.find(c, start)`; `none` stands for -1.
find : Text → ℕ → ℕ → Option ℕ
unfolding index_of
find text c start = Option.map (λ i. start + i) (index_of (λ x. x == c) (drop start text))

-- `idx == -1 or idx > max_block_size`
out_of_reach : ℕ → Option ℕ → Bool
out_of_reach max_block_size none = true
out_of_reach max_block_size (some idx) = ltb max_block_size idx

or_else : Option ℕ → ℕ → ℕ
or_else none d = d
or_else (some i) d = i

-- Where the fragment ends: a line break, else a space, else the limit.
cut_point : Text → ℕ → ℕ → ℕ
unfolding find out_of_reach or_else
cut_point text mean_block_size max_block_size =
    let line = find text b'\n' mean_block_size in
    let idx = if out_of_reach max_block_size line then find text b' ' mean_block_size else line in
    if out_of_reach max_block_size idx then max_block_size else or_else idx 0

unfoldable pub text_as_fragments : ℕ → Text → ℕ → ℕ → Option (List Text)
unfolding cut_point
text_as_fragments zero text mean_block_size max_block_size = none
text_as_fragments (suc fuel) [] mean_block_size max_block_size = some []
text_as_fragments (suc fuel) (c ∷ text) mean_block_size max_block_size =
    let whole = c ∷ text in
    let idx = cut_point whole mean_block_size max_block_size in
    let later = text_as_fragments fuel (drop idx whole) mean_block_size max_block_size in
    if leb (length whole) max_block_size
    then some (whole ∷ [])
    else Option.map (λ fragments. take idx whole ∷ fragments) later

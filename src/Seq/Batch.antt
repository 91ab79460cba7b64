-- ===== src/Seq/Batch.antt =====
-- `batch` of src/spidercheck/seqtools.py against what it promises.
use mathlib.Core.List.{flatten}
use spidercheck.Prelude.{
  ℕ, zero, suc, ◌≤◌, ◌<◌, ◌≡◌, refl, none, some, List, [], ◌∷◌, ◌++◌, arith, length, take, drop,
  Bool-cases, take-append-drop, length-take, length-drop, append-nil, inl, inr, ltb, ap, ◌∙◌,
}
use spidercheck.Seq.{fill, yield_chunk, batch}

module _ {ℓ} {A : Type ℓ} where
  -- No chunk is empty, and all but the last have the size asked for.
  abbrev pub IsBatched : ℕ → List (List A) → Type 0
  IsBatched size [] = Unit
  IsBatched size (c ∷ []) = (0 < length c) × (length c ≤ size)
  IsBatched size (c ∷ d ∷ rest) = (length c ≡ size) × IsBatched size (d ∷ rest)

  IsBatched-cons :
      (size : ℕ) (c : List A) (rest : List (List A))
      → 0 < size
      → length c ≡ size
      → IsBatched size rest
      → IsBatched size (c ∷ rest)
  IsBatched-cons size c [] pos full h = omega arith
  IsBatched-cons size c (d ∷ rest) pos full h = (full, h)

  fill_lem :
      (size : ℕ) (xs : List A) → fill size xs ≡ (take size xs, drop size xs, ltb (length xs) size)
  unfolding fill
  fill_lem zero [] = ground arith
  fill_lem zero (x ∷ xs) = ground arith
  fill_lem (suc n) [] = ground arith
  fill_lem (suc n) (x ∷ xs) = ground (arith, fill_lem n xs)

  take_short : (n : ℕ) (xs : List A) → length xs ≤ n → take n xs ≡ xs
  take_short zero [] h = refl
  take_short zero (x ∷ xs) h = absurd (omega arith)
  take_short (suc n) [] h = refl
  take_short (suc n) (x ∷ xs) h = ap (◌∷◌ x) (take_short n xs (omega arith))

  yield_chunk-pos :
      (c : List A) (rest : List (List A)) → 0 < length c → yield_chunk c rest ≡ c ∷ rest
  unfolding yield_chunk
  yield_chunk-pos [] rest h = absurd (omega arith)
  yield_chunk-pos (x ∷ c) rest h = refl

  last_chunk :
      (size : ℕ) (xs : List A)
      → length xs < size
      → (flatten (yield_chunk xs []) ≡ xs) × IsBatched size (yield_chunk xs [])
  unfolding yield_chunk flatten
  last_chunk size [] h = (refl, tt)
  last_chunk size (x ∷ xs) h = (append-nil _, omega arith)

  -- With a positive size, and fuel above the length, `batch` ends: its chunks put together are the
  -- items in order, no chunk is empty or longer than the size, and all but the last have the size.
  pub batch-IsBatched :
      (fuel size : ℕ) (xs : List A)
      → 0 < size
      → length xs < fuel
      → (chunks : List (List A)) × (batch fuel xs size ≡ some chunks)
        × (flatten chunks ≡ xs)
        × IsBatched size chunks
  unfolding batch flatten
  batch-IsBatched zero size xs pos enough = absurd (omega arith)
  batch-IsBatched (suc fuel) size xs pos enough = elim (Bool-cases (ltb (length xs) size)) [
    | inl short ↦
        let h : length xs < size = ground arith in
        let (joined, shape) = last_chunk size xs h in
        (
          yield_chunk xs [],
          rw (fill_lem size xs, short, take_short size xs (omega arith)),
          joined,
          shape,
        )
    | inr long ↦
        let c = take size xs in
        let full : length c ≡ size = ground (arith, length-take size xs) in
        let (rest, run, joined, shape) =
          batch-IsBatched fuel size (drop size xs) pos (ground (arith, length-drop size xs)) in
        (
          c ∷ rest,
          rw (fill_lem size xs, long, run) (ap some (yield_chunk-pos c rest (omega arith))),
          ap (◌++◌ c) joined ∙ take-append-drop size xs,
          IsBatched-cons size c rest pos full shape,
        )
  ]

  -- With size zero no fuel is enough for `batch`, whatever the items.
  pub batch-zero : (fuel : ℕ) (xs : List A) → batch fuel xs 0 ≡ none
  unfolding batch
  batch-zero zero xs = refl
  batch-zero (suc fuel) xs = rw (batch-zero fuel xs)

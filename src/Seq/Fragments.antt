-- ===== src/Seq/Fragments.antt =====
-- `text_as_fragments` of src/spidercheck/seqtools.py against what it promises.
use mathlib.Core.List.{flatten}
use spidercheck.Prelude.{
  ℕ, zero, suc, ◌≤◌, ◌<◌, min, ◌≡◌, refl, some, List, [], ◌∷◌, ◌++◌, arith, Text, length, take,
  drop, Bool-cases, inl, inr, take-append-drop, length-take, length-drop, append-nil, leb, ap, ◌∙◌,
}
use spidercheck.Seq.{find, cut_point, text_as_fragments}

-- Every fragment holds something and at most `hi` characters; all but the last hold `lo` or more.
abbrev pub AreFragments : ℕ → ℕ → List Text → Type 0
AreFragments lo hi [] = Unit
AreFragments lo hi (f ∷ []) = (0 < length f) × (length f ≤ hi)
AreFragments lo hi (f ∷ g ∷ rest) =
    (0 < length f) × (lo ≤ length f) × (length f ≤ hi) × AreFragments lo hi (g ∷ rest)

AreFragments-cons :
    (lo hi : ℕ) (f : Text) (rest : List Text)
    → 0 < length f
    → lo ≤ length f
    → length f ≤ hi
    → AreFragments lo hi rest
    → AreFragments lo hi (f ∷ rest)
AreFragments-cons lo hi f [] pos low high h = (pos, high)
AreFragments-cons lo hi f (g ∷ rest) pos low high h = (pos, low, high, h)

-- A match is not before the place where the search starts.
find-le : (text : Text) (c start i : ℕ) → find text c start ≡ some i → start ≤ i
unfolding find
find-le text c start i h = ground arith

cut_point_bounds :
    (text : Text) (mean max : ℕ)
    → (cut_point text mean max ≤ max) × (min mean max ≤ cut_point text mean max)
unfolding cut_point
cut_point_bounds text mean max = ground arith

-- With positive block sizes, and fuel above the length of the text, `text_as_fragments` ends: the
-- fragments put together are the text, none is empty or longer than the maximum, and all but the
-- last are at least as long as the smaller of the two block sizes.
pub text_as_fragments-AreFragments :
    (fuel : ℕ) (text : Text) (mean max : ℕ)
    → 0 < mean
    → 0 < max
    → length text < fuel
    → (fragments : List Text) × (text_as_fragments fuel text mean max ≡ some fragments)
      × (flatten fragments ≡ text)
      × AreFragments (min mean max) max fragments
unfolding text_as_fragments flatten
text_as_fragments-AreFragments zero text mean max m p enough = absurd (omega arith)
text_as_fragments-AreFragments (suc fuel) [] mean max m p enough = ([], refl, refl, tt)
text_as_fragments-AreFragments (suc fuel) (c ∷ text) mean max m p enough =
    elim (Bool-cases (leb (length (c ∷ text)) max)) [
      | inl fits ↦ ((c ∷ text) ∷ [], rw fits, append-nil (c ∷ text), ground arith)
      | inr long ↦
          let whole = c ∷ text in
          let idx = cut_point whole mean max in
          let (high, low) = cut_point_bounds whole mean max in
          let size : length (take idx whole) ≡ idx = ground (arith, length-take idx whole) in
          let (rest, run, joined, shape) =
            text_as_fragments-AreFragments fuel (drop idx whole) mean max m p
              (ground (arith, length-drop idx whole)) in
          (
            take idx whole ∷ rest,
            rw (long, run),
            ap (◌++◌ (take idx whole)) joined ∙ take-append-drop idx whole,
            AreFragments-cons (min mean max) max (take idx whole) rest (omega arith) (omega arith)
                (omega arith) shape,
          )
    ]

-- ===== src/Plugins/Words.antt =====
-- `strip_tags` of src/spidercheck/plugins/index_site.py: the words of a text with one space between two.
use spidercheck.Prelude.{
  ◌≡◌, refl, sym, ap, ◌∙◌, append-nil, false, List, [], ◌∷◌, ◌++◌, Text, All, inl, inr, Bool-cases,
}
use spidercheck.Prelude.Chars.{is_space}
use spidercheck.Plugins.Documents.{put_word, split_words, words_of, join_words, strip_tags}

-- A text without blanks.
abbrev Solid : Text → Type 0
Solid s = All (λ c. is_space c ≡ false) s

-- Words are not empty and have no blanks.
abbrev pub IsWord : Text → Type 0
IsWord [] = ⊥
IsWord (c ∷ s) = Solid (c ∷ s)

put_word-IsWord : (w : Text) (ws : List Text) → Solid w → All IsWord ws → All IsWord (put_word w ws)
put_word-IsWord [] ws h k = k
put_word-IsWord (c ∷ w) ws h k = (h, k)

split_words-IsWord : (s : Text) → Solid (split_words s).0 × All IsWord (split_words s).1
unfolding split_words
split_words-IsWord [] = (tt, tt)
split_words-IsWord (c ∷ s) =
    let (front, rest) = split_words-IsWord s in
    elim (Bool-cases (is_space c)) [
      | inl blank ↦ rw blank (tt, put_word-IsWord _ _ front rest)
      | inr solid ↦ rw solid ((solid, front), rest)
    ]

split_words-append :
    (w s : Text) → Solid w → split_words (w ++ s) ≡ (w ++ (split_words s).0, (split_words s).1)
unfolding split_words
split_words-append [] s h = refl
split_words-append (c ∷ w) s h = rw (h.0, split_words-append w s h.1) refl

word-Solid : (w : Text) → IsWord w → Solid w
word-Solid [] h = tt
word-Solid (c ∷ w) h = h

put_word-word : (w : Text) (ws : List Text) → IsWord w → put_word w ws ≡ w ∷ ws
put_word-word [] ws h = absurd h
put_word-word (c ∷ w) ws h = refl

split-blank :
    (s : Text) → split_words (b' ' ∷ s) ≡ ([], put_word (split_words s).0 (split_words s).1)
unfolding split_words is_space
split-blank s = refl

split_words-join_words :
    (w : Text) (ws : List Text) → All IsWord (w ∷ ws) → split_words (join_words (w ∷ ws)) ≡ (w, ws)
unfolding join_words
split_words-join_words w [] h =
    ap split_words (sym (append-nil w))
    ∙ split_words-append w [] (word-Solid w h.0)
    ∙ (unfold split_words in ap (λ x. (x, [])) (append-nil w))
split_words-join_words w (v ∷ ws) h =
    split_words-append w (b' ' ∷ join_words (v ∷ ws)) (word-Solid w h.0)
    ∙ rw
        (
          split-blank (join_words (v ∷ ws)),
          split_words-join_words v ws h.1,
          put_word-word v ws h.1.0,
        )
        (ap (λ x. (x, v ∷ ws)) (append-nil w))

words_of-join_words : (ws : List Text) → All IsWord ws → words_of (join_words ws) ≡ ws
unfolding words_of
words_of-join_words [] h = unfold join_words split_words in refl
words_of-join_words ((c ∷ w) ∷ ws) h = rw (split_words-join_words (c ∷ w) ws h) refl
words_of-join_words ([] ∷ ws) h = absurd h.0

-- Whatever text HTMLParser leaves, the body that is indexed has its words, in their order, none of them is empty or
-- has a blank in it, and the body is these words with one space between each two.
pub strip_tags_lem :
    (data_of : Text → Text) (html : Text)
    → (words_of (strip_tags data_of html) ≡ words_of (data_of html))
      × All IsWord (words_of (data_of html))
      × (strip_tags data_of html ≡ join_words (words_of (data_of html)))
unfolding strip_tags
strip_tags_lem data_of html =
    let (front, rest) = split_words-IsWord (data_of html) in
    let words : All IsWord (words_of (data_of html)) =
      unfold words_of in put_word-IsWord _ _ front rest in
    (words_of-join_words _ words, words, refl)

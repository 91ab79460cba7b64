-- ===== src/Fechas/Shapes.antt =====
-- Where the patterns of src/spidercheck/fechas.py match depends on the shape of a text only: which
-- digits it has does not matter, where it has them does.
use spidercheck.Prelude.{
  ℕ, suc, ◌≡◌, refl, ap, Bool, true, false, not, ◌&&◌, List, [], ◌∷◌, some, Text, map, length, any,
  ◌==◌, if◌then◌else◌, arith, inl, inr, Bool-cases,
}
use spidercheck.Prelude.Chars.{is_digit}
use spidercheck.Fechas.Regex.{
  Class, digit, letter, alnum, word, char, one_of, dot, is_letter, test, Regex, one, many, maybe,
  seq, group, end, Spans, Next, at_end, match_many, match, match_start,
}
use spidercheck.Fechas.Patterns.{parsers}
use spidercheck.Fechas.Parsers.{first_match}

-- Every digit as a zero.
unfoldable pub blank : ℕ → ℕ
unfolding is_digit
blank c = if is_digit c then b'0' else c

-- The classes and patterns that name no digit.
no_digits : Text → Bool
no_digits cs = not (any is_digit cs)

names_none : Class → Bool
unfolding is_digit no_digits any
names_none (char c) = not (is_digit c)
names_none (one_of cs) = no_digits cs
names_none digit = true
names_none letter = true
names_none alnum = true
names_none word = true
names_none dot = true

unfoldable pub blank_free : Regex → Bool
unfolding names_none
blank_free (one c) = names_none c
blank_free (many c) = names_none c
blank_free (maybe r) = blank_free r
blank_free (seq r q) = blank_free r && blank_free q
blank_free (group name r) = blank_free r
blank_free end = true

one_of-blank :
    (cs : Text) (x : ℕ) → no_digits cs ≡ true → any (λ c. blank x == c) cs ≡ any (λ c. x == c) cs
unfolding no_digits any blank is_digit
one_of-blank [] x h = refl
one_of-blank (c ∷ cs) x h = ground (arith, one_of-blank cs x)

test-blank : (c : Class) (x : ℕ) → names_none c ≡ true → test c (blank x) ≡ test c x
unfolding test blank is_digit is_letter names_none
test-blank digit x h = ground arith
test-blank letter x h = ground arith
test-blank alnum x h = ground arith
test-blank word x h = ground arith
test-blank (char c) x h = ground arith
test-blank (one_of cs) x h = one_of-blank cs x h
test-blank dot x h = ground arith

at_end-blank : (s : Text) → at_end (map blank s) ≡ at_end s
unfolding at_end blank is_digit
at_end-blank [] = refl
at_end-blank (c ∷ []) = ground arith
at_end-blank (c ∷ d ∷ s) = refl

length-map-blank : (s : Text) → length (map blank s) ≡ length s
length-map-blank [] = refl
length-map-blank (c ∷ s) = ap suc (length-map-blank s)

-- Two continuations that agree up to the digits.
abbrev Alike : Next → Next → Type 0
Alike next' next = (s : Text) (spans : Spans) → next' (map blank s) spans ≡ next s spans

match_many-blank :
    (c : Class) (s : Text) (spans : Spans) (next' next : Next)
    → names_none c ≡ true
    → Alike next' next
    → match_many c (map blank s) spans next' ≡ match_many c s spans next
unfolding match_many
match_many-blank c [] spans next' next h k = refl
match_many-blank c (x ∷ s) spans next' next h k =
    rw (test-blank c x h, match_many-blank c s spans next' next h k, k s spans) refl

match-blank :
    (r : Regex) (s : Text) (spans : Spans) (next' next : Next)
    → blank_free r ≡ true
    → Alike next' next
    → match r (map blank s) spans next' ≡ match r s spans next
unfolding match blank_free
match-blank (one c) [] spans next' next h k = refl
match-blank (one c) (x ∷ s) spans next' next h k = rw (test-blank c x h, k s spans) refl
match-blank (many c) s spans next' next h k = match_many-blank c s spans next' next h k
match-blank (maybe r) s spans next' next h k =
    rw (match-blank r s spans next' next h k, k s spans) refl
match-blank (seq r q) s spans next' next h k =
    match-blank r s spans _ _ (ground arith)
      λ s' spans'. match-blank q s' spans' next' next (ground arith) k
match-blank (group name r) s spans next' next h k = match-blank r s spans _ _ h λ s' spans'.
    rw (length-map-blank s, length-map-blank s') (k s' ((name, length s, length s') ∷ spans'))
match-blank end s spans next' next h k = rw (at_end-blank s, k s spans) refl

abbrev all_free : List Regex → Bool
all_free [] = true
all_free (r ∷ rs) = if blank_free r then all_free rs else false

first_match-free :
    (rs : List Regex) (s : Text)
    → all_free rs ≡ true
    → first_match rs (map blank s) ≡ first_match rs s
unfolding first_match match_start
first_match-free [] s h = refl
first_match-free (r ∷ rs) s h = elim (Bool-cases (blank_free r)) [
  | inl free ↦
      rw
        (
          match-blank r s [] (λ s' spans. some spans) (λ s' spans. some spans) free
              (λ s' spans. refl),
          first_match-free rs s (rw free at h),
        )
        refl
  | inr named ↦ let e = rw named at h in cc
]

parsers-free : all_free parsers ≡ true
unfolding blank_free names_none no_digits any is_digit
parsers-free = refl

-- Which pattern of `PARSERS` matches a text first, and where its groups match, does not change when
-- the digits of the text are replaced by zeros.
pub first_match-blank : (s : Text) → first_match parsers (map blank s) ≡ first_match parsers s
first_match-blank s = first_match-free parsers s parsers-free

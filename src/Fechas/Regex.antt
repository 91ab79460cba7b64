-- ===== src/Fechas/Regex.antt =====
-- The part of Python's `re` that the patterns of src/spidercheck/fechas.py use: `match` with
-- backtracking, the longest repetition first, over ASCII.
use spidercheck.Prelude.{
  ℕ, Bool, true, false, not, ◌&&◌, ◌||◌, List, [], ◌∷◌, Option, none, some, Text, length, any, leb,
  ◌==◌, if◌then◌else◌,
}
use spidercheck.Prelude.Chars.{is_digit}

-- `\d`, `[a-zA-Z]`, `[a-zA-Z0-9]`, `\w`, a character, a set of characters, and `.`.
pub data Class : Type 0 where
  digit letter alnum word : Class
  char : ℕ → Class
  one_of : Text → Class
  dot : Class

unfoldable pub is_letter : ℕ → Bool
is_letter c = (leb b'A' c && leb c b'Z') || (leb b'a' c && leb c b'z')

unfoldable pub test : Class → ℕ → Bool
unfolding is_digit is_letter any
test digit x = is_digit x
test letter x = is_letter x
test alnum x = is_letter x || is_digit x
test word x = is_letter x || (is_digit x || x == b'_')
test (char c) x = x == c
test (one_of cs) x = any (λ c. x == c) cs
test dot x = not (x == b'\n')

-- `end` is `$`.
pub data Regex : Type 0 where
  one : Class → Regex
  many : Class → Regex
  maybe : Regex → Regex
  seq : Regex → Regex → Regex
  group : Text → Regex → Regex
  end : Regex

-- Of each group that matched, the last first: how much text was left where it starts, and where it
-- ends.
abbrev pub Spans : Type 0
Spans = List (Text × ℕ × ℕ)

abbrev pub or_try : Option Spans → Option Spans → Option Spans
or_try none later = later
or_try (some spans) later = some spans

-- `$` matches at the end, and in front of a line break at the end.
unfoldable pub at_end : Text → Bool
at_end [] = true
at_end (c ∷ []) = c == b'\n'
at_end (c ∷ d ∷ s) = false

abbrev pub Next : Type 0
Next = Text → Spans → Option Spans

unfoldable pub match_many : Class → Text → Spans → Next → Option Spans
unfolding test
match_many c [] spans next = none
match_many c (x ∷ s) spans next =
    let longer = match_many c s spans next in
    if test c x then or_try longer (next s spans) else none

-- `next` is what is left to match.
unfoldable pub match : Regex → Text → Spans → Next → Option Spans
unfolding match_many at_end
match (one c) [] spans next = none
match (one c) (x ∷ s) spans next = if test c x then next s spans else none
match (many c) s spans next = match_many c s spans next
match (maybe r) s spans next = or_try (match r s spans next) (next s spans)
match (seq r q) s spans next = match r s spans λ s' spans'. match q s' spans' next
match (group name r) s spans next =
    match r s spans λ s' spans'. next s' ((name, length s, length s') ∷ spans')
match end s spans next = if at_end s then next s spans else none

-- `pattern.match(text)`
unfoldable pub match_start : Regex → Text → Option Spans
unfolding match
match_start r s = match r s [] (λ s' spans. some spans)

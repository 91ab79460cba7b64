-- ===== src/Prelude/Numerals.antt =====
-- `int(text)` and `str(number)` of Python, over ASCII texts.
use Prim.Native.Nat.{ℕ, zero, suc, ◌+◌, ◌-◌, ◌*◌, ◌/◌, ◌%◌}
use mathlib.Core.Bool.{Bool, true, false, ◌&&◌}
use mathlib.Core.List.{[], ◌∷◌}
use mathlib.Core.Option.{Option, none, some}
use mathlib.Core.Option
use spidercheck.Prelude.Tests.{◌==◌, if◌then◌else◌}
use spidercheck.Prelude.Texts.{Text}
use spidercheck.Prelude.Chars.{is_digit, strip}
use spidercheck.Prelude.Int.{ℤ, pos, negsuc, sub_ℕ}

-- Digits, with single underscores between them; `after_digit` says what came last.
unfoldable pub digits_value : ℕ → Bool → Text → Option ℕ
unfolding is_digit
digits_value n after_digit [] = if after_digit then some n else none
digits_value n after_digit (c ∷ s) =
    let next = digits_value (n * 10 + (c - b'0')) true s in
    let skip = digits_value n false s in
    if is_digit c then next else if c == b'_' && after_digit then skip else none

unfoldable pub signed : Text → Option ℤ
unfolding digits_value
signed [] = none
signed (c ∷ s) =
    if c == b'-'
    then Option.map (λ n. sub_ℕ 0 n) (digits_value 0 false s)
    else if c == b'+'
    then Option.map pos (digits_value 0 false s)
    else Option.map pos (digits_value 0 false (c ∷ s))

-- `int(text)`; `none` where it raises `ValueError`.
unfoldable pub int_of : Text → Option ℤ
unfolding signed strip
int_of text = signed (strip text)

-- The decimal digits of `n` in front of `tail`; `n + 1` rounds are enough.
unfoldable pub show_digits : ℕ → ℕ → Text → Text
show_digits zero n tail = tail
show_digits (suc fuel) n tail =
    let digit = b'0' + n % 10 in
    let rest = show_digits fuel (n / 10) (digit ∷ tail) in
    if n / 10 == 0 then digit ∷ tail else rest

unfoldable pub str_ℕ : ℕ → Text
unfolding show_digits
str_ℕ n = show_digits (suc n) n []

unfoldable pub str_ℤ : ℤ → Text
unfolding str_ℕ
str_ℤ (pos n) = str_ℕ n
str_ℤ (negsuc n) = b'-' ∷ str_ℕ (suc n)

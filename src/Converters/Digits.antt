-- ===== src/Converters/Digits.antt =====
-- What Python's `str` writes for a number, `int` reads.
use mathlib.Core.List.{reverse, reverse_aux, reverse-reverse}
use spidercheck.Prelude.{
  ℕ, zero, suc, ◌+◌, ◌/◌, ◌%◌, ◌<◌, ◌≡◌, refl, ◌∙◌, ap, true, false, [], ◌∷◌, some, arith, Text,
  All, ◌==◌, inl, inr, Bool-cases,
}
use spidercheck.Prelude.Int.{pos}
use spidercheck.Prelude.Chars.{is_digit, is_space, lstrip, strip}
use spidercheck.Prelude.Numerals.{digits_value, signed, int_of, show_digits, str_ℕ}

abbrev Digits : Text → Type 0
Digits = All (λ c. is_digit c ≡ true)

digit_of : (n : ℕ) → is_digit (b'0' + n % 10) ≡ true
unfolding is_digit
digit_of n = ground arith

show_digits-Digits : (fuel n : ℕ) (tail : Text) → Digits tail → Digits (show_digits fuel n tail)
unfolding show_digits
show_digits-Digits zero n tail h = h
show_digits-Digits (suc fuel) n tail h = elim (Bool-cases (n / 10 == 0)) [
  | inl last ↦ rw last (digit_of n, h)
  | inr more ↦ rw more (show_digits-Digits fuel (n / 10) _ (digit_of n, h))
]

digits_value-show_digits :
    (fuel n : ℕ) (tail : Text)
    → n < fuel
    → digits_value 0 false (show_digits fuel n tail) ≡ digits_value n true tail
unfolding show_digits digits_value
digits_value-show_digits zero n tail h = absurd (omega (arith, h))
digits_value-show_digits (suc fuel) n tail h = elim (Bool-cases (n / 10 == 0)) [
  | inl last ↦ rw (last, digit_of n) (ap (λ m. digits_value m true tail) (ground arith))
  | inr more ↦ rw more (
      digits_value-show_digits fuel (n / 10) _ (ground arith)
      ∙ rw (digit_of n) (ap (λ m. digits_value m true tail) (omega arith)))
]

digit-space : (c : ℕ) → is_digit c ≡ true → is_space c ≡ false
unfolding is_digit is_space
digit-space c h = ground arith

lstrip-Digits : (s : Text) → Digits s → lstrip s ≡ s
unfolding lstrip
lstrip-Digits [] h = refl
lstrip-Digits (c ∷ s) h = rw (digit-space c h.0) refl

reverse_aux-Digits : (s acc : Text) → Digits s → Digits acc → Digits (reverse_aux s acc)
reverse_aux-Digits [] acc h k = k
reverse_aux-Digits (c ∷ s) acc h k = reverse_aux-Digits s (c ∷ acc) h.1 (h.0, k)

strip-Digits : (s : Text) → Digits s → strip s ≡ s
unfolding strip
strip-Digits s h =
    ap (λ t. reverse (lstrip (reverse t))) (lstrip-Digits s h)
    ∙ ap reverse (lstrip-Digits (reverse s) (reverse_aux-Digits s [] h tt))
    ∙ reverse-reverse s

signed-Digits :
    (s : Text) (n : ℕ) → Digits s → digits_value 0 false s ≡ some n → signed s ≡ some (pos n)
unfolding signed digits_value
signed-Digits [] n h e = cc
signed-Digits (c ∷ s) n h e =
    let minus : (c == b'-') ≡ false = unfold is_digit in ground (arith, h.0) in
    let plus : (c == b'+') ≡ false = unfold is_digit in ground (arith, h.0) in
    rw (minus, plus, e) refl

-- `int` reads the `str` of a number as the number.
pub int_of-str_ℕ : (n : ℕ) → int_of (str_ℕ n) ≡ some (pos n)
unfolding int_of str_ℕ digits_value
int_of-str_ℕ n =
    let digits = show_digits-Digits (suc n) n [] tt in
    ap signed (strip-Digits (show_digits (suc n) n []) digits)
    ∙ signed-Digits (show_digits (suc n) n []) n digits
        (digits_value-show_digits (suc n) n [] (omega arith))

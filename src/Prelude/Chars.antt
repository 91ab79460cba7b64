-- ===== src/Prelude/Chars.antt =====
-- Characters and texts as Python's `str` methods treat them, over ASCII.
use Prim.Native.Nat.{ℕ, ◌+◌}
use mathlib.Core.Path.{◌≡◌, refl}
use mathlib.Core.Bool.{Bool, true, false, ◌&&◌, ◌||◌}
use mathlib.Core.List.{[], ◌∷◌, map, reverse}
use native.Mathlib.Omega.{arith}
use spidercheck.Prelude.Tests.{◌==◌, leb, if◌then◌else◌}
use spidercheck.Prelude.Texts.{Text}

unfoldable pub lower_char : ℕ → ℕ
lower_char c = if leb b'A' c && leb c b'Z' then c + 32 else c

unfoldable pub lower : Text → Text
unfolding lower_char
lower = map lower_char

pub lower_char_idem : (c : ℕ) → lower_char (lower_char c) ≡ lower_char c
unfolding lower_char
lower_char_idem c = ground arith

-- Tab, line feed, vertical tab, form feed, carriage return, the four separators, and the space.
unfoldable pub is_space : ℕ → Bool
is_space c = (leb 9 c && leb c 13) || (leb 28 c && leb c 32)

unfoldable pub is_digit : ℕ → Bool
is_digit c = leb b'0' c && leb c b'9'

unfoldable pub lstrip : Text → Text
unfolding is_space
lstrip [] = []
lstrip (c ∷ s) = let rest = lstrip s in if is_space c then rest else c ∷ s

unfoldable pub strip : Text → Text
unfolding lstrip
strip s = reverse (lstrip (reverse (lstrip s)))

-- A literal pattern matches at the start, upper and lower case alike.
unfoldable pub starts_with_ci : Text → Text → Bool
unfolding lower_char
starts_with_ci [] text = true
starts_with_ci (c ∷ pattern') [] = false
starts_with_ci (c ∷ pattern') (d ∷ text) =
    lower_char c == lower_char d && starts_with_ci pattern' text

pub starts_with_ci-lower : (p text : Text) → starts_with_ci p (lower text) ≡ starts_with_ci p text
unfolding starts_with_ci lower
starts_with_ci-lower [] text = refl
starts_with_ci-lower (c ∷ p) [] = refl
starts_with_ci-lower (c ∷ p) (d ∷ text) =
    ground (arith, starts_with_ci-lower p text, lower_char_idem d)

-- ===== src/Base/Text.antt =====
-- JavaScript's `trim`, `length`, `startsWith` of one character and `includes`, on texts as lists
-- of characters.
use Prim.Native.Char.{Char, code}
use Prim.Native.String.{String, [], ◌∷◌}
use Prim.Native.Nat.{ℕ, ◌+◌}
use mathlib.Core.Path.{◌≡◌, refl}
use mathlib.Core.Bool.{Bool, true, false, ◌&&◌, ◌||◌, not}
use mathlib.Core.Option.{Option, none, some}
use native.Mathlib.Omega.{arith}
use sentry_usb.Base.Tests.{leb, ltb, ◌==◌, if◌then◌else◌}

abbrev pub is_empty : String → Bool
is_empty [] = true
is_empty (c ∷ s) = false

-- The white space and line terminators of ECMAScript.
unfoldable pub is_space : ℕ → Bool
is_space c =
    (leb 9 c && leb c 13)
    || c == 32
    || c == 0xa0
    || c == 0x1680
    || (leb 0x2000 c && leb c 0x200a)
    || c == 0x2028
    || c == 0x2029
    || c == 0x202f
    || c == 0x205f
    || c == 0x3000
    || c == 0xfeff

unfoldable pub trim_start : String → String
trim_start [] = []
trim_start (c ∷ s) = let rest = trim_start s in if is_space (code c) then rest else c ∷ s

abbrev keep_end : Char → String → String
keep_end c rest = if is_space (code c) && is_empty rest then [] else c ∷ rest

unfoldable pub trim_end : String → String
trim_end [] = []
trim_end (c ∷ s) = keep_end c (trim_end s)

unfoldable pub trim : String → String
unfolding trim_start trim_end is_space
trim s = trim_end (trim_start s)

-- UTF-16 code units
unfoldable pub utf16_length : String → ℕ
utf16_length [] = 0
utf16_length (c ∷ s) = (if ltb (code c) 0x10000 then 1 else 2) + utf16_length s

unfoldable pub starts_with_char : ℕ → String → Bool
starts_with_char k [] = false
starts_with_char k (c ∷ s) = code c == k

-- A value that is there and is not the empty text is true as a condition.
abbrev pub truthy : Option String → Bool
truthy none = false
truthy (some s) = not (is_empty s)

-- some character is no white space
abbrev pub has_text : String → Bool
has_text [] = false
has_text (c ∷ s) = not (is_space (code c)) || has_text s

has_text-trim_start : (s : String) → has_text (trim_start s) ≡ has_text s
unfolding trim_start
has_text-trim_start [] = refl
has_text-trim_start (c ∷ s) = ground (arith, has_text-trim_start s)

is_empty-trim_end : (s : String) → is_empty (trim_end s) ≡ not (has_text s)
unfolding trim_end
is_empty-trim_end [] = refl
is_empty-trim_end (c ∷ s) = ground (arith, is_empty-trim_end s)

-- Trimming leaves something exactly when there is a character that is no white space.
pub is_empty-trim : (s : String) → is_empty (trim s) ≡ not (has_text s)
is_empty-trim s =
    unfold trim in ground (arith, is_empty-trim_end (trim_start s), has_text-trim_start s)

-- no character is white space
abbrev pub no_space : String → Bool
no_space [] = true
no_space (c ∷ s) = not (is_space (code c)) && no_space s

trim_end_of_no_space : (s : String) → no_space s ≡ true → trim_end s ≡ s
unfolding trim_end
trim_end_of_no_space [] h = refl
trim_end_of_no_space (c ∷ s) h = ground (arith, trim_end_of_no_space s)

trim_start_of_no_space : (s : String) → no_space s ≡ true → trim_start s ≡ s
unfolding trim_start
trim_start_of_no_space [] h = refl
trim_start_of_no_space (c ∷ s) h = ground arith

pub trim_of_no_space : (s : String) → no_space s ≡ true → trim s ≡ s
trim_of_no_space s h =
    unfold trim in ground (arith, trim_start_of_no_space s h, trim_end_of_no_space s h)

-- the text starts with the prefix; `includes`
unfoldable pub has_prefix : String → String → Bool
has_prefix [] s = true
has_prefix (c ∷ p) [] = false
has_prefix (c ∷ p) (d ∷ s) = code c == code d && has_prefix p s

unfoldable pub includes : String → String → Bool
unfolding has_prefix
includes needle [] = is_empty needle
includes needle (d ∷ s) = has_prefix needle (d ∷ s) || includes needle s

-- the pattern /^\d+$/
unfoldable pub is_digit : ℕ → Bool
is_digit c = leb 48 c && leb c 57

abbrev pub all_digits : String → Bool
all_digits [] = true
all_digits (c ∷ s) = is_digit (code c) && all_digits s

digit-is_space : (c : ℕ) → is_digit c ≡ true → is_space c ≡ false
unfolding is_digit is_space
digit-is_space c h = ground arith

pub no_space_of_digits : (s : String) → all_digits s ≡ true → no_space s ≡ true
no_space_of_digits [] h = refl
no_space_of_digits (c ∷ s) h = ground (arith, digit-is_space (code c), no_space_of_digits s)

-- the two texts one after the other
unfoldable pub concat : String → String → String
concat [] t = t
concat (c ∷ s) t = c ∷ concat s t

-- ===== src/Base/Text.antt =====
-- Python strings as lists of code points, and the string methods that the source calls.
pub mod Strip
use Prim.Native.Nat.{ℕ, ◌-◌}
use Prim.Native.Char.{code}
use Prim.Native.String.{String}
use mathlib.Core.Path.{◌≡◌, refl}
use mathlib.Core.Bool.{Bool, true, false, ◌&&◌, ◌||◌, not}
use mathlib.Core.List.{List, [], ◌∷◌, ◌++◌, map, reverse, flat_map}
use native.Mathlib.Omega.{arith}
use ephi.Base.Tests.{leb, nat_eq, if◌then◌else◌}
use ephi.Base.Equality.{◌==◌, ℕ_eq, list_eq, list_Eq, contains}

abbrev pub Text : Type 0
Text = List ℕ

-- A literal's code points.
abbrev pub codes : String → Text
codes String.[] = []
codes (String.◌∷◌ c s) = code c ∷ codes s

-- `str.isspace` of one code point, which is what `str.strip` removes.
unfoldable pub is_space : ℕ → Bool
is_space c =
    (leb 9 c && leb c 13)
    || (leb 28 c && leb c 32)
    || nat_eq c 133
    || nat_eq c 160
    || nat_eq c 5760
    || (leb 8192 c && leb c 8202)
    || nat_eq c 8232
    || nat_eq c 8233
    || nat_eq c 8239
    || nat_eq c 8287
    || nat_eq c 12288

unfoldable pub lstrip : Text → Text
unfolding is_space
lstrip [] = []
lstrip (c ∷ s) = if is_space c then lstrip s else c ∷ s

-- `s.strip()`
unfoldable pub strip : Text → Text
unfolding lstrip
strip s = reverse (lstrip (reverse (lstrip s)))

unfoldable pub starts_with : Text → Text → Bool
starts_with [] s = true
starts_with (c ∷ t) [] = false
starts_with (c ∷ t) (d ∷ s) = nat_eq c d && starts_with t s

-- `token in s`
unfoldable pub has_substring : Text → Text → Bool
unfolding starts_with
has_substring t [] = starts_with t []
has_substring t (c ∷ s) = starts_with t (c ∷ s) || has_substring t s

-- `str.upper` of one code point. Those beyond ASCII stand for themselves, but for all those whose
-- upper case has an ASCII letter in it.
unfoldable pub upper_code : ℕ → Text
upper_code c =
    if leb b'a' c && leb c b'z'
    then (c - 32) ∷ []
    else if nat_eq c 0xdf
    then b'S' ∷ b'S' ∷ []
    else if nat_eq c 0x131
    then b'I' ∷ []
    else if nat_eq c 0x149
    then 0x2bc ∷ b'N' ∷ []
    else if nat_eq c 0x17f
    then b'S' ∷ []
    else if nat_eq c 0x1f0
    then b'J' ∷ 0x30c ∷ []
    else if nat_eq c 0x1e96
    then b'H' ∷ 0x331 ∷ []
    else if nat_eq c 0x1e97
    then b'T' ∷ 0x308 ∷ []
    else if nat_eq c 0x1e98
    then b'W' ∷ 0x30a ∷ []
    else if nat_eq c 0x1e99
    then b'Y' ∷ 0x30a ∷ []
    else if nat_eq c 0x1e9a
    then b'A' ∷ 0x2be ∷ []
    else if nat_eq c 0xfb00
    then b'F' ∷ b'F' ∷ []
    else if nat_eq c 0xfb01
    then b'F' ∷ b'I' ∷ []
    else if nat_eq c 0xfb02
    then b'F' ∷ b'L' ∷ []
    else if nat_eq c 0xfb03
    then b'F' ∷ b'F' ∷ b'I' ∷ []
    else if nat_eq c 0xfb04
    then b'F' ∷ b'F' ∷ b'L' ∷ []
    else if nat_eq c 0xfb05 || nat_eq c 0xfb06
    then b'S' ∷ b'T' ∷ []
    else c ∷ []

unfoldable pub upper : Text → Text
unfolding upper_code
upper = flat_map upper_code

-- `s.replace(old, new)` for one-character strings.
unfoldable pub replace_code : ℕ → ℕ → Text → Text
replace_code old new = map (λ c. if nat_eq c old then new else c)

-- `not value or value != value.strip() or "\x00" in value` is false.
unfoldable pub is_canonical : Text → Bool
unfolding strip
is_canonical s = not (s == []) && (s == strip s) && not (contains 0 s)

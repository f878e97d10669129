-- ===== src/Common/Text.antt =====
-- What the program uses of the packages `strings` and `fmt`, on texts as lists of characters.
use Prim.Native.Char.{Char, code}
use Prim.Native.String.{String, compare}
use text.Mathlib.Text
use mathlib.Core.Bool.{Bool, ◌&&◌, ◌||◌}
use mathlib.Core.Path.{◌≡◌, refl}
use mathlib.Core.List.{List, [], ◌∷◌}
use Prim.Native.Nat.{ℕ}
use sl_open_bark.Common.Equality.{if◌then◌else◌, ◌==◌, string_eq, nat_eq}
use sl_open_bark.Common.Tests.{leb}

-- `unicode.IsSpace`
pub is_space : Char → Bool
is_space c =
    let n = code c in
    (leb 9 n && leb n 13)
    || n == 0x20
    || n == 0x85
    || n == 0xA0
    || n == 0x1680
    || (leb 0x2000 n && leb n 0x200A)
    || n == 0x2028
    || n == 0x2029
    || n == 0x202F
    || n == 0x205F
    || n == 0x3000

pub trim_left : String → String
unfolding is_space nat_eq
trim_left String.[] = String.[]
trim_left (String.◌∷◌ c s) = let rest = trim_left s in if is_space c then rest else String.◌∷◌ c s

-- A character in front of a trimmed text: a space in front of nothing goes too.
abbrev cons_trimmed : Char → String → String
cons_trimmed c String.[] = if is_space c then String.[] else String.◌∷◌ c String.[]
cons_trimmed c (String.◌∷◌ d s) = String.◌∷◌ c (String.◌∷◌ d s)

pub trim_right : String → String
unfolding is_space nat_eq
trim_right String.[] = String.[]
trim_right (String.◌∷◌ c s) = cons_trimmed c (trim_right s)

-- `strings.TrimSpace`
unfoldable pub trim_space : String → String
unfolding trim_left trim_right
trim_space s = trim_right (trim_left s)

trim_space_test : trim_space "  a b\n " ≡ "a b"
unfolding trim_space
trim_space_test = refl

-- The order of texts by their bytes.
abbrev pub text_le : String → String → Bool
text_le s t = Text.is_le (compare s t)

abbrev cons_first : Char → List String → List String
cons_first c [] = []
cons_first c (s ∷ ss) = String.◌∷◌ c s ∷ ss

-- `strings.Split`, at a separator of one character given by its code point
unfoldable pub split : ℕ → String → List String
unfolding nat_eq
split sep String.[] = "" ∷ []
split sep (String.◌∷◌ c s) =
    let rest = split sep s in if code c == sep then "" ∷ rest else cons_first c rest

split_test : split b',' "a,,b" ≡ "a" ∷ "" ∷ "b" ∷ []
unfolding split
split_test = refl

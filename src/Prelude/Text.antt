-- ===== src/Prelude/Text.antt =====
-- The functions of Go's `strings` package that the program calls, over the characters of a string.
pub mod Plain
use Prim.Native.Nat.{ℕ}
use Prim.Native.Char.{Char, code}
use Prim.Native.String.{String, [], ◌∷◌}
use mathlib.Core.Bool.{Bool, true, false, ◌&&◌, ◌||◌}
use text.Mathlib.Text.{◌==◌ as str_eq}
use goddgs.Prelude.Tests.{leb, ◌==◌, if◌then◌else◌}

-- `unicode.IsSpace`.
unfoldable pub is_space : ℕ → Bool
is_space c =
    (leb 9 c && leb c 13)
    || c == 32
    || c == 0x85
    || c == 0xa0
    || c == 0x1680
    || (leb 0x2000 c && leb c 0x200a)
    || c == 0x2028
    || c == 0x2029
    || c == 0x202f
    || c == 0x205f
    || c == 0x3000

pub trim_left : String → String
unfolding is_space
trim_left [] = []
trim_left (c ∷ s) = elim (is_space (code c)) [ true ↦ trim_left s | false ↦ c ∷ s ]

pub trim_right : String → String
unfolding is_space
trim_right [] = []
trim_right (c ∷ s) =
    let rest = trim_right s in if is_space (code c) && str_eq rest "" then [] else c ∷ rest

-- `strings.TrimSpace`.
unfoldable pub trim_space : String → String
unfolding trim_left trim_right
trim_space s = trim_right (trim_left s)

-- A `strings.TrimSpace(s) == ""` test.
abbrev pub is_blank : String → Bool
is_blank s = str_eq (trim_space s) ""

-- Equality of two characters, by their code points.
abbrev pub same_char : Char → Char → Bool
same_char c d = code c == code d

unfoldable pub has_prefix : String → String → Bool
has_prefix s [] = true
has_prefix [] (d ∷ t) = false
has_prefix (c ∷ s) (d ∷ t) = same_char c d && has_prefix s t

-- `strings.Contains`.
unfoldable pub contains : String → String → Bool
unfolding has_prefix
contains [] t = has_prefix [] t
contains (c ∷ s) t = has_prefix (c ∷ s) t || contains s t

-- ===== src/Prelude/Split.antt =====
-- `strings.Split(s, ",")`.
pub mod Joined
use Prim.Native.Char.{code}
use Prim.Native.String.{String, [], ◌∷◌}
use mathlib.Core.List.{List}
use goddgs.Prelude.Tests.{◌==◌, if◌then◌else◌}

-- The part before the first comma, and the parts after it.
cut : String → String × List String
cut [] = ("", List.[])
cut (c ∷ s) =
    let (first, rest) = cut s in
    if code c == 44 then ("", List.◌∷◌ first rest) else (c ∷ first, rest)

unfoldable pub split_comma : String → List String
unfolding cut
split_comma s = let (first, rest) = cut s in List.◌∷◌ first rest

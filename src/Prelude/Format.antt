-- ===== src/Prelude/Format.antt =====
-- The parts of Go's `fmt` that the program's messages need.
use Prim.Native.Nat.{ℕ, suc, zero, ◌+◌, ◌/◌, ◌%◌}
use Prim.Native.String
use Prim.Native.String.{String}
use mathlib.Core.List.{List, [], ◌∷◌}
use mathlib.Core.Option.{none, some}
use goddgs.Prelude.Tests.{ltb, if◌then◌else◌}
use goddgs.Prelude.Lists.{get_elem?}

-- `fmt.Sprintf` of texts one after another.
unfoldable pub concat : List String → String
concat [] = ""
concat (s ∷ ss) = String.◌++◌ s (concat ss)

-- `strings.Join`.
unfoldable pub join : String → List String → String
unfolding concat
join sep [] = ""
join sep (s ∷ []) = s
join sep (s ∷ t ∷ ss) = concat (s ∷ sep ∷ join sep (t ∷ ss) ∷ [])

abbrev digit_names : List String
digit_names = "0" ∷ "1" ∷ "2" ∷ "3" ∷ "4" ∷ "5" ∷ "6" ∷ "7" ∷ "8" ∷ "9" ∷ []

digit : ℕ → String
digit n = elim (get_elem? digit_names n) [ none ↦ "" | some d ↦ d ]

-- The digits of `n`, most significant first, in front of `rest`.
digits_from : ℕ → ℕ → String → String
unfolding digit
digits_from zero n rest = rest
digits_from (suc fuel) n rest =
    let now = String.◌++◌ (digit (n % 10)) rest in
    let more = digits_from fuel (n / 10) now in if ltb n 10 then now else more

-- `%d` of a number that is not negative, which has at most `n + 1` digits.
unfoldable pub decimal : ℕ → String
unfolding digits_from
decimal n = digits_from (n + 1) n ""

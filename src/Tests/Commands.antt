-- ===== src/Tests/Commands.antt =====
-- The command line and the metrics.
use goddgs.Prelude.{ℕ, ◌+◌, refl, false, some, [], ◌∷◌}
use goddgs.Prelude.Int.{pos}
use goddgs.Prelude.Text.{trim_space}
use goddgs.Failure.{nil}
use goddgs.Engine.{Engine, Run, search}
use goddgs.Command.{SearchFlags, request, run_search}
use goddgs.Command.Codes.{Tells, run_search-Tells}

abbrev tick : ℕ → ℕ × ℕ
tick w = (w, w + 1)

abbrev flags : SearchFlags
flags = record { query = "golang"; max = pos 3; region = "us-en"; as_json = false }

abbrev nobody : Engine ℕ
nobody = record { providers = []; hooks = [] }

abbrev begin : Run ℕ
begin = record { world = 0; emitted = [] }

run_search-Tells_example :
    Tells
      (search tick nobody (request flags) begin).0.1
      (run_search tick (λ r. "{}" ∷ []) (some flags) "usage" (some nobody) nil begin).0.code
unfolding trim_space
run_search-Tells_example = run_search-Tells tick (λ r. "{}" ∷ []) flags "usage" nobody begin refl

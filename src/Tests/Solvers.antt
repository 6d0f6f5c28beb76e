-- ===== src/Tests/Solvers.antt =====
-- A chain whose first solver fails and whose second one answers.
use goddgs.Prelude.{ℕ, ◌+◌, refl, Bool, true, false, none, some, [], ◌∷◌}
use goddgs.Failure.{nil, message}
use goddgs.Signal.{BlockSignal, recaptcha, BlockInfo}
use goddgs.Client.{ChallengeSolution}
use goddgs.Solver.{ChallengeSolver, chain_solve}
use goddgs.Solver.Chain.{SolvedBy, chain_solve-SolvedBy}

abbrev only_recaptcha : BlockSignal → Bool
only_recaptcha recaptcha = true
only_recaptcha _ = false

abbrev solution : ChallengeSolution
solution = record { cookies = []; user_agent = ""; token = "03AG" }

abbrev broken : ChallengeSolver ℕ
broken = record {
  supports = only_recaptcha;
  solve = λ url info body w. ((none, message "timeout"), w + 120);
}

abbrev working : ChallengeSolver ℕ
working = record {
  supports = only_recaptcha;
  solve = λ url info body w. ((some solution, nil), w + 9);
}

abbrev seen : BlockSignal → BlockInfo
seen s = record { signal = s; detector_key = "test" }

chain_solve-SolvedBy_example :
    SolvedBy "https://duckduckgo.com" (seen recaptcha) "" (broken ∷ working ∷ []) solution
unfolding chain_solve
chain_solve-SolvedBy_example =
    chain_solve-SolvedBy "https://duckduckgo.com" (seen recaptcha) "" (broken ∷ working ∷ []) 0
      solution refl

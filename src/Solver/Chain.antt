-- ===== src/Solver/Chain.antt =====
-- Which solver of a chain answers.
use goddgs.Prelude.{
  String, ◌≡◌, refl, inl, inr, ◌∙◌, ap, true, false, none, some, List, [], ◌∷◌, ◌++◌, arith,
  Bool-cases, Option-cases,
}
use goddgs.Prelude.Format.{concat}
use goddgs.Failure.{GoError, nil, is_nil, message}
use goddgs.Signal.{BlockInfo, signal_text}
use goddgs.Client.{ChallengeSolution}
use goddgs.Solver.{ChallengeSolver, chain_supports, solve_from, chain_solve}

module _ {W : Type 0} (url : String) (info : BlockInfo) (body : String) where
  -- One solver of the chain, which supports the signal, gave the solution without an error.
  pub record SolvedBy (solvers : List (ChallengeSolver W)) (sol : ChallengeSolution) : Type 0 where
    pub before : List (ChallengeSolver W)
    pub solver : ChallengeSolver W
    pub after : List (ChallengeSolver W)
    pub split : solvers ≡ before ++ solver ∷ after
    pub supported : solver.supports info.signal ≡ true
    pub world : W
    pub solution : (solver.solve url info body world).0.0 ≡ some sol
    pub clean : is_nil (solver.solve url info body world).0.1 ≡ true

  deeper :
      (s : ChallengeSolver W) {ss : List (ChallengeSolver W)} {sol : ChallengeSolution}
      → SolvedBy ss sol
      → SolvedBy (s ∷ ss) sol
  deeper s by = record {
    before = s ∷ by.before;
    solver = by.solver;
    after = by.after;
    split = ap (◌∷◌ s) by.split;
    supported = by.supported;
    world = by.world;
    solution = by.solution;
    clean = by.clean;
  }

  solve_from-SolvedBy :
      (ss : List (ChallengeSolver W)) (last : GoError) (w : W) (sol : ChallengeSolution)
      → (solve_from url info body ss last w).0.0 ≡ some sol
      → SolvedBy ss sol
  unfolding solve_from
  solve_from-SolvedBy [] last w sol h = cc h
  solve_from-SolvedBy (s ∷ ss) last w sol h = elim (Bool-cases (s.supports info.signal)) [
    | inr passed ↦ deeper s (solve_from-SolvedBy ss last w sol (rw (passed, solve_from) at h))
    | inl asked ↦
        let (answer, w1) = s.solve url info body w in
        elim (Option-cases answer.0) [
          | inl nothing ↦
              deeper s
                (solve_from-SolvedBy ss answer.1 w1 sol (rw (asked, nothing, solve_from) at h))
          | inr (x, given) ↦ elim (Bool-cases (is_nil answer.1)) [
            | inr bad ↦
                deeper s
                  (solve_from-SolvedBy ss answer.1 w1 sol (rw (asked, given, bad, solve_from) at h))
            | inl ok ↦ record {
              before = [];
              solver = s;
              after = ss;
              split = refl;
              supported = asked;
              world = w;
              solution = given ∙ rw (asked, given, ok, solve_from) at h;
              clean = ok;
            }
          ]
        ]
  ]

  -- A solution of the chain is the one that a solver of the chain gave, without an error, for a
  -- signal that it supports.
  pub chain_solve-SolvedBy :
      (ss : List (ChallengeSolver W)) (w : W) (sol : ChallengeSolution)
      → (chain_solve url info body ss w).0.0 ≡ some sol
      → SolvedBy ss sol
  unfolding chain_solve
  chain_solve-SolvedBy ss w sol h = solve_from-SolvedBy ss nil w sol h

  solve_from-unsupported :
      (ss : List (ChallengeSolver W)) (w : W)
      → chain_supports ss info.signal ≡ false
      → solve_from url info body ss nil w ≡ (
        (
          none,
          message (concat ("chain: no solver registered for " ∷ signal_text info.signal ∷ [])),
        ),
        w,
      )
  unfolding solve_from chain_supports
  solve_from-unsupported [] w h = refl
  solve_from-unsupported (s ∷ ss) w h = elim (Bool-cases (s.supports info.signal)) [
    | inl here ↦ ground arith
    | inr passed ↦
        rw (passed, solve_from) (solve_from-unsupported ss w (rw (passed, chain_supports) at h))
  ]

  -- A chain that does not support the signal asks no solver and says so.
  pub chain_solve-unsupported :
      (ss : List (ChallengeSolver W)) (w : W)
      → chain_supports ss info.signal ≡ false
      → chain_solve url info body ss w ≡ (
        (
          none,
          message (concat ("chain: no solver registered for " ∷ signal_text info.signal ∷ [])),
        ),
        w,
      )
  unfolding chain_solve
  chain_solve-unsupported ss w h = solve_from-unsupported ss w h

-- ===== src/Solver/Remote/FlareSolverr.antt =====
-- solver_flaresolverr.go. A cookie is its domain with the rest of its text.
use text.Mathlib.Text.{◌==◌ as str_eq}
use goddgs.Prelude.{
  ℕ, String, Bool, true, false, ◌&&◌, not, Option, none, some, List, [], ◌∷◌, if◌then◌else◌,
}
use goddgs.Prelude.Format.{concat}
use goddgs.Failure.{GoError, nil, is_nil, wrapped}
use goddgs.Net.{HttpResponse}
use goddgs.Signal.{BlockSignal, cloudflare, generic, BlockInfo}
use goddgs.Client.{ChallengeSolution}
use goddgs.Solver.{ChallengeSolver}
use goddgs.Solver.Remote.{Remote, exchange}

pub record FlareSolverrSolver : Type 0 where
  pub endpoint : String
  pub max_timeout : ℕ

-- `NewFlareSolverrSolver`.
unfoldable new_flare_solverr_solver : String → FlareSolverrSolver
new_flare_solverr_solver endpoint = record {
  endpoint = if str_eq endpoint "" then "http://localhost:8191/v1" else endpoint;
  max_timeout = 60_000;
}

-- `FlareSolverrSolver.Supports`.
unfoldable pub flare_supports : BlockSignal → Bool
flare_supports cloudflare = true
flare_supports generic = true
flare_supports _ = false

-- The answer of the service.
pub record FlareAnswer : Type 0 where
  pub status : String
  pub message : String
  pub cookies : List (String × String)
  pub user_agent : String

abbrev pub no_cookies : List (String × String) → Bool
no_cookies [] = true
no_cookies (c ∷ cs) = false

-- What `Solve` makes of an answer.
unfoldable pub judge_answer : FlareAnswer → Option ChallengeSolution × GoError
judge_answer a =
    let sol : ChallengeSolution = record {
      cookies = a.cookies;
      user_agent = a.user_agent;
      token = "";
    } in
    if not (str_eq a.status "ok")
    then (none, GoError.message (concat ("flaresolverr: challenge failed: " ∷ a.message ∷ [])))
    else if no_cookies a.cookies && str_eq a.user_agent ""
    then (none, GoError.message "flaresolverr: solution contained no usable credentials")
    else (some sol, nil)

-- `marshal` writes the JSON of a command, an address and a number of milliseconds; `decode` decodes
-- the response as it is read.
module _ {W : Type 0} (net : Remote W) (marshal : String → String → ℕ → String)
    (decode : HttpResponse → GoError → FlareAnswer × GoError) (f : FlareSolverrSolver) where
  -- `FlareSolverrSolver.Solve`.
  unfoldable pub flare_solve :
      String → BlockInfo → String → W → (Option ChallengeSolution × GoError) × W
  unfolding judge_answer
  flare_solve page_url info body =
      exchange net
        (record {
          method = "POST";
          url = f.endpoint;
          headers = ("Content-Type", "application/json" ∷ []) ∷ [];
          body = marshal "request.get" page_url f.max_timeout;
        })
        (λ err. (none, wrapped "flaresolverr: " err ""))
        (λ resp read_err.
          let (a, err) = decode resp read_err in
          if is_nil err then judge_answer a else (none, wrapped "flaresolverr: decode: " err ""))

  -- The solver as a member of a chain.
  unfoldable pub flare_solver : ChallengeSolver W
  unfolding flare_solve flare_supports
  flare_solver = record { supports = flare_supports; solve = flare_solve }

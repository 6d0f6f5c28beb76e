-- ===== src/Solver.antt =====
-- solver.go. `find re s` stands for the first group of `FindStringSubmatch`, where the pattern matches,
-- and `matches re s` for `MatchString`.
pub mod Chain
pub mod Remote
use goddgs.Prelude.{
  ℕ, String, Bool, true, false, ◌||◌, Option, none, some, List, [], ◌∷◌, if◌then◌else◌,
}
use goddgs.Prelude.Format.{concat}
use goddgs.Failure.{GoError, nil, is_nil, message, wrapped}
use goddgs.Signal.{BlockSignal, cloudflare, recaptcha, signal_text, BlockInfo}
use goddgs.Client.{ChallengeSolution}

-- `ChallengeSolver`.
pub record ChallengeSolver (W : Type 0) : Type 0 where
  pub supports : BlockSignal → Bool
  pub solve : String → BlockInfo → String → W → (Option ChallengeSolution × GoError) × W

module _ {W : Type 0} where
  -- `ChainSolver.Supports`.
  unfoldable pub chain_supports : List (ChallengeSolver W) → BlockSignal → Bool
  chain_supports [] sig = false
  chain_supports (s ∷ ss) sig = if s.supports sig then true else chain_supports ss sig

  module _ (url : String) (info : BlockInfo) (body : String) where
    -- The loop of `ChainSolver.Solve`; `last` is `lastErr`.
    pub solve_from :
        List (ChallengeSolver W) → GoError → W → (Option ChallengeSolution × GoError) × W
    solve_from [] last w = (
      (
        none,
        if is_nil last
            then message
                (concat ("chain: no solver registered for " ∷ signal_text info.signal ∷ []))
            else wrapped
                (concat ("chain: all solvers failed for " ∷ signal_text info.signal ∷ ": " ∷ []))
                last "",
      ),
      w,
    )
    solve_from (s ∷ ss) last w = elim (s.supports info.signal) [
      | false ↦ solve_from ss last w
      | true ↦
          let (answer, w1) = s.solve url info body w in
          elim answer.0 [
            | none ↦ solve_from ss answer.1 w1
            | some sol ↦ elim (is_nil answer.1) [
              | false ↦ solve_from ss answer.1 w1
              | true ↦ ((some sol, nil), w1)
            ]
          ]
    ]

    -- `ChainSolver.Solve`.
    unfoldable pub chain_solve :
        List (ChallengeSolver W) → W → (Option ChallengeSolution × GoError) × W
    unfolding solve_from
    chain_solve solvers w = solve_from solvers nil w

-- `siteKeyPatterns`.
abbrev site_key_patterns : List String
site_key_patterns =
    "data-sitekey=[\"']([0-9A-Za-z_\\-]{20,})[\"']"
    ∷ "[\"']sitekey[\"']:\\s*[\"']([0-9A-Za-z_\\-]{20,})[\"']" ∷ "sitekey=([0-9A-Za-z_\\-]{20,})"
    ∷ "cf-chl-widget-[a-z0-9]+.*?data-sitekey=[\"']([0-9A-Za-z_\\-]{20,})[\"']" ∷ []

first_group : (String → String → Option String) → String → List String → String
first_group find s [] = ""
first_group find s (re ∷ res) = elim (find re s) [ none ↦ first_group find s res | some key ↦ key ]

-- `extractSiteKey`.
unfoldable pub extract_site_key : (String → String → Option String) → String → String
unfolding first_group
extract_site_key find body = first_group find body site_key_patterns

abbrev is_cloudflare : BlockSignal → Bool
is_cloudflare cloudflare = true
is_cloudflare _ = false

-- `challengeType`.
unfoldable pub challenge_type : (String → String → Bool) → String → BlockSignal → String
challenge_type matches s sig =
    if matches "hcaptcha\\.com" s
    then "hcaptcha"
    else if matches "turnstile" s || is_cloudflare sig
    then "turnstile"
    else if matches "recaptcha/api2" s
    then "recaptchav2"
    else if matches "recaptcha/enterprise" s
    then "recaptchav3"
    else if matches "google\\.com/recaptcha" s
    then "recaptchav2"
    else ""

-- ===== src/Solver/Remote.antt =====
-- The remote solvers: what solver_2captcha.go, solver_capsolver.go and solver_flaresolverr.go use of
-- the library and of the network, and the loop with which two of them wait for a solution.
pub mod TwoCaptcha
pub mod CapSolver
pub mod FlareSolverr
pub mod Polling
pub mod Ending
use goddgs.Prelude.{
  ℕ, zero, suc, ◌+◌, String, Bool, true, false, Option, none, some, List, [], ◌∷◌, ltb,
  if◌then◌else◌,
}
use goddgs.Prelude.Format.{concat}
use goddgs.Failure.{GoError, nil, is_nil, message}
use goddgs.Net.{HttpRequest, HttpResponse, Reply, response, do_error}
use goddgs.Signal.{BlockSignal, cloudflare, recaptcha, generic}

-- The clock; a timer, which gives `nil` or the error of a context that ended first; `http.Client.Do`
-- with the reading of the body; the error or `nil` of `http.NewRequestWithContext`;
-- `url.Values.Encode`; the text of a duration; and the pattern searches of the challenge's page.
pub record Remote (W : Type 0) : Type 0 where
  pub now : W → ℕ × W
  pub sleep : ℕ → W → GoError × W
  pub send : HttpRequest → W → Reply × W
  pub new_request : HttpRequest → GoError
  pub encode : List (String × String) → String
  pub duration_text : ℕ → String
  pub find : String → String → Option String
  pub matches : String → String → Bool

-- What one question about a task comes to.
pub data Progress : Type 0 where
  ready : String → Progress
  pending : Progress
  broken : GoError → Progress

module _ {W : Type 0} (net : Remote W) where
  -- A request, and what is made of the response with the error of reading it.
  abbrev pub exchange :
      {A : Type 0} → HttpRequest → (GoError → A) → (HttpResponse → GoError → A) → W → A × W
  exchange req failed read w =
      let (reply, w1) = net.send req w in
      if is_nil (net.new_request req)
      then elim reply [ do_error err ↦ (failed err, w1) | response resp err ↦ (read resp err, w1) ]
      else (failed (net.new_request req), w)

  module _ (interval timeout deadline : ℕ) (question : W → Progress × W) where
    -- The loop of `pollResult` and of `getTaskResult`; `none` when the fuel is used up.
    unfoldable pub poll_from : ℕ → W → Option (String × GoError) × W
    poll_from zero w = (none, w)
    poll_from (suc fuel) w =
        let (at, w1) = net.now w in
        let (stopped, w2) = net.sleep interval w1 in
        let (answer, w3) = question w2 in
        elim (ltb deadline at) [
          | true ↦ (
            some ("", message (concat ("poll timeout after " ∷ net.duration_text timeout ∷ []))),
            w1,
          )
          | false ↦ elim (is_nil stopped) [
            | false ↦ (some ("", stopped), w2)
            | true ↦ elim answer [
              | ready token ↦ (some (token, nil), w3)
              | broken err ↦ (some ("", err), w3)
              | pending ↦ poll_from fuel w3
            ]
          ]
        ]

  -- The whole wait for the answer to a question.
  unfoldable pub poll : ℕ → ℕ → (W → Progress × W) → ℕ → W → Option (String × GoError) × W
  unfolding poll_from
  poll interval timeout question fuel w =
      let (at, w1) = net.now w in poll_from interval timeout (at + timeout) question fuel w1

-- The signals that `TwoCaptchaSolver` and `CapSolverSolver` support.
unfoldable pub captcha_supports : BlockSignal → Bool
captcha_supports cloudflare = true
captcha_supports recaptcha = true
captcha_supports generic = true
captcha_supports _ = false

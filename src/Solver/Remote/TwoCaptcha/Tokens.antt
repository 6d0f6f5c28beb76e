-- ===== src/Solver/Remote/TwoCaptcha/Tokens.antt =====
-- solver_2captcha.go: what a solution holds.
use text.Mathlib.Text.{◌==◌ as str_eq}
use goddgs.Prelude.{
  ℕ, String, ◌≡◌, ◌≢◌, refl, ap, ◌∙◌, inl, inr, false, Option, some, [], arith, Bool-cases,
  Option-cases,
}
use goddgs.Failure.{GoError, nil, is_nil, is_nil-nil}
use goddgs.Net.{HttpRequest, HttpResponse, do_error}
use goddgs.Signal.{BlockInfo}
use goddgs.Client.{ChallengeSolution}
use goddgs.Solver.{extract_site_key, challenge_type}
use goddgs.Solver.Remote.{Remote, Progress, ready, broken, poll}
use goddgs.Solver.Remote.Polling.{poll_from-ready}
use goddgs.Solver.Remote.Ending.{Answered, refused, solved, carried, exchange-by}
use goddgs.Solver.Remote.TwoCaptcha.{
  TwoCaptchaSolver, CaptchaAnswer, judge_result, ask_result, poll_result, submit, two_captcha_solve,
}

abbrev not_ready : String
not_ready = "CAPCHA_NOT_READY"

-- An answer that is neither a success with the word for waiting nor a failure without an error.
abbrev Honest : Progress → Type 0
Honest p = (p ≢ broken nil) × ((token : String) → p ≡ ready token → str_eq token not_ready ≡ false)

judge_result-Honest : (a : CaptchaAnswer) → Honest (judge_result a)
unfolding judge_result
judge_result-Honest a = ground arith

-- A solution with nothing but a token, which is not the word for waiting.
abbrev pub Finished : ChallengeSolution → Type 0
Finished sol = (sol.cookies ≡ []) × (sol.user_agent ≡ "") × (str_eq sol.token not_ready ≡ false)

module _ {W : Type 0} (net : Remote W)
    (honest : (req : HttpRequest) (w : W) → (net.send req w).0 ≢ do_error nil)
    (unmarshal : String → CaptchaAnswer × GoError)
    (decode : HttpResponse → GoError → CaptchaAnswer × GoError) (t : TwoCaptchaSolver) where
  ask_result-Honest :
      (task_id : String) (w : W) → Honest (ask_result net unmarshal decode t task_id w).0
  unfolding ask_result
  ask_result-Honest task_id =
      exchange-by net honest Honest _ broken _
        (λ err loud. (λ h. let quiet : err ≡ nil = cc h in cc (ap is_nil quiet), λ token h. cc))
        (λ resp err. elim (Bool-cases (is_nil (unmarshal resp.body).1)) [
          | inl parsed ↦ rw parsed (judge_result-Honest (unmarshal resp.body).0)
          | inr unread ↦ rw unread (λ h. cc, λ token h. cc)
        ])

  poll_result-token :
      (fuel : ℕ) (task_id token : String) (w : W)
      → (poll_result net unmarshal decode t fuel task_id w).0 ≡ some (token, nil)
      → str_eq token not_ready ≡ false
  unfolding poll_result poll
  poll_result-token fuel task_id token w h =
      let sound = ask_result-Honest task_id in
      let (w', e) =
        poll_from-ready net (ask_result net unmarshal decode t task_id) (λ w'. (sound w').0)
          t.poll_interval t.poll_timeout _ fuel (net.now w).1 token h in
      (sound w').1 token e

  -- Whatever the service says, `TwoCaptchaSolver.Solve` returns an error and no solution, or no error and
  -- a solution with a token that is not the word for waiting, without cookies and without a user
  -- agent.
  pub two_captcha_solve-Answered :
      (fuel : ℕ) (page_url : String) (info : BlockInfo) (body : String) (w : W)
      (out : Option ChallengeSolution × GoError)
      → (two_captcha_solve net unmarshal decode t fuel page_url info body w).0 ≡ some out
      → Answered Finished out
  unfolding two_captcha_solve
  two_captcha_solve-Answered fuel page_url info body w out h =
      let asked =
        submit net unmarshal decode t (challenge_type net.matches body info.signal) page_url
          (extract_site_key net.find body) w in
      elim (Option-cases asked.0) [
        | inl no_key ↦ carried (rw (no_key, two_captcha_solve) at h) (refused _ (λ e. cc))
        | inr ((task_id, err), given) ↦ elim (Bool-cases (is_nil err)) [
          | inr not_made ↦
              carried (rw (given, not_made, two_captcha_solve) at h) (refused _ (λ e. cc))
          | inl made ↦
              elim (Option-cases (poll_result net unmarshal decode t fuel task_id asked.1).0) [
                | inl dry ↦ cc (rw (given, made, dry, two_captcha_solve) at h)
                | inr ((token, failure), e) ↦ elim (Bool-cases (is_nil failure)) [
                  | inr lost ↦
                      carried (rw (given, made, e, lost, two_captcha_solve) at h)
                        (refused _ (λ e'. cc))
                  | inl won ↦
                      let full =
                        poll_result-token fuel task_id token asked.1
                          (e ∙ ap (λ f. some (token, f)) (is_nil-nil failure won)) in
                      carried (rw (given, made, e, won, two_captcha_solve) at h)
                        (solved _ (refl, refl, full))
                ]
              ]
        ]
      ]

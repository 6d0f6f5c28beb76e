-- ===== src/Solver/Remote/TwoCaptcha.antt =====
-- solver_2captcha.go. The durations of the solver are not negative here.
pub mod Tokens
use text.Mathlib.Text.{◌==◌ as str_eq}
use goddgs.Prelude.{
  ℕ, String, Bool, true, false, ◌&&◌, not, Option, none, some, List, [], ◌∷◌, if◌then◌else◌,
}
use goddgs.Prelude.Int.{ℤ, pos, leb_ℤ}
use goddgs.Prelude.Format.{concat}
use goddgs.Failure.{GoError, nil, is_nil, message, wrapped}
use goddgs.Net.{HttpResponse}
use goddgs.Signal.{BlockInfo}
use goddgs.Client.{ChallengeSolution}
use goddgs.Solver.{extract_site_key, challenge_type}
use goddgs.Solver.Remote.{Remote, Progress, ready, pending, broken, exchange, poll}

-- The fields of `TwoCaptchaSolver`.
pub record TwoCaptchaSolver : Type 0 where
  pub api_key : String
  pub base_url : String
  pub poll_interval : ℕ
  pub poll_timeout : ℕ

-- `NewTwoCaptchaSolver`.
unfoldable pub new_two_captcha_solver : String → TwoCaptchaSolver
new_two_captcha_solver key = record {
  api_key = key;
  base_url = "https://2captcha.com";
  poll_interval = 5_000_000_000;
  poll_timeout = 120_000_000_000;
}

-- The answer of both addresses.
pub record CaptchaAnswer : Type 0 where
  pub status : ℤ
  pub request : String

abbrev is_int : ℤ → ℤ → Bool
is_int a b = leb_ℤ a b && leb_ℤ b a

-- A token and an error, in the way a Go function returns them; `none` when the fuel is used up.
abbrev Token : Type 0
Token = String × GoError

-- The tests of `pollResult` on an answer.
unfoldable judge_result : CaptchaAnswer → Progress
judge_result a =
    if str_eq a.request "CAPCHA_NOT_READY"
    then pending
    else if str_eq a.request "" && is_int a.status (pos 0)
    then broken (message "solve failed: empty response")
    else if is_int a.status (pos 1)
    then ready a.request
    else broken (message (concat ("solve failed: " ∷ a.request ∷ [])))

-- `unmarshal` is `json.Unmarshal`, `decode` the decoding of a response as it is read, both with `nil`
-- or an error.
module _ {W : Type 0} (net : Remote W) (unmarshal : String → CaptchaAnswer × GoError)
    (decode : HttpResponse → GoError → CaptchaAnswer × GoError) (t : TwoCaptchaSolver) where
  read_submission : HttpResponse → GoError → Token
  read_submission resp read_err =
      let (a, err) = decode resp read_err in
      if not (is_nil err)
      then ("", wrapped "decode submit response: " err "")
      else if is_int a.status (pos 1)
      then (a.request, nil)
      else ("", message (concat ("api error: " ∷ a.request ∷ [])))

  -- `submitTask`.
  submit_task : List (String × String) → W → Token × W
  unfolding read_submission
  submit_task params =
      exchange net
        (record {
          method = "POST";
          url = concat (t.base_url ∷ "/in.php" ∷ []);
          headers = ("Content-Type", "application/x-www-form-urlencoded" ∷ []) ∷ [];
          body = net.encode params;
        })
        (λ err. ("", err)) read_submission

  -- `submitReCAPTCHAv2`, `submitReCAPTCHAv3`, and the form that the two other submissions share.
  submit_recaptcha_v2 : String → String → W → Token × W
  unfolding submit_task
  submit_recaptcha_v2 page_url site_key = submit_task (
      ("key", t.api_key)
      ∷ ("method", "userrecaptcha")
      ∷ ("googlekey", site_key)
      ∷ ("pageurl", page_url)
      ∷ ("json", "1")
      ∷ [])

  submit_recaptcha_v3 : String → String → W → Token × W
  unfolding submit_task
  submit_recaptcha_v3 page_url site_key = submit_task (
      ("key", t.api_key)
      ∷ ("method", "userrecaptcha")
      ∷ ("googlekey", site_key)
      ∷ ("pageurl", page_url)
      ∷ ("version", "v3")
      ∷ ("action", "verify")
      ∷ ("min_score", "0.5")
      ∷ ("json", "1")
      ∷ [])

  -- `submitHCaptcha` and `submitTurnstile`, which differ in the name of the method.
  submit_with_key : String → String → String → W → Token × W
  unfolding submit_task
  submit_with_key method page_url site_key w =
      if str_eq site_key ""
      then (("", message (concat ("no " ∷ method ∷ " site key found" ∷ []))), w)
      else submit_task
          (("key", t.api_key)
            ∷ ("method", method)
            ∷ ("sitekey", site_key)
            ∷ ("pageurl", page_url)
            ∷ ("json", "1")
            ∷ [])
          w

  -- The submission that `Solve` chooses; `none` is its own error for a page without a key.
  submit : String → String → String → W → Option Token × W
  unfolding submit_recaptcha_v2 submit_recaptcha_v3 submit_with_key
  submit kind page_url site_key w =
      let (h, w1) = submit_with_key "hcaptcha" page_url site_key w in
      let (v3, w2) = submit_recaptcha_v3 page_url site_key w in
      let (turnstile, w3) = submit_with_key "turnstile" page_url site_key w in
      let (v2, w4) = submit_recaptcha_v2 page_url site_key w in
      if str_eq kind "hcaptcha"
      then (some h, w1)
      else if str_eq kind "recaptchav3"
      then (some v3, w2)
      else if str_eq kind "turnstile"
      then (some turnstile, w3)
      else if str_eq site_key ""
      then (none, w)
      else (some v2, w4)

  -- One turn of `pollResult`; an error of reading the body is dropped.
  ask_result : String → W → Progress × W
  unfolding judge_result
  ask_result task_id =
      exchange net
        (record {
          method = "GET";
          url = concat (
              t.base_url
              ∷ "/res.php"
              ∷ "?"
              ∷ net.encode
                  (("key", t.api_key) ∷ ("action", "get") ∷ ("id", task_id) ∷ ("json", "1") ∷ [])
              ∷ []);
          headers = [];
          body = "";
        })
        broken
        (λ resp read_err.
          let (a, err) = unmarshal resp.body in
          if is_nil err then judge_result a else broken (wrapped "decode poll response: " err ""))

  -- `pollResult`.
  unfoldable poll_result : ℕ → String → W → Option Token × W
  unfolding ask_result
  poll_result fuel task_id = poll net t.poll_interval t.poll_timeout (ask_result task_id) fuel

  -- `Solve`.
  unfoldable pub two_captcha_solve :
      ℕ → String → BlockInfo → String → W → Option (Option ChallengeSolution × GoError) × W
  unfolding submit poll_result extract_site_key challenge_type
  two_captcha_solve fuel page_url info body w =
      let site_key = extract_site_key net.find body in
      let kind = challenge_type net.matches body info.signal in
      let (task, w1) = submit kind page_url site_key w in
      elim task [
        | none ↦ (some (none, message "2captcha: no site key found in challenge page"), w1)
        | some (task_id, err) ↦ elim (is_nil err) [
          | false ↦ (some (none, wrapped "2captcha: submit: " err ""), w1)
          | true ↦
              let (token, w2) = poll_result fuel task_id w1 in
              elim token [
                | none ↦ (none, w2)
                | some (text, failure) ↦
                    let sol : ChallengeSolution = record {
                      cookies = [];
                      user_agent = "";
                      token = text;
                    } in
                    (
                      some (
                          if is_nil failure
                          then (some sol, nil)
                          else (none, wrapped "2captcha: poll: " failure "")),
                      w2,
                    )
              ]
        ]
      ]

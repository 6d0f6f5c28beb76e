-- ===== src/Solver/Remote/CapSolver.antt =====
-- solver_capsolver.go. The durations of the solver are not negative here.
use text.Mathlib.Text.{◌==◌ as str_eq}
use goddgs.Prelude.{
  ℕ, String, Bool, true, false, ◌&&◌, not, Option, none, some, List, [], ◌∷◌, if◌then◌else◌,
}
use goddgs.Prelude.Int.{ℤ, pos, leb_ℤ}
use goddgs.Prelude.Format.{concat}
use goddgs.Failure.{GoError, nil, is_nil, message, wrapped}
use goddgs.Net.{HttpRequest, HttpResponse}
use goddgs.Signal.{BlockInfo}
use goddgs.Client.{ChallengeSolution}
use goddgs.Solver.{extract_site_key, challenge_type}
use goddgs.Solver.Remote.{Remote, Progress, ready, pending, broken, exchange, poll}

-- The fields of `CapSolverSolver`.
pub record CapSolverSolver : Type 0 where
  pub api_key : String
  pub base_url : String
  pub poll_interval : ℕ
  pub poll_timeout : ℕ

-- `NewCapSolverSolver`.
unfoldable pub new_cap_solver_solver : String → CapSolverSolver
new_cap_solver_solver key = record {
  api_key = key;
  base_url = "https://api.capsolver.com";
  poll_interval = 3_000_000_000;
  poll_timeout = 120_000_000_000;
}

-- The answers of `/createTask` and of `/getTaskResult`.
pub record Created : Type 0 where
  pub error_id : ℤ
  pub error_code : String
  pub error_description : String
  pub task_id : String

pub record TaskResult : Type 0 where
  pub error_id : ℤ
  pub error_code : String
  pub error_description : String
  pub status : String
  pub g_recaptcha_response : String
  pub token : String

-- The values in the object of a task.
pub data Field : Type 0 where
  quoted number : String → Field

abbrev pub Task : Type 0
Task = List (String × Field)

abbrev is_zero : ℤ → Bool
is_zero a = leb_ℤ a (pos 0) && leb_ℤ (pos 0) a

abbrev website : String → String → String → List (String × Field) → Task
website kind page_url site_key more =
    ("type", quoted kind) ∷ ("websiteURL", quoted page_url) ∷ ("websiteKey", quoted site_key) ∷ more

-- `buildTask`.
unfoldable build_task : String → String → String → Task × GoError
build_task page_url site_key ctype =
    if str_eq ctype "hcaptcha"
    then (if str_eq site_key ""
        then ([], message "no hcaptcha site key found")
        else (website "HCaptchaTaskProxyless" page_url site_key [], nil))
    else if str_eq ctype "recaptchav3"
    then (if str_eq site_key "" then ([], message "no recaptcha v3 site key found") else (
      website "ReCaptchaV3TaskProxyless" page_url site_key
          (("pageAction", quoted "verify") ∷ ("minScore", number "0.5") ∷ []),
      nil,
    ))
    else if str_eq ctype "turnstile"
    then (if str_eq site_key ""
        then ([], message "no turnstile site key found")
        else (website "AntiTurnstileTaskProxyless" page_url site_key [], nil))
    else if str_eq site_key ""
    then ([], message "no site key found in challenge page")
    else (website "ReCaptchaV2TaskProxyless" page_url site_key [], nil)

-- The tests of `getTaskResult` on an answer.
unfoldable pub judge_task : TaskResult → Progress
judge_task r =
    if not (is_zero r.error_id)
    then broken (message (concat (r.error_code ∷ ": " ∷ r.error_description ∷ [])))
    else if str_eq r.status "processing"
    then pending
    else if str_eq r.status "ready"
    then (if not (str_eq r.g_recaptcha_response "")
        then ready r.g_recaptcha_response
        else if not (str_eq r.token "")
        then ready r.token
        else broken (message "ready but solution token is empty"))
    else broken (message (concat ("unexpected status: " ∷ r.status ∷ [])))

-- How the two bodies are written as JSON, and how the responses are decoded as they are read.
pub record Coding : Type 0 where
  pub marshal_create : String → Task → String
  pub marshal_ask : String → String → String
  pub decode_created : HttpResponse → GoError → Created × GoError
  pub decode_result : HttpResponse → GoError → TaskResult × GoError

module _ {W : Type 0} (net : Remote W) (json : Coding) (c : CapSolverSolver) where
  post : String → String → HttpRequest
  post path body = record {
    method = "POST";
    url = concat (c.base_url ∷ path ∷ []);
    headers = ("Content-Type", "application/json" ∷ []) ∷ [];
    body = body;
  }

  read_created : HttpResponse → GoError → String × GoError
  read_created resp read_err =
      let (r, err) = json.decode_created resp read_err in
      if not (is_nil err)
      then ("", wrapped "decode create response: " err "")
      else if is_zero r.error_id
      then (r.task_id, nil)
      else ("", message (concat (r.error_code ∷ ": " ∷ r.error_description ∷ [])))

  -- `createTask`.
  pub create_task : String → String → String → W → (String × GoError) × W
  unfolding post read_created build_task
  create_task page_url site_key ctype w =
      let (task, err) = build_task page_url site_key ctype in
      if is_nil err
      then exchange net (post "/createTask" (json.marshal_create c.api_key task)) (λ e. ("", e))
          read_created w
      else (("", err), w)

  -- One turn of `getTaskResult`.
  unfoldable pub ask_task : String → W → Progress × W
  unfolding post judge_task
  ask_task task_id =
      exchange net (post "/getTaskResult" (json.marshal_ask c.api_key task_id)) broken
        (λ resp read_err.
          let (r, err) = json.decode_result resp read_err in
          if is_nil err then judge_task r else broken (wrapped "decode poll response: " err ""))

  -- `getTaskResult`.
  unfoldable pub get_task_result : ℕ → String → W → Option (String × GoError) × W
  unfolding ask_task
  get_task_result fuel task_id = poll net c.poll_interval c.poll_timeout (ask_task task_id) fuel

  -- `Solve`.
  unfoldable pub cap_solve :
      ℕ → String → BlockInfo → String → W → Option (Option ChallengeSolution × GoError) × W
  unfolding create_task get_task_result extract_site_key challenge_type
  cap_solve fuel page_url info body w =
      let ((task_id, err), w1) =
        create_task page_url (extract_site_key net.find body)
          (challenge_type net.matches body info.signal) w in
      elim (is_nil err) [
        | false ↦ (some (none, wrapped "capsolver: create task: " err ""), w1)
        | true ↦
            let (token, w2) = get_task_result fuel task_id w1 in
            elim token [
              | none ↦ (none, w2)
              | some (text, failure) ↦
                  let sol : ChallengeSolution = record {
                    cookies = [];
                    user_agent = "";
                    token = text;
                  } in
                  (
                    some (
                        if is_nil failure
                        then (some sol, nil)
                        else (none, wrapped "capsolver: get result: " failure "")),
                    w2,
                  )
            ]
      ]

-- ===== src/Tests/Remotes.antt =====
-- The remote solvers against a service that puts the answer off until the time 20.
use goddgs.Prelude.{
  ℕ, ◌+◌, ◌≡◌, ◌≢◌, refl, String, false, Option, some, [], ◌∷◌, arith, ltb, if◌then◌else◌,
}
use goddgs.Prelude.Int.{pos}
use goddgs.Failure.{GoError, nil}
use goddgs.Net.{HttpRequest, HttpResponse, response, do_error}
use goddgs.Signal.{BlockInfo, cloudflare}
use goddgs.Solver.Remote.{Remote, Progress, ready, pending, poll}
use goddgs.Client.{ChallengeSolution}
use goddgs.Solver.Remote.TwoCaptcha.{CaptchaAnswer, new_two_captcha_solver, two_captcha_solve}
use goddgs.Solver.Remote.TwoCaptcha.Tokens.{Finished, two_captcha_solve-Answered}
use goddgs.Solver.Remote.CapSolver.{Coding, new_cap_solver_solver, cap_solve}
use goddgs.Solver.Remote.FlareSolverr.{FlareSolverrSolver, FlareAnswer, flare_solve}
use goddgs.Solver.Remote.Polling.{Clocked, poll-total}
use goddgs.Solver.Remote.Ending.{
  Answered, OnlyToken, Credentials, cap_solve-Answered, flare_solve-Answered,
}

-- The world is the time.
abbrev net : Remote ℕ
net = record {
  now = λ w. (w, w);
  sleep = λ d w. (nil, w + d);
  send =
      λ req w. (response (record { status_code = 200; headers = []; body = "ready" }) nil, w + 1);
  new_request = λ req. nil;
  encode = λ ps. "form";
  duration_text = λ d. "2m0s";
  find = λ re s. some "0x4AAA";
  matches = λ re s. false;
}

abbrev question : ℕ → Progress × ℕ
question w = (if ltb w 20 then pending else ready "token", w + 1)

clock : Clocked net question (λ w. w)
clock = record {
  reads = λ w. refl;
  read_after = λ w. omega arith;
  rests = λ d w h. omega arith;
  asks = λ w. omega arith;
}

poll-total_example : (out : String × GoError) × ((poll net 5 120 question 26 0).0 ≡ some out)
poll-total_example = poll-total net question (λ w. w) clock 5 120 25 0 (omega arith)

honest : (req : HttpRequest) (w : ℕ) → (net.send req w).0 ≢ do_error nil
honest req w h = cc

abbrev coding : Coding
coding = record {
  marshal_create = λ key task. "task";
  marshal_ask = λ key id. id;
  decode_created = λ resp err.
      (record { error_id = pos 0; error_code = ""; error_description = ""; task_id = "7" }, nil);
  decode_result = λ resp err. (
    record {
      error_id = pos 0;
      error_code = "";
      error_description = "";
      status = resp.body;
      g_recaptcha_response = "";
      token = "0.solved";
    },
    nil,
  );
}

abbrev info : BlockInfo
info = record { signal = cloudflare; detector_key = "cf-ray" }

cap_solve-Answered_example :
    Answered OnlyToken (some (record { cookies = []; user_agent = ""; token = "0.solved" }), nil)
unfolding cap_solve poll new_cap_solver_solver
cap_solve-Answered_example =
    cap_solve-Answered net honest coding (new_cap_solver_solver "key") 3 "https://duckduckgo.com"
      info "page" 0 (some (record { cookies = []; user_agent = ""; token = "0.solved" }), nil) refl

abbrev flare : FlareSolverrSolver
flare = record { endpoint = "http://localhost:8191/v1"; max_timeout = 60_000 }

abbrev solved_page : HttpResponse → GoError → FlareAnswer × GoError
solved_page resp err = (
  record {
    status = "ok";
    message = "";
    cookies = ("duckduckgo.com", "cf_clearance=1") ∷ [];
    user_agent = "Mozilla";
  },
  nil,
)

flare_solve-Answered_example :
    Answered Credentials
      (flare_solve net
        (λ cmd url ms. "json")
        solved_page
        flare
        "https://duckduckgo.com"
        info
        "page"
        0).0
flare_solve-Answered_example =
    flare_solve-Answered net honest (λ cmd url ms. "json") solved_page flare
      "https://duckduckgo.com" info "page" 0

-- The task gets a number, and its result is there at the first question.
abbrev submitted : HttpResponse → GoError → CaptchaAnswer × GoError
submitted resp err = (record { status = pos 1; request = "42" }, nil)

abbrev polled : String → CaptchaAnswer × GoError
polled body = (record { status = pos 1; request = body }, nil)

abbrev by_captcha : Option ChallengeSolution × GoError
by_captcha = (some (record { cookies = []; user_agent = ""; token = "ready" }), nil)

two_captcha_solve-Answered_example : Answered Finished by_captcha
unfolding two_captcha_solve poll new_two_captcha_solver
two_captcha_solve-Answered_example =
    two_captcha_solve-Answered net honest polled submitted (new_two_captcha_solver "key") 3
      "https://duckduckgo.com" info "page" 0 by_captcha refl

-- ===== src/Tests/Retries.antt =====
-- The session, and `doWithRetry` against a server that answers once it was asked twice.
use goddgs.Prelude.{ℕ, ◌+◌, refl, Bool, false, none, [], ◌∷◌, ltb, if◌then◌else◌}
use goddgs.Prelude.Int.{pos}
use goddgs.Failure.{GoError, nil}
use goddgs.Prelude.Text.{trim_space}
use goddgs.Detect.{retry_after_seconds}
use goddgs.Net.{get, response}
use goddgs.Session.{SessionManager}
use goddgs.Client.{
  State, Settings, Io, wait_for_turn, tell_blocked, sleep_backoff, blocked_detector,
}
use goddgs.Client.Retry.{turned_away, judge, handle_block}
use goddgs.Client.Loop.{Built, request, turn, do_with_retry}
use goddgs.Client.Loop.Answers.{Clean, do_with_retry-Clean}

abbrev session : SessionManager
session = record { jar = 0; warmed_up = false; last_warmup = 0; warmup_ttl = 100 }

abbrev tick : ℕ → ℕ × ℕ
tick w = (w, w + 1)

abbrev visit : Bool → ℕ → GoError × ℕ
visit root w = (nil, w + 3)

-- The world is the time; the server answers 503 until the time 10.
abbrev pub io : Io ℕ
io = record {
  now = tick;
  sleep = λ d w. (nil, w + d);
  send = λ req w. (
    response
        (record { status_code = if ltb w 10 then 503 else 200; headers = []; body = "results" })
        nil,
    w + 1,
  );
  last_proxy = λ w. none;
  on_blocked = none;
  on_circuit = none;
  solve = none;
  apply_cookies = λ cs w. w;
  pin_agent = λ ua w. w;
  backoff_delay = λ d w. (d, w);
  gaussian = λ w. ((λ mean dev. pos mean), w);
  scale = λ f d. pos d;
  matches = λ re s. false;
  lower = λ s. s;
  snippet = λ s. s;
  scan_int = λ s. none;
  parse_time = λ s. none;
}

abbrev pub settings : Settings
settings = record {
  retry_max = 3;
  base_delay = 25;
  min_gap = pos 0;
  blocked = 403 ∷ 503 ∷ [];
  blocked_re = "(?i)captcha" ∷ [];
  ddg_base = "https://duckduckgo.com";
  links_base = "https://links.duckduckgo.com";
  html_base = "https://html.duckduckgo.com";
  referer = "https://duckduckgo.com/";
  headers = [];
  vqd_ttl = 600;
  no_fallback = false;
}

abbrev pub begin : State ℕ
begin = record { ua = "Mozilla"; vqd_cache = []; last_req = 0; anti_bot = none; world = 0 }

abbrev build : State ℕ → Built × State ℕ
build st = (
  request (record {
    method = "GET";
    url = "https://links.duckduckgo.com/d.js";
    headers = [];
    body = "";
  }),
  st,
)

do_with_retry-Clean_example : Clean io settings build "results"
unfolding do_with_retry turn turned_away wait_for_turn judge retry_after_seconds trim_space get
    handle_block tell_blocked sleep_backoff blocked_detector
do_with_retry-Clean_example = do_with_retry-Clean io settings build 3 begin "results" refl

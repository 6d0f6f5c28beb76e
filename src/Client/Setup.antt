-- ===== src/Client/Setup.antt =====
-- client.go and antibot.go: how `NewClient` fills a client, with its anti-bot state. The client's own
-- `http.Client`, its callbacks, its solvers and its jitter, a floating-point number, are parts of
-- `Io`; a cookie jar is the number under which it was made.
pub mod Filled
pub mod Lasting
use Prim.Native.Char.{code}
use Prim.Native.String.{[], ◌∷◌}
use mathlib.Core.List
use text.Mathlib.Text.{◌==◌ as str_eq}
use goddgs.Prelude.{
  ℕ, ◌*◌, String, Bool, true, false, ◌&&◌, ◌||◌, not, Option, none, some, List, ◌==◌, if◌then◌else◌,
}
use goddgs.Prelude.Int.{ℤ, pos, leb_ℤ, positive_or}
use goddgs.Prelude.Text.{trim_space}
use goddgs.Prelude.Format.{concat}
use goddgs.Circuit.{new_circuit_breaker, second}
use goddgs.Rate.{new_adaptive_rate_limiter}
use goddgs.Proxy.{ProxyPool}
use goddgs.Session.{new_session_manager}
use goddgs.Browser.{default_user_agent, new_user_agent_pool}
use goddgs.Browser.Transport.{AntiBotTransport}
use goddgs.Browser.HttpClient.{HttpClient, standard, anti_bot, new_anti_bot_transport}
use goddgs.Client.{AntiBotState, State, Settings}

-- `AntiBotConfig`, without the solvers.
pub record AntiBotConfig : Type 0 where
  pub ua_rotation : Bool
  pub chrome_tls : Bool
  pub session_warmup : Bool
  pub warmup_ttl : ℤ
  pub proxy_pool : Option ProxyPool
  pub adaptive_rate_limit : Bool
  pub adaptive_base_delay : ℤ
  pub adaptive_max_delay : ℤ
  pub gaussian_jitter : Bool
  pub session_invalidate_on_block : Bool
  pub vqd_invalidate_on_block : Bool
  pub circuit_breaker_threshold : ℤ
  pub circuit_breaker_cooldown : ℤ

abbrev pub millisecond : ℕ
millisecond = 1_000_000

-- `NewAntiBotConfig`.
unfoldable pub new_anti_bot_config : AntiBotConfig
new_anti_bot_config = record {
  ua_rotation = true;
  chrome_tls = true;
  session_warmup = true;
  warmup_ttl = pos (20 * 60 * second);
  proxy_pool = none;
  adaptive_rate_limit = true;
  adaptive_base_delay = pos (300 * millisecond);
  adaptive_max_delay = pos (30 * second);
  gaussian_jitter = true;
  session_invalidate_on_block = true;
  vqd_invalidate_on_block = true;
  circuit_breaker_threshold = pos 5;
  circuit_breaker_cooldown = pos (60 * second);
}

abbrev pub when {ℓ} : {A : Type ℓ} → Bool → A → Option A
when b x = if b then some x else none

abbrev is_set : Option ProxyPool → Bool
is_set none = false
is_set (some p) = true

-- The test of `buildAntiBotState` for a transport of its own.
abbrev wants_transport : AntiBotConfig → Bool
wants_transport cfg = cfg.chrome_tls || cfg.ua_rotation || is_set cfg.proxy_pool

-- `buildAntiBotState` for a configuration: the first jar that it makes, the number 0, is that of the
-- session and of the `http.Client`.
unfoldable pub build_anti_bot_state : AntiBotConfig → AntiBotState
unfolding new_session_manager new_adaptive_rate_limiter new_circuit_breaker positive_or
build_anti_bot_state cfg = record {
  session = when cfg.session_warmup (new_session_manager cfg.warmup_ttl 0);
  rate_limit = when cfg.adaptive_rate_limit (
      new_adaptive_rate_limiter (positive_or cfg.adaptive_base_delay (300 * millisecond))
        (positive_or cfg.adaptive_max_delay (30 * second)));
  circuit =
      when
        (not (
          leb_ℤ cfg.circuit_breaker_threshold (pos 0)
          && leb_ℤ (pos 0) cfg.circuit_breaker_threshold))
        (new_circuit_breaker cfg.circuit_breaker_threshold cfg.circuit_breaker_cooldown);
  proxy_pool = cfg.proxy_pool;
  has_transport = wants_transport cfg;
  vqd_invalidate_on_block = cfg.vqd_invalidate_on_block;
  session_invalidate_on_block = cfg.session_invalidate_on_block;
  jars = 1;
}

-- The transport that `buildAntiBotState` makes.
unfoldable pub build_transport : AntiBotConfig → Option AntiBotTransport
unfolding new_user_agent_pool new_anti_bot_transport
build_transport cfg = when (wants_transport cfg) (
    let t = new_anti_bot_transport cfg.proxy_pool in
    if cfg.ua_rotation then record t { ua_pool = some new_user_agent_pool } else t)

-- The `http.Client` that it makes, with the jar of the number 0.
unfoldable build_http_client : AntiBotConfig → HttpClient
unfolding build_transport
build_http_client cfg = record {
  timeout = 15 * second;
  jar = some 0;
  transport = elim (build_transport cfg) [ none ↦ standard none | some t ↦ anti_bot t ];
}

-- `Options`; a nil map of statuses is `none`.
pub record Options : Type 0 where
  pub duck_duck_go_base : String
  pub links_base : String
  pub html_base : String
  pub user_agent : String
  pub referer : String
  pub headers : List (String × String)
  pub retry_max : ℤ
  pub retry_base_delay : ℤ
  pub min_request_interval : ℤ
  pub vqd_ttl : ℤ
  pub disable_html_fallback : Bool
  pub blocked_status_codes : Option (List ℕ)
  pub blocked_body_patterns : List String
  pub anti_bot : Option AntiBotConfig

-- `strings.TrimRight(s, "/")`.
unfoldable pub trim_slashes : String → String
trim_slashes [] = []
trim_slashes (c ∷ s) =
    let rest = trim_slashes s in if code c == 47 && str_eq rest "" then [] else c ∷ rest

abbrev pub or_default : String → String → String
or_default s default = if str_eq s "" then default else s

abbrev default_patterns : List String
default_patterns = List.◌∷◌ "(?i)captcha" (
    List.◌∷◌ "(?i)verify you are human"
      (List.◌∷◌ "(?i)automated traffic" (List.◌∷◌ "(?i)rate limit" List.[])))

abbrev default_statuses : List ℕ
default_statuses = List.◌∷◌ 401 (
    List.◌∷◌ 403 (
      List.◌∷◌ 407
        (List.◌∷◌ 429 (List.◌∷◌ 500 (List.◌∷◌ 502 (List.◌∷◌ 503 (List.◌∷◌ 504 List.[])))))))

abbrev statuses_of : Option (List ℕ) → List ℕ
statuses_of none = default_statuses
statuses_of (some codes) = codes

abbrev patterns_of : List String → List String
patterns_of List.[] = default_patterns
patterns_of (List.◌∷◌ re res) = List.◌∷◌ re res

-- What `NewClient` fills and nothing changes.
unfoldable pub new_settings : Options → Settings
unfolding trim_slashes trim_space positive_or concat
new_settings opts =
    let ddg = or_default (trim_slashes opts.duck_duck_go_base) "https://duckduckgo.com" in
    record {
      retry_max = positive_or opts.retry_max 3;
      base_delay = positive_or opts.retry_base_delay (250 * millisecond);
      min_gap = opts.min_request_interval;
      blocked = statuses_of opts.blocked_status_codes;
      blocked_re = patterns_of opts.blocked_body_patterns;
      ddg_base = ddg;
      links_base = or_default (trim_slashes opts.links_base) "https://links.duckduckgo.com";
      html_base = or_default (trim_slashes opts.html_base) "https://html.duckduckgo.com";
      referer = or_default (trim_space opts.referer) (concat (List.◌∷◌ ddg (List.◌∷◌ "/" List.[])));
      headers = opts.headers;
      vqd_ttl = positive_or opts.vqd_ttl (10 * 60 * second);
      no_fallback = opts.disable_html_fallback;
    }

-- The rest of the client that `NewClient` makes.
unfoldable pub new_client : {W : Type 0} → Options → W → State W
unfolding build_anti_bot_state trim_space
new_client opts w = record {
  ua = or_default (trim_space opts.user_agent) default_user_agent;
  vqd_cache = List.[];
  last_req = 0;
  anti_bot = elim opts.anti_bot [ none ↦ none | some cfg ↦ some (build_anti_bot_state cfg) ];
  world = w;
}

-- ===== src/Client.antt =====
-- client.go: the state of `Client`, and the steps of `doWithRetry`. What the world does is in `Io`:
-- the clock, the timers, the network, the callbacks, the solver, and the random and floating-point
-- numbers. A context that is cancelled shows in the error that a timer gives.
pub mod Retry
pub mod Loop
pub mod Parse
pub mod Query
pub mod Search
pub mod Setup
use text.Mathlib.Text.{◌==◌ as str_eq}
use goddgs.Prelude.{
  ℕ, ◌+◌, ◌-◌, ◌*◌, ◌^◌, String, Bool, true, false, ◌&&◌, ◌||◌, not, Option, none, some, List, [],
  ◌∷◌, ltb, leb, ◌==◌, if◌then◌else◌,
}
use goddgs.Prelude.Int.{ℤ, pos, pos_part, ltb_ℤ, int64}
use goddgs.Failure.{GoError, nil, is_nil, BlockedEvent}
use goddgs.Net.{HttpRequest, Reply}
use goddgs.Signal.{BlockInfo}
use goddgs.Circuit.{
  CircuitBreaker, CircuitSnapshot, is_open, snapshot, record_block, record_success,
}
use goddgs.Rate.{AdaptiveRateLimiter, wait, on_block, on_success}
use goddgs.Proxy.{ProxyPool, mark_success, mark_failed}
use goddgs.Session.{SessionManager, invalidate}

-- `tokenEntry`.
pub record TokenEntry : Type 0 where
  pub value : String
  pub expires_at : ℕ

pub data Trigger : Type 0 where
  fail_fast threshold_reached success_reset : Trigger

-- `CircuitEvent`; the state is open for the first two triggers.
pub record CircuitEvent : Type 0 where
  pub opens : Bool
  pub trigger : Trigger
  pub attempt : ℕ
  pub snap : CircuitSnapshot

-- `ChallengeSolution`; a cookie is its domain with the rest of its text.
pub record ChallengeSolution : Type 0 where
  pub cookies : List (String × String)
  pub user_agent : String
  pub token : String

-- `antiBotState`, with the settings of its `AntiBotConfig` that the loop reads. `jars` counts the
-- cookie jars that were made.
pub record AntiBotState : Type 0 where
  pub session : Option SessionManager
  pub rate_limit : Option AdaptiveRateLimiter
  pub circuit : Option CircuitBreaker
  pub proxy_pool : Option ProxyPool
  pub has_transport : Bool
  pub vqd_invalidate_on_block : Bool
  pub session_invalidate_on_block : Bool
  pub jars : ℕ

-- The fields of `Client` that change, and the world.
pub record State (W : Type 0) : Type 0 where
  pub ua : String
  pub vqd_cache : List (String × TokenEntry)
  pub last_req : ℕ
  pub anti_bot : Option AntiBotState
  pub world : W

-- The fields of `Client` that `NewClient` fills and nothing changes; `blocked` is a set of statuses
-- `blocked_re` the patterns with their text; the map `headers` is a list of its entries.
pub record Settings : Type 0 where
  pub retry_max : ℕ
  pub base_delay : ℕ
  pub min_gap : ℤ
  pub blocked : List ℕ
  pub blocked_re : List String
  pub ddg_base : String
  pub links_base : String
  pub html_base : String
  pub referer : String
  pub headers : List (String × String)
  pub vqd_ttl : ℕ
  pub no_fallback : Bool

-- The world: `sleep` gives `nil` or the error of the context, `last_proxy` is
-- `transport.LastProxy()`, `backoff_delay d` is `time.Duration(float64(d) * jitter)`, `apply_cookies`
-- is the writing of a solution's cookies to the client's jar and `pin_agent` the replacement of the
-- transport's pool; `solve` gives `none` for an error or a nil solution.
-- `snippet` is `snippet(body, 280)`, which may cut inside a character.
pub record Io (W : Type 0) : Type 0 where
  pub now : W → ℕ × W
  pub sleep : ℕ → W → GoError × W
  pub send : HttpRequest → W → Reply × W
  pub last_proxy : W → Option ℕ
  pub on_blocked : Option (BlockedEvent → W → W)
  pub on_circuit : Option (CircuitEvent → W → W)
  pub solve : Option (String → BlockInfo → String → W → Option ChallengeSolution × W)
  pub apply_cookies : List (String × String) → W → W
  pub pin_agent : String → W → W
  pub backoff_delay : ℤ → W → ℤ × W
  pub gaussian : W → (ℕ → ℤ → ℤ) × W
  pub scale : ℕ → ℕ → ℤ
  pub matches : String → String → Bool
  pub lower : String → String
  pub snippet : String → String
  pub scan_int : String → Option ℤ
  pub parse_time : String → Option ℕ

-- A timer for a duration, which does not start for one that is not positive.
abbrev pub pause : {W : Type 0} → Io W → ℕ → W → GoError × W
pause io d w = if d == 0 then (nil, w) else io.sleep d w

module _ {W : Type 0} (io : Io W) where
  abbrev in_world : (W → W) → State W → State W
  in_world f st = record st { world = f st.world }

  -- The call of `onCircuit`, where it is set.
  unfoldable pub tell_circuit : Bool → Trigger → ℕ → CircuitSnapshot → State W → State W
  tell_circuit opens trigger attempt snap st = elim io.on_circuit [
    | none ↦ st
    | some f ↦
        in_world (f (record { opens = opens; trigger = trigger; attempt = attempt; snap = snap }))
          st
  ]

  unfoldable pub tell_blocked : BlockedEvent → State W → State W
  tell_blocked ev st = elim io.on_blocked [ none ↦ st | some f ↦ in_world (f ev) st ]

  -- `waitForTurn`.
  unfoldable pub wait_for_turn : Settings → State W → GoError × State W
  wait_for_turn cfg st =
      let (now, w1) = io.now st.world in
      let gap = pos_part cfg.min_gap in
      let (err, w2) = pause io (st.last_req + gap - now) w1 in
      let (after, w3) = io.now w2 in
      if not (ltb_ℤ (pos 0) cfg.min_gap)
      then (nil, st)
      else if st.last_req == 0
      then (nil, record st { last_req = now; world = w1 })
      else if is_nil err
      then (nil, record st { last_req = after; world = w3 })
      else (err, record st { world = w2 })

  -- `sleepBackoff`.
  unfoldable pub sleep_backoff : Settings → ℕ → State W → GoError × State W
  unfolding int64
  sleep_backoff cfg attempt st =
      let (d, w1) = io.backoff_delay (int64 (cfg.base_delay * 2 ^ attempt)) st.world in
      let (err, w2) = pause io (pos_part d) w1 in (err, record st { world = w2 })

  -- `applySolution`.
  unfoldable pub apply_solution : ChallengeSolution → State W → State W
  apply_solution sol st =
      let w1 = io.apply_cookies sol.cookies st.world in
      if str_eq sol.user_agent ""
      then record st { world = w1 }
      else record st { ua = sol.user_agent; world = io.pin_agent sol.user_agent w1 }

-- `clearAllVQD`.
unfoldable pub clear_all_vqd : {W : Type 0} → State W → State W
clear_all_vqd st = record st { vqd_cache = [] }

-- `blockedDetector`: the text of the first pattern that matches.
unfoldable pub blocked_detector : (String → String → Bool) → List String → String → String
blocked_detector matches [] body = ""
blocked_detector matches (re ∷ res) body =
    let rest = blocked_detector matches res body in if matches re body then re else rest

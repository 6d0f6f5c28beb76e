-- ===== src/Client/Setup/Lasting.antt =====
-- client.go and antibot.go: what a client of `NewClient` keeps through its calls.
use goddgs.Prelude.{Bool, true, false, ℕ, ◌*◌, ◌≤◌, ◌≡◌, Option, none, some, List, arith}
use goddgs.Prelude.Int.{ℤ, pos, ◌≤ℤ◌, positive_or}
use goddgs.Circuit.{second, new_circuit_breaker}
use goddgs.Circuit.Transitions
use goddgs.Circuit.Transitions.{records-IsValid}
use goddgs.Rate.{new_adaptive_rate_limiter}
use goddgs.Rate.Delay
use goddgs.Session.{new_session_manager}
use goddgs.Client.{Io}
use goddgs.Client.Parse.{Library}
use goddgs.Client.Search.{map_result}
use goddgs.Client.Search.Sound.{
  Holds, Sound, IsCountedPool, IsMade, Call, after_calls, after_calls-Sound,
}
use goddgs.Client.Setup.{
  millisecond, when, AntiBotConfig, build_anti_bot_state, Options, new_settings, new_client,
}

-- A configuration whose delays, with their defaults, are in order, with a proxy pool whose counters
-- are consistent if there is one.
pub record IsSane (cfg : AntiBotConfig) : Type 0 where
  pub delays :
      positive_or cfg.adaptive_base_delay (300 * millisecond)
      ≤ positive_or cfg.adaptive_max_delay (30 * second)
  pub pool : Holds IsCountedPool cfg.proxy_pool

limiter-IsValid : (base max : ℕ) → base ≤ max → Delay.IsValid (new_adaptive_rate_limiter base max)
unfolding new_adaptive_rate_limiter
limiter-IsValid base max h = omega arith

breaker-IsValid :
    (threshold cooldown : ℤ) → Transitions.IsValid (new_circuit_breaker threshold cooldown)
unfolding new_circuit_breaker positive_or
breaker-IsValid threshold cooldown = ground arith

jar-IsMade : (ttl : ℤ) → IsMade 1 (new_session_manager ttl 0)
unfolding new_session_manager
jar-IsMade ttl = omega arith

Holds-when : {A : Type 0} (P : A → Type 0) (b : Bool) (a : A) → P a → Holds P (when b a)
Holds-when P true a h = h
Holds-when P false a h = tt

build_anti_bot_state-Sound : (cfg : AntiBotConfig) → IsSane cfg → Sound (build_anti_bot_state cfg)
unfolding build_anti_bot_state
build_anti_bot_state-Sound cfg sane = record {
  limiter = Holds-when Delay.IsValid cfg.adaptive_rate_limit _ (limiter-IsValid _ _ sane.delays);
  breaker =
      Holds-when Transitions.IsValid _ _
        (breaker-IsValid cfg.circuit_breaker_threshold cfg.circuit_breaker_cooldown);
  proxies = sane.pool;
  jar = Holds-when (IsMade 1) cfg.session_warmup _ (jar-IsMade cfg.warmup_ttl);
}

new_client-anti_bot :
    {W : Type 0} (opts : Options) (w : W)
    → (new_client opts w).anti_bot ≡ map_result build_anti_bot_state opts.anti_bot
unfolding new_client
new_client-anti_bot opts w = ground arith

built-Sound :
    (o : Option AntiBotConfig) → Holds IsSane o → Holds Sound (map_result build_anti_bot_state o)
built-Sound none h = tt
built-Sound (some cfg) h = build_anti_bot_state-Sound cfg h

-- A client of `NewClient` with any options whose delays are in order keeps its anti-bot state sound
-- through any number of searches, whatever the world does: the delay of the limiter stays within its
-- bounds, the breaker is never open after fewer blocks in a row than its threshold, no proxy has more
-- failures than requests, and the session never holds a jar that is yet to be made.
pub new_client-Sound :
    {W : Type 0} (io : Io W) (lib : Library) (opts : Options) (w : W) (cs : List Call)
    (shrink_le : (d : ℕ) → io.scale 85 d ≤ℤ pos d)
    → Holds IsSane opts.anti_bot
    → Holds Sound (after_calls io (new_settings opts) lib cs (new_client opts w)).anti_bot
new_client-Sound io lib opts w cs shrink_le sane =
    after_calls-Sound io (new_settings opts) lib shrink_le cs (new_client opts w)
      (rw (new_client-anti_bot opts w) (built-Sound opts.anti_bot sane))

-- ===== src/Client/Retry/Changes.antt =====
-- client.go and antibot.go: the anti-bot state as a state machine. A step is one call of a method of
-- one of its parts.
use goddgs.Prelude.{ℕ, ◌+◌, ◌≡◌, Option, some}
use goddgs.Prelude.Int.{ℤ}
use goddgs.Circuit.{CircuitBreaker, record_block, record_success}
use goddgs.Rate.{AdaptiveRateLimiter, wait, on_block, on_success}
use goddgs.Proxy.{mark_success, mark_failed}
use goddgs.Session.{SessionManager, invalidate, mark_warmed}
use goddgs.Client.{AntiBotState, State}
use goddgs.Client.Retry.{map_option}

pub data Step (scale : ℕ → ℕ → ℤ) (a : AntiBotState) : AntiBotState → Type 0 where
  waited :
      (r : AdaptiveRateLimiter) (gaussian : ℕ → ℤ → ℤ) (now : ℕ)
      → a.rate_limit ≡ some r
      → Step scale a (record a { rate_limit = some (wait scale gaussian now r).limiter })
  slowed : Step scale a (record a { rate_limit = map_option (on_block scale) a.rate_limit })
  eased : Step scale a (record a { rate_limit = map_option (on_success scale) a.rate_limit })
  worked :
      (via : Option ℕ)
      → Step scale a (record a { proxy_pool = map_option (λ p. mark_success p via) a.proxy_pool })
  broke :
      (via : Option ℕ) (at : ℕ)
      → Step scale a (record a { proxy_pool = map_option (λ p. mark_failed p via at) a.proxy_pool })
  counted :
      (cb : CircuitBreaker) (tested set : ℕ)
      → a.circuit ≡ some cb
      → Step scale a (record a { circuit = some (record_block cb tested set).breaker })
  closed :
      (cb : CircuitBreaker) (tested : ℕ)
      → a.circuit ≡ some cb
      → Step scale a (record a { circuit = some (record_success cb tested).breaker })
  forgot :
      Step scale a
        (record a { session = map_option (invalidate a.jars) a.session; jars = a.jars + 1 })
  warmed :
      (s : SessionManager) (at : ℕ)
      → a.session ≡ some s
      → Step scale a (record a { session = some (mark_warmed at s) })

-- Any number of steps; a client without an anti-bot state stays without one.
pub data Reach (scale : ℕ → ℕ → ℤ) (o : Option AntiBotState) : Option AntiBotState → Type 0 where
  here : Reach scale o o
  next : {a b : AntiBotState} → Reach scale o (some a) → Step scale a b → Reach scale o (some b)

module _ {scale : ℕ → ℕ → ℤ} where
  pub Reach-trans :
      {o p q : Option AntiBotState} → Reach scale o p → Reach scale p q → Reach scale o q
  Reach-trans r here = r
  Reach-trans r (next s t) = next (Reach-trans r s) t

  pub once : {a b : AntiBotState} → Step scale a b → Reach scale (some a) (some b)
  once t = next here t

  pub Reach-eq : {o p : Option AntiBotState} → p ≡ o → Reach scale o p
  Reach-eq {o} e = rw e here

-- The second state of a client is reached from the first.
abbrev pub Moves : {W : Type 0} → (ℕ → ℕ → ℤ) → State W → State W → Type 0
Moves scale st st' = Reach scale st.anti_bot st'.anti_bot

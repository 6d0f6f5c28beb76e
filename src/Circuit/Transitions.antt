-- ===== src/Circuit/Transitions.antt =====
-- The transitions that the breaker reports to `OnCircuit`.
use goddgs.Prelude.{ℕ, ◌+◌, ◌<◌, ◌≡◌, ◌≢◌, ◌↔◌, true, false, arith}
use goddgs.Prelude.Int.{ℤ, positive_or}
use goddgs.Circuit.{CircuitBreaker, is_open, new_circuit_breaker, record_block, record_success}

-- What the constructor and every method maintain.
pub record IsValid (cb : CircuitBreaker) : Type 0 where
  pub has_threshold : 0 < cb.threshold
  pub has_cooldown : 0 < cb.cooldown
  pub earned : cb.open_until ≢ 0 → cb.threshold < cb.consecutive + 1

-- A new breaker is valid, whatever settings it gets, and recording a block or a success keeps it so.
pub records-IsValid :
    (threshold cooldown : ℤ) (cb : CircuitBreaker) (tested set : ℕ)
    → IsValid cb
    → IsValid (new_circuit_breaker threshold cooldown)
      × IsValid (record_block cb tested set).breaker
      × IsValid (record_success cb tested).breaker
unfolding new_circuit_breaker positive_or record_block record_success
records-IsValid threshold cooldown cb tested set v = (ground arith, ground arith, ground arith)

-- A block reports that the breaker opened exactly when it found it closed and leaves it open, and
-- a success that it closed exactly when it found it open; a success always leaves it closed.
pub reported_iff :
    (cb : CircuitBreaker) (tested set : ℕ)
    → IsValid cb
    → (((record_block cb tested set).changed ≡ true)
        ↔ ((is_open cb tested ≡ false) × (is_open (record_block cb tested set).breaker set ≡ true)))
      × (((record_success cb tested).changed ≡ true) ↔ (is_open cb tested ≡ true))
      × (is_open (record_success cb tested).breaker set ≡ false)
unfolding record_block record_success is_open
reported_iff cb tested set v = ground arith

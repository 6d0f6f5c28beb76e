-- ===== src/Circuit/History.antt =====
-- The breaker against the history of responses: what it forgets and what it keeps.
use goddgs.Prelude.{
  ℕ, suc, ◌+◌, ◌*◌, ◌<◌, ◌≡◌, refl, Bool, false, ◌&&◌, List, [], ◌∷◌, ltb, leb, arith,
}
use goddgs.Prelude.Int.{ℤ, positive_or-pos}
use goddgs.Circuit.{
  CircuitBreaker, new_circuit_breaker, is_open, record_block, record_success, second,
}

-- A response that was recorded, with the readings of the clock that its method made.
pub data Mark : Type 0 where
  block : ℕ → ℕ → Mark
  success : ℕ → Mark

-- The breaker after a history, newest response first.
pub after : CircuitBreaker → List Mark → CircuitBreaker
after cb [] = cb
after cb (block tested set ∷ h) = (record_block (after cb h) tested set).breaker
after cb (success tested ∷ h) = (record_success (after cb h) tested).breaker

-- How many blocks there were since the last success.
abbrev streak : List Mark → ℕ
streak [] = 0
streak (block tested set ∷ h) = suc (streak h)
streak (success tested ∷ h) = 0

-- The specification: the breaker is open when the last response was a block that made the run of
-- blocks as long as the threshold, until the cooldown after that block is over.
abbrev pub should_be_open : ℕ → ℕ → List Mark → ℕ → Bool
should_be_open threshold cooldown [] now = false
should_be_open threshold cooldown (success tested ∷ h) now = false
should_be_open threshold cooldown (block tested set ∷ h) now =
    leb threshold (suc (streak h)) && ltb now (set + cooldown)

record Agrees (cb : CircuitBreaker) (h : List Mark) (c : CircuitBreaker) : Type 0 where
  same_threshold : c.threshold ≡ cb.threshold
  same_cooldown : c.cooldown ≡ cb.cooldown
  counted : c.consecutive ≡ streak h
  quiet : streak h < cb.threshold → c.open_until ≡ 0

block-Agrees :
    (cb c : CircuitBreaker) (tested set : ℕ) (h : List Mark)
    → Agrees cb h c
    → Agrees cb (block tested set ∷ h) (record_block c tested set).breaker
unfolding record_block
block-Agrees cb c tested set h a = ground arith

success-Agrees :
    (cb c : CircuitBreaker) (tested : ℕ) (h : List Mark)
    → Agrees cb h c
    → Agrees cb (success tested ∷ h) (record_success c tested).breaker
unfolding record_success
success-Agrees cb c tested h a = ground arith

block_opens :
    (cb c : CircuitBreaker) (tested set : ℕ) (h : List Mark) (now : ℕ)
    → 0 < cb.cooldown
    → Agrees cb h c
    → ((record_block c tested set).breaker.consecutive ≡ suc (streak h))
      × (is_open (record_block c tested set).breaker now
          ≡ should_be_open cb.threshold cb.cooldown (block tested set ∷ h) now)
unfolding record_block is_open
block_opens cb c tested set h now pos a = ground arith

module _ (threshold cooldown : ℤ) where
  abbrev pub fresh : CircuitBreaker
  fresh = new_circuit_breaker threshold cooldown

  fresh-has_cooldown : 0 < fresh.cooldown
  unfolding new_circuit_breaker
  fresh-has_cooldown = positive_or-pos cooldown (60 * second) (omega arith)

  after-Agrees : (h : List Mark) → Agrees fresh h (after fresh h)
  unfolding after
  after-Agrees [] =
      unfold new_circuit_breaker in
      record { same_threshold = refl; same_cooldown = refl; counted = refl; quiet = λ _. refl }
  after-Agrees (block tested set ∷ h) =
      block-Agrees fresh (after fresh h) tested set h (after-Agrees h)
  after-Agrees (success tested ∷ h) = success-Agrees fresh (after fresh h) tested h (after-Agrees h)

  -- After any history the counter is the number of blocks since the last success, and the breaker
  -- is open exactly when the specification says so: the last response was a block, it made that
  -- number reach the threshold, and the cooldown after it is not over.
  pub after-is_open :
      (h : List Mark) (now : ℕ)
      → ((after fresh h).consecutive ≡ streak h)
        × (is_open (after fresh h) now ≡ should_be_open fresh.threshold fresh.cooldown h now)
  unfolding after
  after-is_open [] now =
      (unfold new_circuit_breaker in refl, unfold is_open new_circuit_breaker in refl)
  after-is_open (block tested set ∷ h) now =
      block_opens fresh (after fresh h) tested set h now fresh-has_cooldown (after-Agrees h)
  after-is_open (success tested ∷ h) now =
      (unfold record_success in refl, unfold is_open record_success in refl)

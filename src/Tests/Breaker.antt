-- ===== src/Tests/Breaker.antt =====
-- The circuit breaker.
use goddgs.Prelude.{◌≡◌, true, false, ◌↔◌, List, [], ◌∷◌, arith}
use goddgs.Prelude.Int.{pos}
use goddgs.Circuit.{CircuitBreaker, is_open, record_block, record_success}
use goddgs.Circuit.History.{Mark, block, success, after, should_be_open, fresh, after-is_open}
use goddgs.Circuit.Transitions.{reported_iff}

abbrev history : List Mark
history = block 30 31 ∷ block 20 21 ∷ success 15 ∷ block 10 11 ∷ []

after-is_open_example :
    ((after (fresh (pos 2) (pos 60)) history).consecutive ≡ 2)
    × (is_open (after (fresh (pos 2) (pos 60)) history) 40
        ≡ should_be_open
            (fresh (pos 2) (pos 60)).threshold
            (fresh (pos 2) (pos 60)).cooldown
            history
            40)
after-is_open_example = after-is_open (pos 2) (pos 60) history 40

abbrev near : CircuitBreaker
near = record { threshold = 3; cooldown = 60; consecutive = 2; open_until = 0 }

reported_iff_example :
    (((record_block near 100 101).changed ≡ true)
      ↔ ((is_open near 100 ≡ false) × (is_open (record_block near 100 101).breaker 101 ≡ true)))
    × (((record_success near 100).changed ≡ true) ↔ (is_open near 100 ≡ true))
    × (is_open (record_success near 100).breaker 101 ≡ false)
reported_iff_example = reported_iff near 100 101 (omega arith)

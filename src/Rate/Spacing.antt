-- ===== src/Rate/Spacing.antt =====
-- The slots that `Wait` hands out.
use goddgs.Prelude.{ℕ, ◌+◌, ◌*◌, ◌/◌, ◌^◌, ◌≤◌, ◌<◌, ◌≡◌, List, [], ◌∷◌, arith}
use goddgs.Prelude.Int.{ℤ, pos, pos_part, neg_part, ◌-ℤ◌, -ℤ_parts, int64-of_lt}
use goddgs.Rate.{AdaptiveRateLimiter, jittered, wait}

-- A request: the draw that it makes and the time at which it asks.
abbrev pub Ask : Type 0
Ask = (ℕ → ℤ → ℤ) × ℕ

module _ (scale : ℕ → ℕ → ℤ) where
  jittered_bounds :
      (gaussian : ℕ → ℤ → ℤ) (r : AdaptiveRateLimiter)
      → r.base ≤ r.max
      → r.max < 2 ^ 62
      → (r.base / 2 ≤ pos_part (jittered scale gaussian r))
        × (pos_part (jittered scale gaussian r) ≤ r.max * 2)
        × (neg_part (jittered scale gaussian r) ≡ 0)
  unfolding jittered
  jittered_bounds gaussian r h small = rw (int64-of_lt (r.max * 2) (omega arith)) (ground arith)

  -- Where the base delay is at most the greatest one, which is below 2 ^ 62, and the last slot is not in
  -- the future: whatever the random draw, a request waits for at most twice the greatest delay, its slot lies
  -- at the end of its wait, and after the first request at least half the base delay after the
  -- slot before it.
  pub wait_spacing :
      (gaussian : ℕ → ℤ → ℤ) (now : ℕ) (r : AdaptiveRateLimiter)
      → r.base ≤ r.max
      → r.max < 2 ^ 62
      → r.last_req ≤ now
      → let w = wait scale gaussian now r in
        (w.wait ≤ r.max * 2)
        × (w.limiter.last_req ≡ now + w.wait)
        × (0 < r.last_req → r.last_req + r.base / 2 ≤ w.limiter.last_req)
  unfolding wait
  wait_spacing gaussian now r h small past = ground (
    arith,
    jittered_bounds gaussian r h small,
    -ℤ_parts (pos now) (pos r.last_req),
    -ℤ_parts (jittered scale gaussian r) (pos now -ℤ pos r.last_req),
  )

  pub waits : AdaptiveRateLimiter → List Ask → AdaptiveRateLimiter
  waits r [] = r
  waits r ((gaussian, now) ∷ asks) = waits (wait scale gaussian now r).limiter asks

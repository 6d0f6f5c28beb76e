-- ===== src/Rate/Delay.antt =====
-- The delay between requests: its bounds, and how it relaxes.
use goddgs.Prelude.{ℕ, zero, suc, ◌+◌, ◌≤◌, ◌<◌, ◌≡◌, ◌∙◌, List, [], ◌∷◌, arith}
use goddgs.Prelude.Int.{ℤ, pos, ◌≤ℤ◌, ◌<ℤ◌}
use goddgs.Rate.{AdaptiveRateLimiter, new_adaptive_rate_limiter, wait, on_block, on_success}

-- The delay lies between its bounds.
pub record IsValid (r : AdaptiveRateLimiter) : Type 0 where
  pub above : r.base ≤ r.current
  pub below : r.current ≤ r.max
  pub shrinks : r.shrink_factor ≡ 85
  pub grows : r.grow_factor ≡ 200

-- A signal to the limiter: a block or a success.
pub data Signal : Type 0 where
  block success : Signal

module _ (scale : ℕ → ℕ → ℤ) where
  pub react : AdaptiveRateLimiter → List Signal → AdaptiveRateLimiter
  react r [] = r
  react r (block ∷ ss) = react (on_block scale r) ss
  react r (success ∷ ss) = react (on_success scale r) ss

  pub successes : ℕ → AdaptiveRateLimiter → AdaptiveRateLimiter
  successes zero r = r
  successes (suc n) r = successes n (on_success scale r)

pub wait-IsValid :
    (scale : ℕ → ℕ → ℤ) (gaussian : ℕ → ℤ → ℤ) (now : ℕ) (r : AdaptiveRateLimiter)
    → IsValid r
    → IsValid (wait scale gaussian now r).limiter
unfolding wait
wait-IsValid scale gaussian now r v = ground arith

-- `scale 85 d` is never more than `d`: the factor of `OnSuccess` is below 1.
module _ (scale : ℕ → ℕ → ℤ) (shrink_le : (d : ℕ) → scale 85 d ≤ℤ pos d) where
  pub on_block-IsValid : (r : AdaptiveRateLimiter) → IsValid r → IsValid (on_block scale r)
  unfolding on_block
  on_block-IsValid r v = ground arith

  pub on_success-IsValid : (r : AdaptiveRateLimiter) → IsValid r → IsValid (on_success scale r)
  unfolding on_success
  on_success-IsValid r v = ground (arith, shrink_le r.current)

  react-IsValid :
      (ss : List Signal) (r : AdaptiveRateLimiter) → IsValid r → IsValid (react scale r ss)
  unfolding react
  react-IsValid [] r v = v
  react-IsValid (block ∷ ss) r v = react-IsValid ss _ (on_block-IsValid r v)
  react-IsValid (success ∷ ss) r v = react-IsValid ss _ (on_success-IsValid r v)

  -- Whatever blocks and successes a limiter with `base ≤ max` sees, its delay stays within them.
  pub react_bounds :
      (base max : ℕ) (ss : List Signal)
      → base ≤ max
      → IsValid (react scale (new_adaptive_rate_limiter base max) ss)
  react_bounds base max ss h = react-IsValid ss _ (unfold new_adaptive_rate_limiter in omega arith)

module _ (scale : ℕ → ℕ → ℤ) (shrinks : (d : ℕ) → 0 < d → scale 85 d <ℤ pos d) where
  success_step :
      (n : ℕ) (r : AdaptiveRateLimiter)
      → IsValid r
      → 0 < r.base
      → r.current ≤ r.base + suc n
      → let q = on_success scale r in IsValid q × (q.base ≡ r.base) × (q.current ≤ r.base + n)
  unfolding on_success
  success_step n r v p h = ground (arith, shrinks r.current)

  -- Successes alone bring the delay back to its base: `n` of them are enough if it lies at most
  -- `n` nanoseconds above.
  pub successes-base :
      (n : ℕ) (r : AdaptiveRateLimiter)
      → IsValid r
      → 0 < r.base
      → r.current ≤ r.base + n
      → (successes scale n r).current ≡ r.base
  unfolding successes
  successes-base zero r v p h = omega arith
  successes-base (suc n) r v p h =
      let (valid, same, near) = success_step n r v p h in
      successes-base n (on_success scale r) valid (omega arith) (omega arith) ∙ same

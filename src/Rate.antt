-- ===== src/Rate.antt =====
-- timing.go. Times are nanoseconds since the zero time, so that 0 is the zero time. Floating-point
-- arithmetic is a parameter: `scale f d` stands for `time.Duration(float64(d) * f)` with `f` in
-- hundredths, and `gaussian mean stddev` for the draw of `gaussianDuration`.
pub mod Spacing
pub mod Delay
use goddgs.Prelude.{ℕ, ◌+◌, ◌-◌, ◌*◌, ◌/◌, Bool, ltb, ◌==◌, if◌then◌else◌}
use goddgs.Prelude.Int.{ℤ, pos, pos_part, ltb_ℤ, ◌-ℤ◌, int64}
use goddgs.Failure.{GoError, nil}

-- `clampDuration`.
unfoldable clamp_duration : ℤ → ℤ → ℤ → ℤ
clamp_duration d min max = if ltb_ℤ d min then min else if ltb_ℤ max d then max else d

-- `GaussianSleep`, given the draw of `gaussianDuration`; `sleep` is a timer that gives `nil`, or the
-- error of a context that ended first.
unfoldable gaussian_sleep : {W : Type 0} → (ℕ → W → GoError × W) → ℤ → ℤ → ℤ → W → GoError × W
unfolding clamp_duration
gaussian_sleep sleep drawn min max w =
    let d = clamp_duration drawn min max in
    if ltb_ℤ (pos 0) d then sleep (pos_part d) w else (nil, w)

-- The factors are in hundredths.
pub record AdaptiveRateLimiter : Type 0 where
  pub base : ℕ
  pub current : ℕ
  pub max : ℕ
  pub grow_factor : ℕ
  pub shrink_factor : ℕ
  pub jitter_frac : ℕ
  pub last_req : ℕ

-- `newAdaptiveRateLimiter`.
unfoldable pub new_adaptive_rate_limiter : ℕ → ℕ → AdaptiveRateLimiter
new_adaptive_rate_limiter base max = record {
  base = base;
  current = base;
  max = max;
  grow_factor = 200;
  shrink_factor = 85;
  jitter_frac = 25;
  last_req = 0;
}

pub record Waited : Type 0 where
  pub wait : ℕ
  pub limiter : AdaptiveRateLimiter

module _ (scale : ℕ → ℕ → ℤ) where
  -- `OnBlock`.
  unfoldable pub on_block : AdaptiveRateLimiter → AdaptiveRateLimiter
  unfolding clamp_duration
  on_block r = record r {
    current = pos_part (clamp_duration (scale r.grow_factor r.current) (pos r.base) (pos r.max));
  }

  -- `OnSuccess`.
  unfoldable pub on_success : AdaptiveRateLimiter → AdaptiveRateLimiter
  on_success r =
      let shrunk = scale r.shrink_factor r.current in
      record r { current = if ltb_ℤ shrunk (pos r.base) then r.base else pos_part shrunk }

  -- The gap that `Wait` draws around the current delay.
  unfoldable pub jittered : (ℕ → ℤ → ℤ) → AdaptiveRateLimiter → ℤ
  unfolding clamp_duration int64
  jittered gaussian r =
      clamp_duration (gaussian r.current (scale r.jitter_frac r.current)) (pos (r.base / 2))
        (int64 (r.max * 2))

  -- `Wait` up to its timer: how long the caller is to sleep, and the slot that it reserves.
  unfoldable pub wait : (ℕ → ℤ → ℤ) → ℕ → AdaptiveRateLimiter → Waited
  unfolding jittered
  wait gaussian now r =
      let gap = jittered gaussian r in
      let elapsed = pos now -ℤ pos r.last_req in
      let left =
        if r.last_req == 0 then 0 else if ltb_ℤ elapsed gap then pos_part (gap -ℤ elapsed) else 0 in
      record { wait = left; limiter = record r { last_req = now + left } }

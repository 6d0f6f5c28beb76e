-- ===== src/Tests/Limiter.antt =====
-- The adaptive rate limiter, with the factors computed exactly.
use goddgs.Prelude.{ℕ, ◌*◌, ◌/◌, ◌<◌, List, [], ◌∷◌, arith}
use goddgs.Prelude.Int.{ℤ, pos, ◌≤ℤ◌, ◌<ℤ◌}
use goddgs.Rate.{AdaptiveRateLimiter}
use goddgs.Rate.Spacing.{Ask}
use goddgs.Rate.Delay.{Signal, block, success}

abbrev exact : ℕ → ℕ → ℤ
exact f d = pos (d * f / 100)

abbrev mean : ℕ → ℤ → ℤ
mean m s = pos m

exact_le : (d : ℕ) → exact 85 d ≤ℤ pos d
exact_le d = omega arith

exact_lt : (d : ℕ) → 0 < d → exact 85 d <ℤ pos d
exact_lt d h = omega arith

abbrev running : AdaptiveRateLimiter
running = record {
  base = 300;
  current = 600;
  max = 30_000;
  grow_factor = 200;
  shrink_factor = 85;
  jitter_frac = 25;
  last_req = 1000;
}

abbrev asks : List Ask
asks = (mean, 1100) ∷ (mean, 1200) ∷ []

abbrev signals : List Signal
signals = block ∷ block ∷ success ∷ []

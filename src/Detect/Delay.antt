-- ===== src/Detect/Delay.antt =====
-- What `RetryAfterSeconds` makes of a date.
use text.Mathlib.TextEquality.{eq_iff}
use goddgs.Prelude.{ℕ, ◌+◌, ◌-◌, ◌*◌, ◌≤◌, ◌<◌, String, ◌≡◌, ◌≢◌, Option, none, some, arith}
use goddgs.Prelude.Int.{ℤ}
use goddgs.Prelude.Text.{trim_space}
use goddgs.Failure.{Header}
use goddgs.Net.{get}
use goddgs.Detect.{retry_after_seconds}

-- A date in `Retry-After` gives the time until then in seconds, rounded to the nearest; a date that
-- has passed gives 0.
pub retry_after_seconds-date :
    (scan_int : String → Option ℤ) (parse_time : String → Option ℕ) (now t : ℕ) (h : Header)
    → scan_int (trim_space (get h "Retry-After")) ≡ none
    → parse_time (trim_space (get h "Retry-After")) ≡ some t
    → trim_space (get h "Retry-After") ≢ ""
    → let secs = retry_after_seconds scan_int parse_time now h in
      (t ≤ now → secs ≡ 0)
      × (now < t
          → (secs * 1_000_000_000 ≤ t - now + 500_000_000)
            × (t - now < secs * 1_000_000_000 + 500_000_000))
unfolding retry_after_seconds
retry_after_seconds-date scan_int parse_time now t h no_number date full =
    ground (arith, eq_iff (trim_space (get h "Retry-After")) "")

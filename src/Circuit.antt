-- ===== src/Circuit.antt =====
-- antibot.go: `circuitBreaker`. Times are nanoseconds since Go's zero `time.Time`, so that 0 is the
-- zero time; a method takes each reading of the clock that it makes as an argument.
pub mod History
pub mod Transitions
use goddgs.Prelude.{ℕ, ◌+◌, ◌*◌, Bool, true, false, ◌&&◌, not, ltb, leb, ◌==◌, if◌then◌else◌}
use goddgs.Prelude.Int.{ℤ, positive_or}

pub record CircuitBreaker : Type 0 where
  pub threshold : ℕ
  pub cooldown : ℕ
  pub consecutive : ℕ
  pub open_until : ℕ

-- `circuitSnapshot`.
pub record CircuitSnapshot : Type 0 where
  pub threshold : ℕ
  pub cooldown : ℕ
  pub consecutive : ℕ
  pub open_until : ℕ

abbrev pub second : ℕ
second = 1_000_000_000

-- `newCircuitBreaker`.
unfoldable pub new_circuit_breaker : ℤ → ℤ → CircuitBreaker
unfolding positive_or
new_circuit_breaker threshold cooldown = record {
  threshold = positive_or threshold 5;
  cooldown = positive_or cooldown (60 * second);
  consecutive = 0;
  open_until = 0;
}

-- `IsOpen`; the same test stands in `RecordBlock` and `RecordSuccess`.
unfoldable pub is_open : CircuitBreaker → ℕ → Bool
is_open cb now = not (cb.open_until == 0) && ltb now cb.open_until

-- `Snapshot`.
unfoldable pub snapshot : CircuitBreaker → CircuitSnapshot
snapshot cb = record {
  threshold = cb.threshold;
  cooldown = cb.cooldown;
  consecutive = cb.consecutive;
  open_until = cb.open_until;
}

-- What `RecordBlock` and `RecordSuccess` return, with the breaker that they leave.
pub record Recorded : Type 0 where
  pub changed : Bool
  pub snap : CircuitSnapshot
  pub breaker : CircuitBreaker

leave : Bool → CircuitBreaker → Recorded
unfolding snapshot
leave changed cb = record { changed = changed; snap = snapshot cb; breaker = cb }

-- `RecordBlock`: the clock is read for the test and again for the new deadline.
unfoldable pub record_block : CircuitBreaker → ℕ → ℕ → Recorded
unfolding is_open leave
record_block cb tested set =
    if leb cb.threshold (cb.consecutive + 1)
    then leave (not (is_open cb tested))
        (record cb { consecutive = cb.consecutive + 1; open_until = set + cb.cooldown })
    else leave false (record cb { consecutive = cb.consecutive + 1 })

-- `RecordSuccess`.
unfoldable pub record_success : CircuitBreaker → ℕ → Recorded
unfolding is_open leave
record_success cb tested = leave (is_open cb tested) (record cb { consecutive = 0; open_until = 0 })

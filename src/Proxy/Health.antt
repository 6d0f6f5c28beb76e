-- ===== src/Proxy/Health.antt =====
-- The counters of the entries, and the snapshot that `Stats` takes.
use goddgs.Prelude.{
  ℕ, zero, suc, ◌+◌, ◌≤◌, ◌≡◌, refl, not, Option, none, some, List, [], ◌∷◌, arith, All, get_elem?,
  ap,
}
use goddgs.Proxy.{
  ProxyPool, ProxyEntry, ProxyStats, succeeded, failed, update_at, mark_success, mark_failed,
  usable, stats, stats_from,
}

-- A run of failures is counted among the failures, and a failure among the requests.
pub record IsCounted (e : ProxyEntry) : Type 0 where
  pub run_within : e.consecutive_fails ≤ e.failures
  pub failures_within : e.failures ≤ e.requests

update_at-IsCounted :
    (i : ℕ) (f : ProxyEntry → ProxyEntry) (es : List ProxyEntry)
    → ((e : ProxyEntry) → IsCounted e → IsCounted (f e))
    → All IsCounted es
    → All IsCounted (update_at i f es)
update_at-IsCounted i f [] keep h = tt
update_at-IsCounted zero f (e ∷ es) keep (v, vs) = (keep e v, vs)
update_at-IsCounted (suc i) f (e ∷ es) keep (v, vs) = (v, update_at-IsCounted i f es keep vs)

-- Both marks keep the counters of every entry consistent.
pub marks-IsCounted :
    (p : ProxyPool) (at : Option ℕ) (now : ℕ)
    → All IsCounted p.entries
    → All IsCounted (mark_success p at).entries × All IsCounted (mark_failed p at now).entries
unfolding mark_success mark_failed
marks-IsCounted p none now h = (h, h)
marks-IsCounted p (some i) now h = (
  update_at-IsCounted i succeeded p.entries (λ e v. ground arith) h,
  update_at-IsCounted i (failed now) p.entries (λ e v. ground arith) h,
)

-- The snapshot of an entry shows its counters, and calls it cooling down exactly when a choice at
-- the same time would leave it out.
pub record Shows (p : ProxyPool) (now : ℕ) (e : ProxyEntry) (s : ProxyStats) : Type 0 where
  pub url : s.url ≡ e.url
  pub requests : s.requests ≡ e.requests
  pub failures : s.failures ≡ e.failures
  pub run : s.consecutive_fails ≡ e.consecutive_fails
  pub cooling : s.in_cooldown ≡ not (usable p now e)

stats_from-Shows :
    (p : ProxyPool) (clock : ℕ → ℕ) (k j i : ℕ) (es : List ProxyEntry) (e : ProxyEntry)
    → i ≡ k + j
    → get_elem? es j ≡ some e
    → (s : ProxyStats) × (get_elem? (stats_from p clock k es) j ≡ some s) × Shows p (clock i) e s
unfolding stats_from usable
stats_from-Shows p clock k j i [] e at h = cc
stats_from-Shows p clock k zero i (d ∷ es) e at h =
    let same : i ≡ k = omega arith in (_, refl, ground (arith, ap clock same))
stats_from-Shows p clock k (suc j) i (d ∷ es) e at h =
    stats_from-Shows p clock (k + 1) j i es e (omega arith) h

-- `Stats` has a snapshot at the position of each entry of the pool.
pub stats-Shows :
    (p : ProxyPool) (clock : ℕ → ℕ) (i : ℕ) (e : ProxyEntry)
    → get_elem? p.entries i ≡ some e
    → (s : ProxyStats) × (get_elem? (stats p clock) i ≡ some s) × Shows p (clock i) e s
unfolding stats
stats-Shows p clock i e h = stats_from-Shows p clock 0 i i p.entries e (omega arith) h

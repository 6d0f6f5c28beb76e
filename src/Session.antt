-- ===== src/Session.antt =====
-- session.go. A cookie jar is the number that it was made under; a fresh jar gets the next number.
-- No jar is ever emptied: `Invalidate` makes another one.
pub mod Warmth
use goddgs.Prelude.{
  ℕ, ◌+◌, ◌*◌, String, Bool, true, false, ◌||◌, not, List, ltb, length, if◌then◌else◌,
}
use goddgs.Prelude.Int.{ℤ, pos, positive_or, ltb_ℤ, ◌-ℤ◌}
use goddgs.Failure.{GoError, is_nil}

pub record SessionManager : Type 0 where
  pub jar : ℕ
  pub warmed_up : Bool
  pub last_warmup : ℕ
  pub warmup_ttl : ℕ

-- `newSessionManager`, with the number of the jar that it makes.
unfoldable pub new_session_manager : ℤ → ℕ → SessionManager
unfolding positive_or
new_session_manager warmup_ttl jar = record {
  jar = jar;
  warmed_up = false;
  last_warmup = 0;
  warmup_ttl = positive_or warmup_ttl (20 * 60 * 1_000_000_000);
}

-- `NeedsWarmup` at the time `now`.
unfoldable pub needs_warmup : ℕ → SessionManager → Bool
needs_warmup now s = not s.warmed_up || ltb_ℤ (pos s.warmup_ttl) (pos now -ℤ pos s.last_warmup)

-- `markWarmed`.
unfoldable pub mark_warmed : ℕ → SessionManager → SessionManager
mark_warmed now s = record s { warmed_up = true; last_warmup = now }

-- `Invalidate`, with the number of the jar that it makes.
unfoldable pub invalidate : ℕ → SessionManager → SessionManager
invalidate jar s = record s { warmed_up = false; jar = jar }

-- `HasCookiesFor`: `parse_url` gives the error of `url.Parse`, and `cookies` what the jar of a number
-- holds for an address.
unfoldable pub has_cookies_for :
    {C : Type 0} (parse_url : String → GoError) (cookies : ℕ → String → List C)
    → SessionManager
    → String
    → Bool
has_cookies_for parse_url cookies s raw_url =
    if is_nil (parse_url raw_url) then ltb 0 (length (cookies s.jar raw_url)) else false

-- `Warmup` over the clock and the two requests: `visit root` is `doWarmupGET` of the home page, or
-- of the home page with an empty query. The test is the negation of `NeedsWarmup`.
module _ {W : Type 0} (now : W → ℕ × W) (visit : Bool → W → GoError × W) where
  unfoldable pub warm_up : SessionManager → W → (GoError × SessionManager) × W
  unfolding needs_warmup mark_warmed
  warm_up s w =
      let (tested, w1) = now w in
      let (err, w2) = visit true w1 in
      let (ignored, w3) = visit false w2 in
      let (done, w4) = now w3 in
      if needs_warmup tested s
      then (if is_nil err then ((GoError.nil, mark_warmed done s), w4) else ((err, s), w2))
      else ((GoError.nil, s), w1)

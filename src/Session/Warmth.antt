-- ===== src/Session/Warmth.antt =====
-- When a session has to be warmed up.
use goddgs.Prelude.{
  ℕ, ◌+◌, ◌≤◌, ◌<◌, ◌≡◌, ◌≢◌, ◌⊎◌, refl, inl, inr, Bool, true, false, arith, Bool-cases,
}
use goddgs.Prelude.Int.{pos, -ℤ_parts}
use goddgs.Failure.{GoError, nil, is_nil}
use goddgs.Session.{SessionManager, needs_warmup, mark_warmed, invalidate, warm_up}

-- A session that was warmed up at a time is cold again exactly when its time to live is over, and a
-- session that was invalidated is cold at any time.
pub needs_warmup-mark_warmed :
    (s : SessionManager) (at later jar : ℕ)
    → at ≤ later
    → (at + s.warmup_ttl < later → needs_warmup later (mark_warmed at s) ≡ true)
      × (later ≤ at + s.warmup_ttl → needs_warmup later (mark_warmed at s) ≡ false)
      × (needs_warmup later (invalidate jar s) ≡ true)
unfolding needs_warmup mark_warmed invalidate
needs_warmup-mark_warmed s at later jar h = ground (arith, -ℤ_parts (pos later) (pos at))

nil-or-error : (e : GoError) → ((is_nil e ≡ true) × (e ≡ nil)) ⊎ ((is_nil e ≡ false) × (e ≢ nil))
nil-or-error nil = inl (refl, refl)
nil-or-error e = inr (refl, λ h. cc)

mark_warmed-warm : (s : SessionManager) (at : ℕ) → needs_warmup at (mark_warmed at s) ≡ false
mark_warmed-warm s at = (needs_warmup-mark_warmed s at at 0 (omega arith)).1 (omega arith)

-- A warm-up that reports no error leaves a session that is warm at a time at which the clock was
-- read; one that reports an error leaves the session as it was.
pub warm_up-outcome :
    {W : Type 0} (now : W → ℕ × W) (visit : Bool → W → GoError × W) (s : SessionManager) (w : W)
    → (((warm_up now visit s w).0.0 ≡ nil)
        × ((t : ℕ) × (needs_warmup t (warm_up now visit s w).0.1 ≡ false)))
      ⊎ (((warm_up now visit s w).0.0 ≢ nil) × ((warm_up now visit s w).0.1 ≡ s))
unfolding warm_up
warm_up-outcome now visit s w = elim (Bool-cases (needs_warmup (now w).0 s)) [
  | inr warm ↦ rw warm (inl (refl, ((now w).0, warm)))
  | inl cold ↦ elim (nil-or-error (visit true (now w).1).0) [
    | inl (ok, _) ↦ rw (cold, ok) (inl (refl, (_, mark_warmed-warm s _)))
    | inr (failed, bad) ↦ rw (cold, failed) (inr (bad, refl))
  ]
]

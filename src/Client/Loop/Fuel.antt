-- ===== src/Client/Loop/Fuel.antt =====
-- How long `doWithRetry` runs.
use goddgs.Prelude.{
  ℕ, zero, suc, ◌+◌, ◌≤◌, ◌<◌, String, ◌≡◌, ◌≢◌, inl, inr, false, none, some, arith, Option-cases,
}
use goddgs.Failure.{GoError, nil}
use goddgs.Failure.{BlockedEvent}
use goddgs.Client.{State, Settings, Io, tell_blocked}
use goddgs.Client.Retry.{handle_block, try_solver, blocked_of}
use goddgs.Client.Loop.Cases.{
  run, over, ended, again, dried_up, stopped, onward, turned, turn-by, exchange-by,
}
use goddgs.Client.Loop.{
  Outcome, Next, solved, out_of_fuel, Built, starved, settle, turn, do_with_retry,
}

module _ {W : Type 0} (io : Io W) (unsolved : io.solve ≡ none) where
  handle_block-unsolved :
      (attempt : ℕ) (url body : String) (ev : BlockedEvent) (st : State W)
      → (handle_block io attempt url body ev st).0 ≡ false
  unfolding handle_block try_solver
  handle_block-unsolved attempt url body ev st =
      elim (Option-cases (tell_blocked io ev st).anti_bot) [
        | inl nothing ↦ rw (nothing, handle_block)
        | inr (ab, e) ↦ rw (e, unsolved, handle_block, try_solver)
      ]

  pub settle-not-solved :
      (i : ℕ) (url body : String) (err e : GoError) (st : State W)
      → (settle io i url body err st).0 ≢ solved e
  unfolding settle
  settle-not-solved i url body err e st h = elim (Option-cases (blocked_of err)) [
    | inl plain ↦ cc (rw (plain, settle) at h)
    | inr (ev, b) ↦ cc (rw (b, handle_block-unsolved (i + 1) url body ev st, settle) at h)
  ]

  settle-ne-out_of_fuel :
      (i : ℕ) (url body : String) (err : GoError) (st : State W)
      → (settle io i url body err st).0 ≢ out_of_fuel
  unfolding settle
  settle-ne-out_of_fuel i url body err st h = elim (Option-cases (blocked_of err)) [
    | inl plain ↦ cc (rw (plain, settle) at h)
    | inr (ev, b) ↦ cc (rw (b, handle_block-unsolved (i + 1) url body ev st, settle) at h)
  ]

  module _ (cfg : Settings) where
    module _ (build : State W → Built × State W)
        (fed : (st : State W) → (build st).0 ≢ starved) where
      turn_goes_on :
          (i : ℕ) (st : State W)
          → ((e : GoError) → (turn io cfg build i st).0 ≢ solved e)
            × ((turn io cfg build i st).0 ≢ out_of_fuel)
      turn_goes_on i st =
          turn-by io cfg GoesOn (λ bad. (λ e h. cc, λ h. cc)) build i st
            (λ st' hungry. absurd (fed st' hungry))
            (λ before req st' made.
              exchange-by io cfg GoesOn (λ bad. (λ e h. cc, λ h. cc)) i req st'
                (λ now body ok. (λ e h. cc, λ h. cc))
                (λ url body err st''. (
                  λ e. settle-not-solved i url body err e st'',
                  settle-ne-out_of_fuel i url body err st'',
                )))
        where
          GoesOn : Next → Type 0
          GoesOn n = ((e : GoError) → n ≢ solved e) × (n ≢ out_of_fuel)

      retry_from-total :
          (fuel i : ℕ) (last : GoError) (st : State W)
          → 0 < fuel
          → cfg.retry_max < fuel + i + 1
          → (out : Outcome) × (run io cfg build fuel i last st ≡ some out)
      retry_from-total zero i last st some_fuel enough = absurd (omega arith)
      retry_from-total (suc fuel) i last st some_fuel enough =
          elim (turned io cfg build fuel i last st) [
            | over _ r ↦ (_, r)
            | ended out _ r ↦ (out, r)
            | again e _ s _ ↦ absurd ((turn_goes_on i st).0 e s)
            | dried_up s _ ↦ absurd ((turn_goes_on i st).1 s)
            | stopped e r ↦ (_, r)
            | onward e st' more r ↦
                rw r (retry_from-total fuel (i + 1) e st' (omega arith) (omega arith))
          ]

      -- Without a solver, and where the building of a request does not run out of fuel itself, as many
      -- turns as there are tries are enough for `doWithRetry` to return.
      pub do_with_retry-total :
          (fuel : ℕ) (st : State W)
          → 0 < fuel
          → cfg.retry_max ≤ fuel
          → (out : Outcome) × ((do_with_retry io cfg build fuel st).0 ≡ some out)
      unfolding do_with_retry
      do_with_retry-total fuel st some_fuel enough =
          retry_from-total fuel 0 nil st some_fuel (omega arith)

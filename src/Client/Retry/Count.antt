-- ===== src/Client/Retry/Count.antt =====
-- The requests that an attempt of `doWithRetry` sends besides its own: none, where there is no solver.
use goddgs.Prelude.{
  ℕ, ◌+◌, String, ◌≡◌, refl, inl, inr, Bool, true, false, Option, none, some, arith, Option-cases,
}
use goddgs.Prelude.Int.{ℤ}
use goddgs.Failure.{BlockedEvent}
use goddgs.Net.{HttpRequest}
use goddgs.Circuit.{CircuitSnapshot, snapshot, record_block, record_success}
use goddgs.Rate.{AdaptiveRateLimiter, on_block, on_success}
use goddgs.Proxy.{ProxyPool, mark_failed}
use goddgs.Client.{
  State, Io, Trigger, CircuitEvent, success_reset, threshold_reached, fail_fast, tell_circuit,
  tell_blocked, clear_all_vqd,
}
use goddgs.Client.Retry.{
  circuit_of, put_circuit, limit, mark, close_circuit, count_block, forget, try_solver,
  handle_block, handle_success, turned_away,
}

-- A count of the requests that were sent, which nothing but `send` changes.
pub record Meter {W : Type 0} (io : Io W) : Type 0 where
  pub count : W → ℕ
  pub send : (req : HttpRequest) (w : W) → count (io.send req w).1 ≡ count w + 1
  pub now : (w : W) → count (io.now w).1 ≡ count w
  pub sleep : (d : ℕ) (w : W) → count (io.sleep d w).1 ≡ count w
  pub backoff_delay : (d : ℤ) (w : W) → count (io.backoff_delay d w).1 ≡ count w
  pub gaussian : (w : W) → count (io.gaussian w).1 ≡ count w
  pub on_blocked :
      (f : BlockedEvent → W → W)
      → io.on_blocked ≡ some f
      → (ev : BlockedEvent) (w : W) → count (f ev w) ≡ count w
  pub on_circuit :
      (f : CircuitEvent → W → W)
      → io.on_circuit ≡ some f
      → (ev : CircuitEvent) (w : W) → count (f ev w) ≡ count w

module _ {W : Type 0} (io : Io W) (m : Meter io) where
  tell_circuit-count :
      (opens : Bool) (trigger : Trigger) (attempt : ℕ) (snap : CircuitSnapshot) (st : State W)
      → m.count (tell_circuit io opens trigger attempt snap st).world ≡ m.count st.world
  unfolding tell_circuit
  tell_circuit-count opens trigger attempt snap st = elim (Option-cases io.on_circuit) [
    | inl none_set ↦ rw (none_set, tell_circuit) refl
    | inr (f, e) ↦ rw (e, tell_circuit) (m.on_circuit f e _ st.world)
  ]

  tell_blocked-count :
      (ev : BlockedEvent) (st : State W) → m.count (tell_blocked io ev st).world ≡ m.count st.world
  unfolding tell_blocked
  tell_blocked-count ev st = elim (Option-cases io.on_blocked) [
    | inl none_set ↦ rw (none_set, tell_blocked) refl
    | inr (f, e) ↦ rw (e, tell_blocked) (m.on_blocked f e ev st.world)
  ]

  close_circuit-count :
      (attempt : ℕ) (st : State W) → m.count (close_circuit io attempt st).world ≡ m.count st.world
  unfolding close_circuit
  close_circuit-count attempt st = elim (Option-cases (circuit_of st)) [
    | inl nothing ↦ ground arith
    | inr (cb, e) ↦
        let (tested, w1) = io.now st.world in
        let r = record_success cb tested in
        ground (
          arith,
          m.now st.world,
          tell_circuit-count false success_reset attempt r.snap
              (put_circuit r.breaker (record st { world = w1 })),
        )
  ]

  count_block-count :
      (attempt : ℕ) (st : State W) → m.count (count_block io attempt st).world ≡ m.count st.world
  unfolding count_block
  count_block-count attempt st = elim (Option-cases (circuit_of st)) [
    | inl nothing ↦ ground arith
    | inr (cb, e) ↦
        let (tested, w1) = io.now st.world in
        let (set, w2) = io.now w1 in
        let r = record_block cb tested set in
        ground (
          arith,
          m.now st.world,
          m.now w1,
          tell_circuit-count true threshold_reached attempt r.snap
              (put_circuit r.breaker (record st { world = w2 })),
        )
  ]

  pub turned_away-count :
      (attempt : ℕ) (st : State W) → m.count (turned_away io attempt st).1.world ≡ m.count st.world
  unfolding turned_away
  turned_away-count attempt st = elim (Option-cases (circuit_of st)) [
    | inl nothing ↦ ground arith
    | inr (cb, e) ↦ ground (
      arith,
      m.now st.world,
      tell_circuit-count true fail_fast attempt (snapshot cb)
          (record st { world = (io.now st.world).1 }),
    )
  ]

  pub handle_success-count :
      (attempt : ℕ) (st : State W) → m.count (handle_success io attempt st).world ≡ m.count st.world
  unfolding handle_success limit mark
  handle_success-count attempt st =
      ground (arith, close_circuit-count attempt (limit io (on_success io.scale) st))

  forget-world : (st : State W) → (forget io st).world ≡ st.world
  unfolding forget clear_all_vqd
  forget-world st = ground arith

  limit-world :
      (f : AdaptiveRateLimiter → AdaptiveRateLimiter) (st : State W)
      → (limit io f st).world ≡ st.world
  unfolding limit
  limit-world f st = ground arith

  mark-world :
      (f : ProxyPool → Option ℕ → ProxyPool) (st : State W) → (mark io f st).world ≡ st.world
  unfolding mark
  mark-world f st = ground arith

  pub handle_block-count :
      io.solve ≡ none
      → (attempt : ℕ) (url body : String) (ev : BlockedEvent) (st : State W)
      → m.count (handle_block io attempt url body ev st).1.world ≡ m.count st.world
  unfolding handle_block try_solver
  handle_block-count unsolved attempt url body ev st =
      let st1 = tell_blocked io ev st in
      let st2 = count_block io attempt (limit io (on_block io.scale) st1) in
      let (at, w1) = io.now st2.world in
      let st3 = mark io (λ p e. mark_failed p e at) (record st2 { world = w1 }) in
      ground (
        arith,
        tell_blocked-count ev st,
        limit-world (on_block io.scale) st1,
        count_block-count attempt (limit io (on_block io.scale) st1),
        m.now st2.world,
        mark-world (λ p e. mark_failed p e at) (record st2 { world = w1 }),
        forget-world st3,
      )

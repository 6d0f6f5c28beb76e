-- ===== src/Client/Retry/Steps.antt =====
-- What an attempt of `doWithRetry` does to the anti-bot state, as steps.
use goddgs.Prelude.{
  ℕ, ◌+◌, String, ◌≡◌, refl, inl, inr, Bool, true, false, Option, none, some, arith, if◌then◌else◌,
  Option-cases,
}
use goddgs.Prelude.Int.{ℤ}
use goddgs.Failure.{BlockedEvent}
use goddgs.Circuit.{CircuitBreaker, CircuitSnapshot, snapshot, record_block, record_success}
use goddgs.Rate.{AdaptiveRateLimiter, on_block, on_success}
use goddgs.Proxy.{ProxyPool, mark_success, mark_failed}
use goddgs.Session.{invalidate}
use goddgs.Client.{
  AntiBotState, State, Io, Trigger, success_reset, threshold_reached, fail_fast, ChallengeSolution,
  tell_circuit, tell_blocked, apply_solution, clear_all_vqd,
}
use goddgs.Client.Retry.{
  change, map_option, circuit_of, put_circuit, limit, mark, close_circuit, count_block, forget,
  try_solver, handle_block, handle_success, turned_away,
}
use goddgs.Client.Retry.Changes.{
  Step, slowed, eased, worked, broke, counted, closed, forgot, here, Reach, Reach-trans, Reach-eq,
  once, Moves,
}

map_option-Reach :
    {scale : ℕ → ℕ → ℤ} (f : AntiBotState → AntiBotState) (o : Option AntiBotState)
    → ((a : AntiBotState) → o ≡ some a → Reach scale (some a) (some (f a)))
    → Reach scale o (map_option f o)
map_option-Reach f none steps = here
map_option-Reach f (some a) steps = steps a refl

if-Reach :
    {scale : ℕ → ℕ → ℤ} (b : Bool) {a a' : AntiBotState}
    → Step scale a a'
    → Reach scale (some a) (some (if b then a' else a))
if-Reach true step = once step
if-Reach false step = here

module _ {W : Type 0} where
  change-anti_bot :
      (f : AntiBotState → AntiBotState) (st : State W)
      → (change f st).anti_bot ≡ map_option f st.anti_bot
  change-anti_bot f st = ground arith

  pub change-Moves :
      {scale : ℕ → ℕ → ℤ} (f : AntiBotState → AntiBotState) (st : State W)
      → ((a : AntiBotState) → st.anti_bot ≡ some a → Reach scale (some a) (some (f a)))
      → Moves scale st (change f st)
  change-Moves f st steps = rw (change-anti_bot f st) (map_option-Reach f st.anti_bot steps)

  circuit-Moves :
      {scale : ℕ → ℕ → ℤ} (cb cb' : CircuitBreaker) (st : State W)
      → circuit_of st ≡ some cb
      → ((a : AntiBotState) → a.circuit ≡ some cb → Step scale a (record a { circuit = some cb' }))
      → Moves scale st (put_circuit cb' st)
  circuit-Moves cb cb' st has step = change-Moves _ st (λ a e. once (step a (ground arith)))

module _ {W : Type 0} (io : Io W) where
  tell_circuit-anti_bot :
      (opens : Bool) (trigger : Trigger) (attempt : ℕ) (snap : CircuitSnapshot) (st : State W)
      → (tell_circuit io opens trigger attempt snap st).anti_bot ≡ st.anti_bot
  unfolding tell_circuit
  tell_circuit-anti_bot opens trigger attempt snap st = ground arith

  tell_blocked-anti_bot :
      (ev : BlockedEvent) (st : State W) → (tell_blocked io ev st).anti_bot ≡ st.anti_bot
  unfolding tell_blocked
  tell_blocked-anti_bot ev st = ground arith

  apply_solution-anti_bot :
      (sol : ChallengeSolution) (st : State W) → (apply_solution io sol st).anti_bot ≡ st.anti_bot
  unfolding apply_solution
  apply_solution-anti_bot sol st = ground arith

  try_solver-anti_bot :
      (url body : String) (ev : BlockedEvent) (st : State W)
      → (try_solver io url body ev st).1.anti_bot ≡ st.anti_bot
  unfolding try_solver apply_solution
  try_solver-anti_bot url body ev st = ground arith

  limit-Moves :
      (f : AdaptiveRateLimiter → AdaptiveRateLimiter) (st : State W)
      → ((a : AntiBotState) → Step io.scale a (record a { rate_limit = map_option f a.rate_limit }))
      → Moves io.scale st (limit io f st)
  unfolding limit
  limit-Moves f st step = change-Moves _ st (λ a e. once (step a))

  mark-Moves :
      (f : ProxyPool → Option ℕ → ProxyPool) (st : State W)
      → ((a : AntiBotState) (via : Option ℕ)
          → Step io.scale a (record a { proxy_pool = map_option (λ p. f p via) a.proxy_pool }))
      → Moves io.scale st (mark io f st)
  unfolding mark
  mark-Moves f st step = change-Moves _ st (λ a e. if-Reach a.has_transport (step a _))

  close_circuit-Moves :
      (attempt : ℕ) (st : State W) → Moves io.scale st (close_circuit io attempt st)
  unfolding close_circuit
  close_circuit-Moves attempt st = elim (Option-cases (circuit_of st)) [
    | inl nothing ↦ Reach-eq (ground arith)
    | inr (cb, e) ↦
        let (tested, w1) = io.now st.world in
        let r = record_success cb tested in
        let same : (close_circuit io attempt st).anti_bot ≡ (put_circuit r.breaker st).anti_bot =
          ground (
            arith,
            tell_circuit-anti_bot false success_reset attempt r.snap
                (put_circuit r.breaker (record st { world = w1 })),
          ) in
        rw same (circuit-Moves cb r.breaker st e (λ a h. closed cb tested h))
  ]

  count_block-Moves : (attempt : ℕ) (st : State W) → Moves io.scale st (count_block io attempt st)
  unfolding count_block
  count_block-Moves attempt st = elim (Option-cases (circuit_of st)) [
    | inl nothing ↦ Reach-eq (ground arith)
    | inr (cb, e) ↦
        let (tested, w1) = io.now st.world in
        let (set, w2) = io.now w1 in
        let r = record_block cb tested set in
        let same : (count_block io attempt st).anti_bot ≡ (put_circuit r.breaker st).anti_bot =
          ground (
            arith,
            tell_circuit-anti_bot true threshold_reached attempt r.snap
                (put_circuit r.breaker (record st { world = w2 })),
          ) in
        rw same (circuit-Moves cb r.breaker st e (λ a h. counted cb tested set h))
  ]

  forget-Moves : (st : State W) → Moves io.scale st (forget io st)
  unfolding forget clear_all_vqd
  forget-Moves st =
      let drop : AntiBotState → AntiBotState = λ a.
        if a.session_invalidate_on_block
        then record a { session = map_option (invalidate a.jars) a.session; jars = a.jars + 1 }
        else a in
      let same : (forget io st).anti_bot ≡ map_option drop st.anti_bot = ground arith in
      rw same
        (map_option-Reach drop st.anti_bot (λ a e. if-Reach a.session_invalidate_on_block forgot))

  pub turned_away-Moves :
      (attempt : ℕ) (st : State W) → Moves io.scale st (turned_away io attempt st).1
  unfolding turned_away
  turned_away-Moves attempt st = elim (Option-cases (circuit_of st)) [
    | inl nothing ↦ Reach-eq (ground arith)
    | inr (cb, e) ↦ Reach-eq (
        ground (
          arith,
          tell_circuit-anti_bot true fail_fast attempt (snapshot cb)
              (record st { world = (io.now st.world).1 }),
        ))
  ]

  pub handle_success-Moves :
      (attempt : ℕ) (st : State W) → Moves io.scale st (handle_success io attempt st)
  unfolding handle_success
  handle_success-Moves attempt st =
      Reach-trans (limit-Moves (on_success io.scale) st (λ a. eased)) (
        Reach-trans (close_circuit-Moves attempt _)
          (mark-Moves mark_success _ (λ a via. worked via)))

  pub handle_block-Moves :
      (attempt : ℕ) (url body : String) (ev : BlockedEvent) (st : State W)
      → Moves io.scale st (handle_block io attempt url body ev st).1
  unfolding handle_block
  handle_block-Moves attempt url body ev st =
      let st1 = tell_blocked io ev st in
      let st2 = count_block io attempt (limit io (on_block io.scale) st1) in
      let (at, w1) = io.now st2.world in
      let st3 = mark io (λ p e. mark_failed p e at) (record st2 { world = w1 }) in
      elim (Option-cases st1.anti_bot) [
        | inl nothing ↦ Reach-eq (ground (arith, tell_blocked-anti_bot ev st))
        | inr (ab, e) ↦
            let same : (handle_block io attempt url body ev st).1.anti_bot
                ≡ (forget io st3).anti_bot =
              ground (arith, try_solver-anti_bot url body ev (forget io st3)) in
            rw same (
              Reach-trans (Reach-eq (tell_blocked-anti_bot ev st)) (
                Reach-trans (limit-Moves (on_block io.scale) st1 (λ a. slowed)) (
                  Reach-trans (count_block-Moves attempt _) (
                    Reach-trans
                      (mark-Moves (λ p e. mark_failed p e at) (record st2 { world = w1 })
                        (λ a via. broke via at))
                      (forget-Moves st3)))))
      ]

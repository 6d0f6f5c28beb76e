-- ===== src/Solver/Remote/Polling.antt =====
-- solver_2captcha.go and solver_capsolver.go: how the wait for a solution ends.
use goddgs.Prelude.{
  ℕ, zero, suc, ◌+◌, ◌*◌, ◌≤◌, ◌<◌, String, ◌≡◌, ◌≢◌, refl, ap, ◌∙◌, ◌⊎◌, inl, inr, true, false,
  none, some, arith, ltb, Bool-cases, returns,
}
use goddgs.Failure.{GoError, nil, is_nil}
use goddgs.Solver.Remote.{Remote, Progress, ready, pending, broken, poll_from, poll}

Progress-cases :
    (p : Progress)
    → ((token : String) × (p ≡ ready token)) ⊎ ((err : GoError) × (p ≡ broken err)) ⊎ (p ≡ pending)
Progress-cases (ready token) = inl (token, refl)
Progress-cases (broken err) = inr (inl (err, refl))
Progress-cases pending = inr (inr refl)

-- A clock for the world: it does not go back, and a timer that is not cancelled takes its time.
pub record Clocked {W : Type 0} (net : Remote W) (question : W → Progress × W) (time : W → ℕ)
    : Type 0 where
  pub reads : (w : W) → (net.now w).0 ≡ time w
  pub read_after : (w : W) → time w ≤ time (net.now w).1
  pub rests :
      (d : ℕ) (w : W) → is_nil (net.sleep d w).0 ≡ true → time w + d ≤ time (net.sleep d w).1
  pub asks : (w : W) → time w ≤ time (question w).1

module _ {W : Type 0} (net : Remote W) (question : W → Progress × W) where
  module _ (time : W → ℕ) (clock : Clocked net question time) (interval timeout deadline : ℕ) where
    -- The time after a turn, and what is left of the wait.
    turn_takes :
        (w : W)
        → is_nil (net.sleep interval (net.now w).1).0 ≡ true
        → time w + interval ≤ time (question (net.sleep interval (net.now w).1).1).1
    turn_takes w awake =
        let awoken = clock.rests interval (net.now w).1 awake in
        let asked = clock.asks (net.sleep interval (net.now w).1).1 in
        let read = clock.read_after w in omega arith

    turn-ne-none :
        (fuel : ℕ) (w : W)
        → (ltb deadline (net.now w).0 ≡ false
            → is_nil (net.sleep interval (net.now w).1).0 ≡ true
            → (poll_from net interval timeout deadline question fuel
                (question (net.sleep interval (net.now w).1).1).1).0
              ≢ none)
        → (poll_from net interval timeout deadline question (suc fuel) w).0 ≢ none
    unfolding poll_from
    turn-ne-none fuel w next h =
        let (at, w1) = net.now w in
        let (stopped, w2) = net.sleep interval w1 in
        let (answer, w3) = question w2 in
        elim (Bool-cases (ltb deadline at)) [
          | inl late ↦ cc (rw (late, poll_from) at h)
          | inr early ↦ elim (Bool-cases (is_nil stopped)) [
            | inr cancelled ↦ cc (rw (early, cancelled, poll_from) at h)
            | inl awake ↦ elim (Progress-cases answer) [
              | inl (token, e) ↦ cc (rw (early, awake, e, poll_from) at h)
              | inr (inl (err, e)) ↦ cc (rw (early, awake, e, poll_from) at h)
              | inr (inr e) ↦ next early awake (rw (early, awake, e, poll_from) at h)
            ]
          ]
        ]

    poll_from-ne-none :
        (fuel : ℕ) (w : W)
        → deadline < time w + fuel * interval
        → (poll_from net interval timeout deadline question (suc fuel) w).0 ≢ none
    poll_from-ne-none zero w enough =
        turn-ne-none zero w (λ early awake. absurd (ground (arith, early, clock.reads w)))
    poll_from-ne-none (suc fuel) w enough =
        turn-ne-none (suc fuel) w
          (λ early awake. poll_from-ne-none fuel _ (omega (arith, turn_takes w awake)))

  -- With a clock that runs, the wait for an answer that a service keeps putting off ends: turns that
  -- take longer than the timeout together, and one more, are enough for the loop to return.
  pub poll-total :
      (time : W → ℕ) (clock : Clocked net question time) (interval timeout fuel : ℕ) (w : W)
      → timeout < fuel * interval
      → (out : String × GoError) × ((poll net interval timeout question (suc fuel) w).0 ≡ some out)
  unfolding poll
  poll-total time clock interval timeout fuel w enough =
      let now = clock.reads w in
      let then_ = clock.read_after w in
      returns _ (
        poll_from-ne-none time clock interval timeout ((net.now w).0 + timeout) fuel (net.now w).1
          (omega arith))

  pub poll_from-ready :
      (honest : (w : W) → (question w).0 ≢ broken nil) (interval timeout deadline fuel : ℕ) (w : W)
      (token : String)
      → (poll_from net interval timeout deadline question fuel w).0 ≡ some (token, nil)
      → (w' : W) × ((question w').0 ≡ ready token)
  unfolding poll_from
  poll_from-ready honest interval timeout deadline zero w token h = cc
  poll_from-ready honest interval timeout deadline (suc fuel) w token h =
      let (at, w1) = net.now w in
      let (stopped, w2) = net.sleep interval w1 in
      let (answer, w3) = question w2 in
      elim (Bool-cases (ltb deadline at)) [
        | inl late ↦ cc (rw (late, poll_from) at h)
        | inr early ↦ elim (Bool-cases (is_nil stopped)) [
          | inr cancelled ↦
              let quiet : stopped ≡ nil = cc (rw (early, cancelled, poll_from) at h) in
              cc (ap is_nil quiet)
          | inl awake ↦ elim (Progress-cases answer) [
            | inl (text, e) ↦ (w2, e ∙ ap ready (cc (rw (early, awake, e, poll_from) at h)))
            | inr (inl (err, e)) ↦
                absurd (honest w2 (e ∙ ap broken (cc (rw (early, awake, e, poll_from) at h))))
            | inr (inr e) ↦
                poll_from-ready honest interval timeout deadline fuel w3 token
                  (rw (early, awake, e, poll_from) at h)
          ]
        ]
      ]

-- ===== src/Client/Loop/Steps.antt =====
-- What `doWithRetry` does to the anti-bot state, as steps.
use goddgs.Prelude.{
  ℕ, zero, suc, ◌+◌, ◌*◌, String, ◌≡◌, refl, inl, inr, ◌&&◌, some, arith, ltb, Bool-cases,
  Option-cases,
}
use goddgs.Prelude.Int.{int64, pos_part}
use goddgs.Failure.{GoError, nil, is_nil}
use goddgs.Net.{HttpRequest}
use goddgs.Rate.{wait}
use goddgs.Client.{State, Settings, Io, wait_for_turn, sleep_backoff}
use goddgs.Client.Retry.{judge, blocked_of, limiter_of, change, handle_block, turned_away}
use goddgs.Client.Retry.Changes.{waited, here, once, Reach-trans, Reach-eq, Moves}
use goddgs.Client.Retry.Steps.{
  change-Moves, turned_away-Moves, handle_success-Moves, handle_block-Moves,
}
use goddgs.Client.Loop.{Built, settle, pace, heed, exchange, turn, retry_from, do_with_retry}
use goddgs.Client.Loop.Cases.{Next-cases, Verdict-cases, Built-cases}

module _ {W : Type 0} (io : Io W) where
  settle-Moves :
      (i : ℕ) (url body : String) (err : GoError) (st : State W)
      → Moves io.scale st (settle io i url body err st).1
  unfolding settle
  settle-Moves i url body err st = elim (Option-cases (blocked_of err)) [
    | inl plain ↦ Reach-eq (ground arith)
    | inr (ev, e) ↦
        let same : (settle io i url body err st).1.anti_bot
            ≡ (handle_block io (i + 1) url body ev st).1.anti_bot =
          ground arith in
        rw same (handle_block-Moves io (i + 1) url body ev st)
  ]

module _ {W : Type 0} (io : Io W) (cfg : Settings) where
  wait_for_turn-anti_bot : (st : State W) → (wait_for_turn io cfg st).1.anti_bot ≡ st.anti_bot
  unfolding wait_for_turn
  wait_for_turn-anti_bot st = ground arith

  sleep_backoff-anti_bot :
      (i : ℕ) (st : State W) → (sleep_backoff io cfg i st).1.anti_bot ≡ st.anti_bot
  unfolding sleep_backoff
  sleep_backoff-anti_bot i st = refl

  pace-Moves : (st : State W) → Moves io.scale st (pace io cfg st).1
  unfolding pace
  pace-Moves st = elim (Option-cases (limiter_of st)) [
    | inl nothing ↦ Reach-eq (ground (arith, wait_for_turn-anti_bot st))
    | inr (r, e) ↦
        let (gaussian, w1) = io.gaussian st.world in
        let (now, w2) = io.now w1 in
        let slot = (wait io.scale gaussian now r).limiter in
        let same : (pace io cfg st).1.anti_bot
            ≡ (change (λ a. record a { rate_limit = some slot }) st).anti_bot =
          ground arith in
        rw same (change-Moves _ st (λ a h. once (waited r gaussian now (ground arith))))
  ]

  heed-Moves :
      (i : ℕ) (url : String) (err : GoError) (body : String) (secs : ℕ) (st : State W)
      → Moves io.scale st (heed io cfg i url err body secs st).1
  unfolding heed
  heed-Moves i url err body secs st =
      let (stopped, w1) = io.sleep (pos_part (int64 (secs * 1_000_000_000))) st.world in
      let st1 = record st { world = w1 } in
      elim (Bool-cases (ltb 0 secs && ltb (i + 1) cfg.retry_max)) [
        | inr now ↦ rw (now, heed) (settle-Moves io i url body err st)
        | inl later ↦ elim (Bool-cases (is_nil stopped)) [
          | inl awake ↦ rw (later, awake, heed) (settle-Moves io i url body err st1)
          | inr asleep ↦ rw (later, asleep, heed) here
        ]
      ]

  exchange-Moves :
      (i : ℕ) (req : HttpRequest) (st : State W) → Moves io.scale st (exchange io cfg i req st).1
  unfolding exchange
  exchange-Moves i req st =
      let (reply, w1) = io.send req st.world in
      let (now, w2) = io.now w1 in
      let st1 = record st { world = w2 } in
      elim (Verdict-cases (judge io cfg now (i + 1) reply)) [
        | inl (body, e) ↦ rw (e, exchange) (handle_success-Moves io (i + 1) st1)
        | inr (inl (err, e)) ↦ rw (e, exchange) here
        | inr (inr (err, body, secs, e)) ↦ rw (e, exchange) (heed-Moves i req.url err body secs st1)
      ]

  module _ (build : State W → Built × State W)
      (builds : (st : State W) → Moves io.scale st (build st).1) where
    turn-Moves : (i : ℕ) (st : State W) → Moves io.scale st (turn io cfg build i st).1
    unfolding turn
    turn-Moves i st =
        let (away, st1) = turned_away io (i + 1) st in
        let (err, st2) = pace io cfg st1 in
        let (built, st3) = build st2 in
        let to1 = turned_away-Moves io (i + 1) st in
        let to2 = Reach-trans to1 (pace-Moves st1) in
        let to3 = Reach-trans to2 (builds st2) in
        elim (Bool-cases away) [
          | inl shut ↦ rw (shut, turn) to1
          | inr let_in ↦ elim (Bool-cases (is_nil err)) [
            | inr cut ↦ rw (let_in, cut, turn) to2
            | inl paced ↦ elim (Built-cases built) [
              | inl (req, e) ↦
                  rw (let_in, paced, e, turn) (Reach-trans to3 (exchange-Moves i req st3))
              | inr (inl (bad, e)) ↦ rw (let_in, paced, e, turn) to3
              | inr (inr e) ↦ rw (let_in, paced, e, turn) to3
            ]
          ]
        ]

    retry_from-Moves :
        (fuel i : ℕ) (last : GoError) (st : State W)
        → Moves io.scale st (retry_from io cfg build fuel i last st).1
    unfolding retry_from
    retry_from-Moves zero i last st = here
    retry_from-Moves (suc fuel) i last st =
        let st1 = (turn io cfg build i st).1 in
        let (halted, st2) = sleep_backoff io cfg i st1 in
        let to1 = turn-Moves i st in
        let to2 = Reach-trans to1 (Reach-eq (sleep_backoff-anti_bot i st1)) in
        elim (Bool-cases (ltb i cfg.retry_max)) [
          | inr late ↦ Reach-eq (ground (arith, late))
          | inl early ↦ elim (Next-cases (turn io cfg build i st).0) [
            | inl (out, e) ↦ rw (early, e, retry_from) to1
            | inr (inl (err, e)) ↦
                rw (early, e, retry_from) (Reach-trans to1 (retry_from-Moves fuel i err st1))
            | inr (inr (inr e)) ↦ rw (early, e, retry_from) to1
            | inr (inr (inl (err, e))) ↦ elim (Bool-cases (ltb (i + 1) cfg.retry_max)) [
              | inr last_one ↦ rw (early, e, last_one, retry_from) to1
              | inl more ↦ elim (Bool-cases (is_nil halted)) [
                | inr woken ↦ rw (early, e, more, woken, retry_from) to2
                | inl slept ↦
                    rw (early, e, more, slept, retry_from)
                      (Reach-trans to2 (retry_from-Moves fuel (i + 1) err st2))
              ]
            ]
          ]
        ]

    -- `doWithRetry` changes the anti-bot state by steps only, where the building of its requests does.
    pub do_with_retry-Moves :
        (fuel : ℕ) (st : State W) → Moves io.scale st (do_with_retry io cfg build fuel st).1
    unfolding do_with_retry
    do_with_retry-Moves fuel st = retry_from-Moves fuel 0 nil st

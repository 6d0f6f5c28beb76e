-- ===== src/Client/Loop/Count.antt =====
-- How many requests `doWithRetry` sends, where there is no solver.
use goddgs.Prelude.{
  ℕ, zero, suc, ◌+◌, ◌-◌, ◌*◌, ◌^◌, ◌≤◌, String, ◌≡◌, ◌≢◌, ◌∙◌, inl, inr, false, ◌&&◌, none, some,
  arith, ltb, Bool-cases, Option-cases,
}
use goddgs.Prelude.Int.{int64, pos_part}
use goddgs.Failure.{GoError, nil, is_nil}
use goddgs.Net.{HttpRequest}
use goddgs.Rate.{wait}
use goddgs.Client.{AntiBotState, State, Settings, Io, wait_for_turn, sleep_backoff, pause}
use goddgs.Client.Retry.{judge, blocked_of, limiter_of, change, turned_away}
use goddgs.Client.Retry.Count.{Meter, turned_away-count, handle_success-count, handle_block-count}
use goddgs.Client.Loop.{
  solved, Built, settle, pace, heed, exchange, turn, retry_from, do_with_retry,
}
use goddgs.Client.Loop.Fuel.{settle-not-solved}
use goddgs.Client.Loop.Cases.{turn-by, exchange-by, Next-cases, Verdict-cases, Built-cases}

module _ {W : Type 0} (io : Io W) (m : Meter io) where
  change-world : (f : AntiBotState → AntiBotState) (st : State W) → (change f st).world ≡ st.world
  change-world f st = ground arith

  pause-count : (d : ℕ) (w : W) → m.count (pause io d w).1 ≡ m.count w
  pause-count d w = ground (arith, m.sleep d w)

  module _ (cfg : Settings) where
    wait_for_turn-count :
        (st : State W) → m.count (wait_for_turn io cfg st).1.world ≡ m.count st.world
    unfolding wait_for_turn
    wait_for_turn-count st =
        let (now, w1) = io.now st.world in
        let d = st.last_req + pos_part cfg.min_gap - now in
        ground (arith, m.now st.world, pause-count d w1, m.now (pause io d w1).1)

    sleep_backoff-count :
        (i : ℕ) (st : State W) → m.count (sleep_backoff io cfg i st).1.world ≡ m.count st.world
    unfolding sleep_backoff
    sleep_backoff-count i st =
        let back = int64 (cfg.base_delay * 2 ^ i) in
        let (d, w1) = io.backoff_delay back st.world in
        pause-count (pos_part d) w1 ∙ m.backoff_delay back st.world

    pace-count : (st : State W) → m.count (pace io cfg st).1.world ≡ m.count st.world
    unfolding pace
    pace-count st = elim (Option-cases (limiter_of st)) [
      | inl nothing ↦ ground (arith, wait_for_turn-count st)
      | inr (r, e) ↦
          let (gaussian, w1) = io.gaussian st.world in
          let (now, w2) = io.now w1 in
          let waited = wait io.scale gaussian now r in
          let (err, w3) = pause io waited.wait w2 in
          ground (
            arith,
            m.gaussian st.world,
            m.now w1,
            pause-count waited.wait w2,
            change-world (λ ab. record ab { rate_limit = some waited.limiter })
                (record st { world = w3 }),
          )
    ]

    module _ (unsolved : io.solve ≡ none) where
      settle-count :
          (i : ℕ) (url body : String) (err : GoError) (st : State W)
          → m.count (settle io i url body err st).1.world ≡ m.count st.world
      unfolding settle
      settle-count i url body err st = elim (Option-cases (blocked_of err)) [
        | inl plain ↦ ground arith
        | inr (ev, e) ↦ ground (arith, handle_block-count io m unsolved (i + 1) url body ev st)
      ]

      heed-count :
          (i : ℕ) (url : String) (err : GoError) (body : String) (secs : ℕ) (st : State W)
          → m.count (heed io cfg i url err body secs st).1.world ≡ m.count st.world
      unfolding heed
      heed-count i url err body secs st =
          let d = pos_part (int64 (secs * 1_000_000_000)) in
          let (stopped, w1) = io.sleep d st.world in
          let st1 = record st { world = w1 } in
          let slept = m.sleep d st.world in
          elim (Bool-cases (ltb 0 secs && ltb (i + 1) cfg.retry_max)) [
            | inr now ↦ rw (now, heed) (settle-count i url body err st)
            | inl later ↦ elim (Bool-cases (is_nil stopped)) [
              | inl awake ↦ rw (later, awake, heed) (settle-count i url body err st1 ∙ slept)
              | inr asleep ↦ rw (later, asleep, heed) slept
            ]
          ]

      exchange-count :
          (i : ℕ) (req : HttpRequest) (st : State W)
          → m.count (exchange io cfg i req st).1.world ≡ m.count st.world + 1
      unfolding exchange
      exchange-count i req st =
          let (reply, w1) = io.send req st.world in
          let (now, w2) = io.now w1 in
          let st1 = record st { world = w2 } in
          let sent = m.now w1 ∙ m.send req st.world in
          elim (Verdict-cases (judge io cfg now (i + 1) reply)) [
            | inl (body, e) ↦ rw (e, exchange) (handle_success-count io m (i + 1) st1 ∙ sent)
            | inr (inl (err, e)) ↦ rw (e, exchange) sent
            | inr (inr (err, body, secs, e)) ↦
                rw (e, exchange) (heed-count i req.url err body secs st1 ∙ sent)
          ]

      turn-not-solved :
          (build : State W → Built × State W) (i : ℕ) (st : State W) (e : GoError)
          → (turn io cfg build i st).0 ≢ solved e
      turn-not-solved build i st e =
          turn-by io cfg (λ n. n ≢ solved e) (λ bad h. cc) build i st (λ st' hungry h. cc)
            (λ before req st' made.
              exchange-by io cfg (λ n. n ≢ solved e) (λ bad h. cc) i req st' (λ now body ok h. cc)
                (λ url body err st''. settle-not-solved io unsolved i url body err e st''))

      module _ (build : State W → Built × State W) (b : ℕ)
          (builds : (st : State W) → m.count (build st).1.world ≤ m.count st.world + b) where
        turn-count :
            (i : ℕ) (st : State W)
            → m.count (turn io cfg build i st).1.world ≤ m.count st.world + (b + 1)
        unfolding turn
        turn-count i st =
            let (away, st1) = turned_away io (i + 1) st in
            let (err, st2) = pace io cfg st1 in
            let (built, st3) = build st2 in
            let to1 = turned_away-count io m (i + 1) st in
            let to2 = pace-count st1 in
            let to3 = builds st2 in
            elim (Bool-cases away) [
              | inl shut ↦ rw (shut, turn) (omega (arith, to1))
              | inr let_in ↦ elim (Bool-cases (is_nil err)) [
                | inr cut ↦ rw (let_in, cut, turn) (omega (arith, to1, to2))
                | inl paced ↦ elim (Built-cases built) [
                  | inl (req, e) ↦
                      rw (let_in, paced, e, turn)
                        (omega (arith, to1, to2, to3, exchange-count i req st3))
                  | inr (inl (bad, e)) ↦ rw (let_in, paced, e, turn) (omega (arith, to1, to2, to3))
                  | inr (inr e) ↦ rw (let_in, paced, e, turn) (omega (arith, to1, to2, to3))
                ]
              ]
            ]

        retry_from-count :
            (fuel i left : ℕ) (last : GoError) (st : State W)
            → cfg.retry_max ≤ i + left
            → m.count (retry_from io cfg build fuel i last st).1.world
              ≤ m.count st.world + left * (b + 1)
        unfolding retry_from
        retry_from-count zero i left last st h = omega arith
        retry_from-count (suc fuel) i zero last st h =
            let late : ltb i cfg.retry_max ≡ false = ground arith in
            rw (late, retry_from) (omega arith)
        retry_from-count (suc fuel) i (suc left) last st h =
            let st1 = (turn io cfg build i st).1 in
            let (halted, st2) = sleep_backoff io cfg i st1 in
            let to1 = turn-count i st in
            let to2 = sleep_backoff-count i st1 in
            elim (Bool-cases (ltb i cfg.retry_max)) [
              | inr late ↦ rw (late, retry_from) (omega arith)
              | inl early ↦ elim (Next-cases (turn io cfg build i st).0) [
                | inl (out, e) ↦ rw (early, e, retry_from) (omega (arith, to1))
                | inr (inl (err, e)) ↦ absurd (turn-not-solved build i st err e)
                | inr (inr (inr e)) ↦ rw (early, e, retry_from) (omega (arith, to1))
                | inr (inr (inl (err, e))) ↦ elim (Bool-cases (ltb (i + 1) cfg.retry_max)) [
                  | inr last_one ↦ rw (early, e, last_one, retry_from) (omega (arith, to1))
                  | inl more ↦ elim (Bool-cases (is_nil halted)) [
                    | inr woken ↦ rw (early, e, more, woken, retry_from) (omega (arith, to1, to2))
                    | inl slept ↦
                        rw (early, e, more, slept, retry_from)
                          (omega (
                            arith,
                            to1,
                            to2,
                            retry_from-count fuel (i + 1) left err st2 (omega arith),
                          ))
                  ]
                ]
              ]
            ]

        -- Without a solver `doWithRetry` makes at most as many requests as it has tries, and those that
        -- the building of a request takes.
        pub do_with_retry-count :
            (fuel : ℕ) (st : State W)
            → m.count (do_with_retry io cfg build fuel st).1.world
              ≤ m.count st.world + cfg.retry_max * (b + 1)
        unfolding do_with_retry
        do_with_retry-count fuel st = retry_from-count fuel 0 cfg.retry_max nil st (omega arith)

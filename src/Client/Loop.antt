-- ===== src/Client/Loop.antt =====
-- client.go: the loop of `doWithRetry`. It runs on fuel, since a turn after which a solver helped
-- does not count against the number of tries.
pub mod Cases
pub mod Fuel
pub mod Answers
pub mod Steps
pub mod Count
use goddgs.Prelude.{
  ℕ, zero, suc, ◌+◌, ◌*◌, String, Bool, true, false, ◌&&◌, not, Option, none, some, ltb,
  if◌then◌else◌,
}
use goddgs.Prelude.Int.{int64, pos_part}
use goddgs.Failure.{GoError, nil, is_nil, sentinel, err_circuit_open}
use goddgs.Net.{HttpRequest}
use goddgs.Rate.{wait}
use goddgs.Client.{State, Settings, Io, pause, wait_for_turn, sleep_backoff}
use goddgs.Client.Retry.{
  Verdict, accepted, refused, troubled, blocked_of, judge, change, limiter_of, handle_block,
  handle_success, turned_away,
}

-- What a call returns: a body or an error.
pub data Outcome : Type 0 where
  got : String → Outcome
  gave_up : GoError → Outcome

-- The pair that the outcome stands for.
abbrev pub returned : Outcome → String × GoError
returned (got body) = (body, nil)
returned (gave_up err) = ("", err)

-- What a turn of the loop leads to; `solved` and `failed` carry `lastErr`. A turn whose request needs
-- a loop of its own runs out of fuel when that loop does.
pub data Next : Type 0 where
  finished : Outcome → Next
  solved : GoError → Next
  failed : GoError → Next
  out_of_fuel : Next

-- What `buildReq` returns.
pub data Built : Type 0 where
  request : HttpRequest → Built
  no_request : GoError → Built
  starved : Built

module _ {W : Type 0} (io : Io W) where
  -- The handling of `lastErr` at the end of attempt `i`: a block is reported, and may be solved.
  pub settle : ℕ → String → String → GoError → State W → Next × State W
  settle i url body err st = elim (blocked_of err) [
    | none ↦ (failed err, st)
    | some ev ↦
        let (helped, st1) = handle_block io (i + 1) url body ev st in
        (if helped then solved err else failed err, st1)
  ]

module _ {W : Type 0} (io : Io W) (cfg : Settings) where
  -- The wait before an attempt: the rate limiter's, or `waitForTurn`.
  pub pace : State W → GoError × State W
  pace st = elim (limiter_of st) [
    | none ↦ wait_for_turn io cfg st
    | some r ↦
        let (gaussian, w1) = io.gaussian st.world in
        let (now, w2) = io.now w1 in
        let waited = wait io.scale gaussian now r in
        let (err, w3) = pause io waited.wait w2 in
        (
          err,
          change (λ ab. record ab { rate_limit = some waited.limiter }) (record st { world = w3 }),
        )
  ]

  -- The wait that `Retry-After` asks for, where another attempt follows; a timer for a duration that
  -- is not positive fires at once.
  pub heed : ℕ → String → GoError → String → ℕ → State W → Next × State W
  unfolding settle int64
  heed i url err body secs st =
      let (stopped, w1) = io.sleep (pos_part (int64 (secs * 1_000_000_000))) st.world in
      let st1 = record st { world = w1 } in
      if ltb 0 secs && ltb (i + 1) cfg.retry_max
      then (if is_nil stopped
          then settle io i url body err st1
          else (finished (gave_up stopped), st1))
      else settle io i url body err st

  -- An attempt from its request on.
  pub exchange : ℕ → HttpRequest → State W → Next × State W
  unfolding heed
  exchange i req st =
      let (reply, w1) = io.send req st.world in
      let (now, w2) = io.now w1 in
      let st1 = record st { world = w2 } in
      elim (judge io cfg now (i + 1) reply) [
        | accepted body ↦ (finished (got body), handle_success io (i + 1) st1)
        | refused err ↦ (finished (gave_up err), st1)
        | troubled err body secs ↦ heed i req.url err body secs st1
      ]

  module _ (build : State W → Built × State W) where
    -- One turn of the loop.
    unfoldable pub turn : ℕ → State W → Next × State W
    unfolding pace exchange
    turn i st =
        let (away, st1) = turned_away io (i + 1) st in
        let (err, st2) = pace st1 in
        let (built, st3) = build st2 in
        if away
        then (finished (gave_up (sentinel err_circuit_open)), st1)
        else if is_nil err
        then elim built [
          | no_request e ↦ (finished (gave_up e), st3)
          | request req ↦ exchange i req st3
          | starved ↦ (out_of_fuel, st3)
        ]
        else (finished (gave_up err), st2)

    -- The loop from attempt `i` on; `none` when the fuel is used up.
    unfoldable pub retry_from : ℕ → ℕ → GoError → State W → Option Outcome × State W
    retry_from zero i last st = (none, st)
    retry_from (suc fuel) i last st = elim (ltb i cfg.retry_max) [
      | false ↦ (some (gave_up last), st)
      | true ↦
          let (next, st1) = turn i st in
          elim next [
            | finished out ↦ (some out, st1)
            | out_of_fuel ↦ (none, st1)
            | solved err ↦ retry_from fuel i err st1
            | failed err ↦
                let (stopped, st2) = sleep_backoff io cfg i st1 in
                elim (ltb (i + 1) cfg.retry_max) [
                  | false ↦ (some (gave_up err), st1)
                  | true ↦ elim (is_nil stopped) [
                    | false ↦ (some (gave_up stopped), st2)
                    | true ↦ retry_from fuel (i + 1) err st2
                  ]
                ]
          ]
    ]

    -- `doWithRetry`.
    unfoldable pub do_with_retry : ℕ → State W → Option Outcome × State W
    unfolding retry_from
    do_with_retry fuel st = retry_from fuel 0 nil st

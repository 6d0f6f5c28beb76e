-- ===== src/Client/Retry.antt =====
-- client.go: what an attempt of `doWithRetry` does with its response and with the anti-bot state.
pub mod Changes
pub mod Steps
pub mod Count
use text.Mathlib.Text.{◌==◌ as str_eq}
use goddgs.Prelude.{
  ℕ, ◌+◌, String, Bool, true, false, ◌&&◌, ◌||◌, not, Option, none, some, List, [], ◌∷◌, ltb, leb,
  ◌==◌, if◌then◌else◌,
}
use goddgs.Prelude.Text.{trim_space}
use goddgs.Prelude.Format.{concat, decimal}
use goddgs.Failure.{GoError, is_nil, BlockedEvent, blocked_error, message}
use goddgs.Net.{HttpResponse, Reply, response, do_error}
use goddgs.Detect.{detect_block_signal, retry_after_seconds}
use goddgs.Circuit.{CircuitBreaker, is_open, snapshot, record_block, record_success}
use goddgs.Rate.{AdaptiveRateLimiter, on_block, on_success}
use goddgs.Proxy.{ProxyPool, mark_success, mark_failed}
use goddgs.Session.{invalidate}
use goddgs.Client.{
  AntiBotState, State, Settings, Io, fail_fast, threshold_reached, success_reset, tell_circuit,
  tell_blocked, apply_solution, clear_all_vqd, blocked_detector,
}

-- What the response of an attempt comes to: a body, an error that ends the call, or `lastErr` with
-- `lastBody` and the seconds that `Retry-After` asks for.
pub data Verdict : Type 0 where
  accepted : String → Verdict
  refused : GoError → Verdict
  troubled : GoError → String → ℕ → Verdict

abbrev pub is_in : ℕ → List ℕ → Bool
is_in n [] = false
is_in n (m ∷ ms) = if n == m then true else is_in n ms

-- `lastErr.(*BlockedError)`.
abbrev pub blocked_of : GoError → Option BlockedEvent
blocked_of (blocked_error ev) = some ev
blocked_of _ = none

module _ {W : Type 0} (io : Io W) where
  -- The `BlockedEvent` that the loop makes of a response.
  unfoldable blocked_event : HttpResponse → String → ℕ → BlockedEvent
  blocked_event resp detector attempt = record {
    status_code = resp.status_code;
    headers = resp.headers;
    body_snippet = io.snippet resp.body;
    detector = detector;
    attempt = attempt;
  }

module _ {W : Type 0} (io : Io W) (cfg : Settings) where
  -- The tests on the response of attempt `attempt`, at the time `now`.
  unfoldable pub judge : ℕ → ℕ → Reply → Verdict
  unfolding blocked_event
  judge now attempt (do_error err) = troubled err "" 0
  judge now attempt (response resp read_err) =
      let det = blocked_detector io.matches cfg.blocked_re resp.body in
      if not (is_nil read_err)
      then troubled read_err resp.body 0
      else if is_in resp.status_code cfg.blocked
      then troubled (blocked_error (blocked_event io resp "status" attempt)) resp.body
          (retry_after_seconds io.scan_int io.parse_time now resp.headers)
      else if leb 200 resp.status_code && ltb resp.status_code 300
      then (if str_eq det ""
          then accepted resp.body
          else troubled (blocked_error (blocked_event io resp det attempt)) resp.body 0)
      else if resp.status_code == 429 || leb 500 resp.status_code
      then troubled (message (concat ("http " ∷ decimal resp.status_code ∷ []))) resp.body 0
      else refused
          (message (concat ("http " ∷ decimal resp.status_code ∷ ": " ∷ trim_space resp.body ∷ [])))

abbrev pub change : {W : Type 0} → (AntiBotState → AntiBotState) → State W → State W
change f st = elim st.anti_bot [ none ↦ st | some ab ↦ record st { anti_bot = some (f ab) } ]

abbrev pub map_option {ℓ} : {A : Type ℓ} → (A → A) → Option A → Option A
map_option f none = none
map_option f (some a) = some (f a)

abbrev or_none {ℓ κ} : {A : Type ℓ} {B : Type κ} → Option A → (A → Option B) → Option B
or_none none f = none
or_none (some a) f = f a

-- The breaker of the anti-bot state, where there is one.
abbrev pub circuit_of : {W : Type 0} → State W → Option CircuitBreaker
circuit_of st = or_none st.anti_bot (λ ab. ab.circuit)

abbrev pub limiter_of : {W : Type 0} → State W → Option AdaptiveRateLimiter
limiter_of st = or_none st.anti_bot (λ ab. ab.rate_limit)

abbrev put_circuit : {W : Type 0} → CircuitBreaker → State W → State W
put_circuit cb st = change (λ ab. record ab { circuit = some cb }) st

module _ {W : Type 0} (io : Io W) where
  -- The rate limiter and the proxy pool on a success and on a block.
  limit : (AdaptiveRateLimiter → AdaptiveRateLimiter) → State W → State W
  limit f st = change (λ ab. record ab { rate_limit = map_option f ab.rate_limit }) st

  mark : (ProxyPool → Option ℕ → ProxyPool) → State W → State W
  mark f st =
      let last = io.last_proxy st.world in
      change
        (λ ab.
          if ab.has_transport
          then record ab { proxy_pool = map_option (λ p. f p last) ab.proxy_pool }
          else ab)
        st

  -- `RecordSuccess` and `RecordBlock` with the event that a change of the breaker causes.
  close_circuit : ℕ → State W → State W
  close_circuit attempt st = elim (circuit_of st) [
    | none ↦ st
    | some cb ↦
        let (tested, w1) = io.now st.world in
        let r = record_success cb tested in
        let st1 = put_circuit r.breaker (record st { world = w1 }) in
        if r.changed then tell_circuit io false success_reset attempt r.snap st1 else st1
  ]

  count_block : ℕ → State W → State W
  count_block attempt st = elim (circuit_of st) [
    | none ↦ st
    | some cb ↦
        let (tested, w1) = io.now st.world in
        let (set, w2) = io.now w1 in
        let r = record_block cb tested set in
        let st1 = put_circuit r.breaker (record st { world = w2 }) in
        if r.changed then tell_circuit io true threshold_reached attempt r.snap st1 else st1
  ]

  -- The rest of the handling of a block, before the solver: the tokens and the session.
  forget : State W → State W
  forget st = elim st.anti_bot [
    | none ↦ st
    | some ab ↦
        let st1 = if ab.vqd_invalidate_on_block then clear_all_vqd st else st in
        if ab.session_invalidate_on_block
        then change
            (λ a. record a {
              session = map_option (invalidate a.jars) a.session;
              jars = a.jars + 1;
            })
            st1
        else st1
  ]

  -- The solver, which only a client with an anti-bot state has.
  unfoldable pub try_solver : String → String → BlockedEvent → State W → Bool × State W
  try_solver url body ev st = elim io.solve [
    | none ↦ (false, st)
    | some solve ↦
        let info = detect_block_signal io.lower io.matches ev.status_code ev.headers body in
        let (answer, w1) = solve url info body st.world in
        elim answer [
          | none ↦ (false, record st { world = w1 })
          | some sol ↦ (true, apply_solution io sol (record st { world = w1 }))
        ]
  ]

  -- What follows a block: whether the solver helped.
  unfoldable pub handle_block : ℕ → String → String → BlockedEvent → State W → Bool × State W
  unfolding limit mark count_block forget try_solver
  handle_block attempt url body ev st =
      let st1 = tell_blocked io ev st in
      elim st1.anti_bot [
        | none ↦ (false, st1)
        | some ab ↦
            let st2 = count_block attempt (limit (on_block io.scale) st1) in
            let (at, w1) = io.now st2.world in
            let st3 = mark (λ p e. mark_failed p e at) (record st2 { world = w1 }) in
            try_solver url body ev (forget st3)
      ]

  -- What follows a success.
  unfoldable pub handle_success : ℕ → State W → State W
  unfolding limit mark close_circuit
  handle_success attempt st =
      mark mark_success (close_circuit attempt (limit (on_success io.scale) st))

  -- The check of the breaker: whether the attempt is turned away.
  unfoldable pub turned_away : ℕ → State W → Bool × State W
  turned_away attempt st = elim (circuit_of st) [
    | none ↦ (false, st)
    | some cb ↦
        let (now, w1) = io.now st.world in
        let st1 = record st { world = w1 } in
        if is_open cb now
        then (true, tell_circuit io true fail_fast attempt (snapshot cb) st1)
        else (false, st1)
  ]

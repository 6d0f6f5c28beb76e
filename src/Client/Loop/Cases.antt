-- ===== src/Client/Loop/Cases.antt =====
-- How one turn of the loop goes on.
use goddgs.Prelude.{
  ℕ, suc, ◌+◌, ◌≤◌, ◌<◌, ◌≡◌, refl, ap, ◌⊎◌, inl, inr, Option, none, some, arith, ltb, String, ◌*◌,
  ◌&&◌, Bool-cases,
}
use goddgs.Prelude.Int.{int64, pos_part}
use goddgs.Failure.{GoError, is_nil}
use goddgs.Client.{State, Settings, Io, sleep_backoff}
use goddgs.Net.{HttpRequest}
use goddgs.Client.Retry.{Verdict, accepted, refused, troubled, judge, turned_away}
use goddgs.Client.Loop.{
  Outcome, got, gave_up, Next, request, no_request, settle, heed, exchange, pace, finished, solved,
  failed, out_of_fuel, starved, Built, turn, retry_from,
}

pub Next-cases :
    (n : Next)
    → ((out : Outcome) × (n ≡ finished out))
      ⊎ ((e : GoError) × (n ≡ solved e))
      ⊎ ((e : GoError) × (n ≡ failed e))
      ⊎ (n ≡ out_of_fuel)
Next-cases (finished out) = inl (out, refl)
Next-cases (solved e) = inr (inl (e, refl))
Next-cases (failed e) = inr (inr (inl (e, refl)))
Next-cases out_of_fuel = inr (inr (inr refl))

pub Verdict-cases :
    (v : Verdict)
    → ((body : String) × (v ≡ accepted body))
      ⊎ ((e : GoError) × (v ≡ refused e))
      ⊎ ((e : GoError) × (body : String) × (secs : ℕ) × (v ≡ troubled e body secs))
Verdict-cases (accepted body) = inl (body, refl)
Verdict-cases (refused e) = inr (inl (e, refl))
Verdict-cases (troubled e body secs) = inr (inr (e, body, secs, refl))

pub Built-cases :
    (b : Built)
    → ((r : HttpRequest) × (b ≡ request r)) ⊎ ((e : GoError) × (b ≡ no_request e)) ⊎ (b ≡ starved)
Built-cases (request r) = inl (r, refl)
Built-cases (no_request e) = inr (inl (e, refl))
Built-cases starved = inr (inr refl)

-- A property of what a turn leads to, from the errors that end it early and from the handling of
-- its response.
module _ {W : Type 0} (io : Io W) (cfg : Settings) (P : Next → Type 0)
    (early : (e : GoError) → P (finished (gave_up e))) where
  heed-by :
      (i : ℕ) (url : String) (err : GoError) (body : String) (secs : ℕ) (st : State W)
      → ((st : State W) → P (settle io i url body err st).0)
      → P (heed io cfg i url err body secs st).0
  unfolding heed
  heed-by i url err body secs st after =
      elim (Bool-cases (ltb 0 secs && ltb (i + 1) cfg.retry_max)) [
        | inr now ↦ rw (now, heed) (after st)
        | inl later ↦
            elim (Bool-cases
              (is_nil (io.sleep (pos_part (int64 (secs * 1_000_000_000))) st.world).0)) [
                | inl awake ↦ rw (later, awake, heed) (after _)
                | inr asleep ↦ rw (later, asleep, heed) (early _)
              ]
      ]

  pub exchange-by :
      (i : ℕ) (req : HttpRequest) (st : State W)
      → ((now : ℕ) (body : String)
          → judge io cfg now (i + 1) (io.send req st.world).0 ≡ accepted body
          → P (finished (got body)))
      → ((url body : String) (err : GoError) (st : State W) → P (settle io i url body err st).0)
      → P (exchange io cfg i req st).0
  unfolding exchange
  exchange-by i req st good after =
      let (reply, w1) = io.send req st.world in
      let (now, w2) = io.now w1 in
      elim (Verdict-cases (judge io cfg now (i + 1) reply)) [
        | inl (body, e) ↦ rw (e, exchange) (good now body e)
        | inr (inl (err, e)) ↦ rw (e, exchange) (early err)
        | inr (inr (err, body, secs, e)) ↦
            rw (e, exchange) (heed-by i req.url err body secs _ (after req.url body err))
      ]

  pub turn-by :
      (build : State W → Built × State W) (i : ℕ) (st : State W)
      → ((st : State W) → (build st).0 ≡ starved → P out_of_fuel)
      → ((before : State W) (req : HttpRequest) (st : State W)
          → build before ≡ (request req, st)
          → P (exchange io cfg i req st).0)
      → P (turn io cfg build i st).0
  unfolding turn
  turn-by build i st hungry sent =
      let (away, st1) = turned_away io (i + 1) st in
      let (err, st2) = pace io cfg st1 in
      let (built, st3) = build st2 in
      elim (Bool-cases away) [
        | inl shut ↦ rw (shut, turn) (early _)
        | inr let_in ↦ elim (Bool-cases (is_nil err)) [
          | inr cut ↦ rw (let_in, cut, turn) (early _)
          | inl paced ↦ elim (Built-cases built) [
            | inl (req, e) ↦ rw (let_in, paced, e, turn) (sent st2 req st3 (ap (λ b. (b, st3)) e))
            | inr (inl (bad, e)) ↦ rw (let_in, paced, e, turn) (early bad)
            | inr (inr e) ↦ rw (let_in, paced, e, turn) (hungry st2 e)
          ]
        ]
      ]

module _ {W : Type 0} (io : Io W) (cfg : Settings) (build : State W → Built × State W) where
  -- The result of the loop.
  abbrev pub run : ℕ → ℕ → GoError → State W → Option Outcome
  run fuel i last st = (retry_from io cfg build fuel i last st).0

  -- What the turn leads to, and what the loop returns then.
  pub data Turned (fuel i : ℕ) (last : GoError) (st : State W) : Type 0 where
    over :
        cfg.retry_max ≤ i → run (suc fuel) i last st ≡ some (gave_up last) → Turned fuel i last st
    ended :
        (out : Outcome)
        → (turn io cfg build i st).0 ≡ finished out
        → run (suc fuel) i last st ≡ some out
        → Turned fuel i last st
    again :
        (e : GoError) (st' : State W)
        → (turn io cfg build i st).0 ≡ solved e
        → run (suc fuel) i last st ≡ run fuel i e st'
        → Turned fuel i last st
    dried_up :
        (turn io cfg build i st).0 ≡ out_of_fuel
        → run (suc fuel) i last st ≡ none
        → Turned fuel i last st
    stopped : (e : GoError) → run (suc fuel) i last st ≡ some (gave_up e) → Turned fuel i last st
    onward :
        (e : GoError) (st' : State W)
        → i + 1 < cfg.retry_max
        → run (suc fuel) i last st ≡ run fuel (i + 1) e st'
        → Turned fuel i last st

  pub turned : (fuel i : ℕ) (last : GoError) (st : State W) → Turned fuel i last st
  unfolding retry_from
  turned fuel i last st = elim (Bool-cases (ltb i cfg.retry_max)) [
    | inr late ↦ over (ground arith) (ground arith)
    | inl early ↦ elim (Next-cases (turn io cfg build i st).0) [
      | inl (out, e) ↦ ended out e (ground arith)
      | inr (inl (err, e)) ↦ again err (turn io cfg build i st).1 e (ground arith)
      | inr (inr (inr e)) ↦ dried_up e (ground arith)
      | inr (inr (inl (err, e))) ↦ elim (Bool-cases (ltb (i + 1) cfg.retry_max)) [
        | inr last_one ↦ stopped err (ground arith)
        | inl more ↦
            elim (Bool-cases (is_nil (sleep_backoff io cfg i (turn io cfg build i st).1).0)) [
              | inr woken ↦
                  stopped (sleep_backoff io cfg i (turn io cfg build i st).1).0 (ground arith)
              | inl slept ↦
                  onward err (sleep_backoff io cfg i (turn io cfg build i st).1).1 (ground arith)
                    (ground arith)
            ]
      ]
    ]
  ]

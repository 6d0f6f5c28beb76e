-- ===== src/Client/Loop/Answers.antt =====
-- What `doWithRetry` returns.
use text.Mathlib.Text.{◌==◌ as str_eq}
use goddgs.Prelude.{
  ℕ, zero, suc, ◌+◌, ◌≤◌, ◌<◌, String, ◌≡◌, ◌≢◌, refl, sym, ap, ◌∙◌, inl, inr, true, false, ◌&&◌,
  ◌||◌, ◌==◌, some, arith, leb, ltb, Bool-cases, Option-cases,
}
use goddgs.Failure.{GoError, nil, is_nil, is_nil-nil}
use goddgs.Net.{HttpRequest, HttpResponse, Reply, response, do_error}
use goddgs.Client.{State, Settings, Io, blocked_detector}
use goddgs.Client.Retry.{accepted, judge, is_in, blocked_of, handle_block}
use goddgs.Client.Loop.{
  request, Outcome, got, Next, finished, Built, settle, turn, retry_from, do_with_retry,
}
use goddgs.Client.Loop.Cases.{
  run, over, ended, again, dried_up, stopped, onward, turned, turn-by, exchange-by,
}

settle-not-finished :
    {W : Type 0} (io : Io W) (i : ℕ) (url body : String) (err : GoError) (st : State W)
    (out : Outcome)
    → (settle io i url body err st).0 ≢ finished out
unfolding settle
settle-not-finished io i url body err st out h = elim (Option-cases (blocked_of err)) [
  | inl plain ↦ cc (rw (plain, settle) at h)
  | inr (ev, b) ↦ elim (Bool-cases (handle_block io (i + 1) url body ev st).0) [
    | inl helped ↦ cc (rw (b, helped, settle) at h)
    | inr in_vain ↦ cc (rw (b, in_vain, settle) at h)
  ]
]

module _ {W : Type 0} (io : Io W) (cfg : Settings) where
  -- The body comes from a response to a request of the builder that was read to its end, with a status
  -- from 200 to 299 that is not among the blocked ones, and no pattern for blocked pages was found in it.
  pub record Clean (build : State W → Built × State W) (body : String) : Type 0 where
    pub before : State W
    pub req : HttpRequest
    pub after : State W
    pub made : build before ≡ (request req, after)
    pub resp : HttpResponse
    pub received : (io.send req after.world).0 ≡ response resp nil
    pub whole : resp.body ≡ body
    pub success_from : 200 ≤ resp.status_code
    pub success_to : resp.status_code < 300
    pub allowed : is_in resp.status_code cfg.blocked ≡ false
    pub unblocked : str_eq (blocked_detector io.matches cfg.blocked_re resp.body) "" ≡ true

  judge-Clean :
      (build : State W → Built × State W) (now attempt : ℕ) (before : State W) (req : HttpRequest)
      (after : State W)
      → build before ≡ (request req, after)
      → (reply : Reply) → (io.send req after.world).0 ≡ reply
      → (body : String) → judge io cfg now attempt reply ≡ accepted body
      → Clean build body
  unfolding judge
  judge-Clean build now attempt before req after made (do_error err) sent body h = cc
  judge-Clean build now attempt before req after made (response resp read_err) sent body h =
      elim (Bool-cases (is_nil read_err)) [
        | inr cut ↦ cc (rw (cut, judge) at h)
        | inl read ↦ elim (Bool-cases (is_in resp.status_code cfg.blocked)) [
          | inl banned ↦ cc (rw (read, banned, judge) at h)
          | inr allowed ↦ elim (Bool-cases (leb 200 resp.status_code && ltb resp.status_code 300)) [
            | inr odd ↦ elim (Bool-cases (resp.status_code == 429 || leb 500 resp.status_code)) [
              | inl down ↦ cc (rw (read, allowed, odd, down, judge) at h)
              | inr off ↦ cc (rw (read, allowed, odd, off, judge) at h)
            ]
            | inl fine ↦
                elim (Bool-cases
                  (str_eq (blocked_detector io.matches cfg.blocked_re resp.body) "")) [
                    | inr page ↦ cc (rw (read, allowed, fine, page, judge) at h)
                    | inl plain ↦ record {
                      before = before;
                      req = req;
                      after = after;
                      made = made;
                      resp = resp;
                      received = sent ∙ ap (response resp) (is_nil-nil read_err read);
                      whole = cc (rw (read, allowed, fine, plain, judge) at h);
                      success_from = ground arith;
                      success_to = ground arith;
                      allowed = allowed;
                      unblocked = plain;
                    }
                  ]
          ]
        ]
      ]

  turn-Clean :
      (build : State W → Built × State W) (i : ℕ) (st : State W) (body : String)
      → (turn io cfg build i st).0 ≡ finished (got body)
      → Clean build body
  turn-Clean build i st body =
      turn-by io cfg Good (λ e h. cc) build i st (λ st' e h. cc)
        (λ before req st' made.
          exchange-by io cfg Good (λ e h. cc) i req st'
            (λ now b ok h.
              judge-Clean build now (i + 1) before req st' made (io.send req st'.world).0 refl body
                (ok ∙ ap accepted (cc h)))
            (λ url b err st'' h. absurd (settle-not-finished io i url b err st'' (got body) h)))
    where
      Good : Next → Type 0
      Good n = n ≡ finished (got body) → Clean build body

  retry_from-Clean :
      (build : State W → Built × State W) (fuel i : ℕ) (last : GoError) (st : State W)
      (body : String)
      → run io cfg build fuel i last st ≡ some (got body)
      → Clean build body
  retry_from-Clean build zero i last st body h = unfold retry_from in cc h
  retry_from-Clean build (suc fuel) i last st body h = elim (turned io cfg build fuel i last st) [
    | over _ r ↦ cc (sym r ∙ h)
    | ended out e r ↦ turn-Clean build i st body (e ∙ ap finished (cc (sym r ∙ h)))
    | again e st' _ r ↦ retry_from-Clean build fuel i e st' body (sym r ∙ h)
    | dried_up _ r ↦ cc (sym r ∙ h)
    | stopped e r ↦ cc (sym r ∙ h)
    | onward e st' _ r ↦ retry_from-Clean build fuel (i + 1) e st' body (sym r ∙ h)
  ]

  -- A body that `doWithRetry` returns, after however many blocks and solved challenges, is that of a
  -- response which was received for a request of the builder, was read to its end without an error, and
  -- is no block by any of the tests.
  pub do_with_retry-Clean :
      (build : State W → Built × State W) (fuel : ℕ) (st : State W) (body : String)
      → (do_with_retry io cfg build fuel st).0 ≡ some (got body)
      → Clean build body
  unfolding do_with_retry
  do_with_retry-Clean build fuel st body h = retry_from-Clean build fuel 0 nil st body h

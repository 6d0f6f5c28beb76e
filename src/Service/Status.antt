-- ===== src/Service/Status.antt =====
-- Which status each request of `/v1/search` gets.
use text.Mathlib.Text.{◌==◌ as str_eq}
use goddgs.Prelude.{
  ℕ, String, ◌≡◌, refl, ◌≢◌, ◌⊎◌, inl, inr, true, false, Option, none, some, [], arith, Bool-cases,
  Option-cases,
}
use goddgs.Prelude.Text.{is_blank}
use goddgs.Failure.{GoError, nil, is, is_blocked, provider_unavailable, no_results}
use goddgs.Api.{SearchResponse}
use goddgs.Engine.{Engine, Run, enabled_providers, search}
use goddgs.Engine.Selection.{no_query, none_enabled, all_refused, search-Refused, engine_error}
use goddgs.Service.{
  ServiceSearchRequest, Incoming, handle_search, run_search, respond, to_request, status_of_error,
}

-- The reasons for a status.
pub data Reason {W : Type 0} (now : W → ℕ × W) (decode : String → Option ServiceSearchRequest)
    (engine : Option (Engine W)) (r : Incoming) (run : Run W) : ℕ → Type 0 where
  not_post : str_eq r.method "POST" ≡ false → Reason now decode engine r run 405
  no_engine : str_eq r.method "POST" ≡ true → engine ≡ none → Reason now decode engine r run 502
  bad_json :
      (e : Engine W)
      → str_eq r.method "POST" ≡ true
      → engine ≡ some e
      → decode r.body ≡ none
      → Reason now decode engine r run 400
  blank_query :
      (e : Engine W) (req : ServiceSearchRequest)
      → str_eq r.method "POST" ≡ true
      → engine ≡ some e
      → decode r.body ≡ some req
      → is_blank req.query ≡ true
      → Reason now decode engine r run 400
  nobody_enabled :
      (e : Engine W) (req : ServiceSearchRequest)
      → str_eq r.method "POST" ≡ true
      → engine ≡ some e
      → decode r.body ≡ some req
      → is_blank req.query ≡ false
      → enabled_providers e ≡ []
      → Reason now decode engine r run 502
  all_failed :
      (e : Engine W) (req : ServiceSearchRequest)
      → str_eq r.method "POST" ≡ true
      → engine ≡ some e
      → decode r.body ≡ some req
      → is_blank req.query ≡ false
      → enabled_providers e ≢ []
      → (search now e (to_request req) run).0.1 ≢ nil
      → Reason now decode engine r run 404
  answered :
      (e : Engine W) (req : ServiceSearchRequest)
      → str_eq r.method "POST" ≡ true
      → engine ≡ some e
      → decode r.body ≡ some req
      → is_blank req.query ≡ false
      → (search now e (to_request req) run).0.1 ≡ nil
      → Reason now decode engine r run 200

nil-cases : (e : GoError) → (e ≡ nil) ⊎ (e ≢ nil)
nil-cases nil = inl refl
nil-cases e = inr (λ h. cc)

-- The status of each outcome of a search.
respond-ok : (out : SearchResponse × GoError) → out.1 ≡ nil → (respond out).status ≡ 200
unfolding respond
respond-ok out e = rw (e, respond)

respond-unavailable :
    (out : SearchResponse × GoError)
    → out.1 ≡ engine_error provider_unavailable true "no enabled providers"
    → (respond out).status ≡ 502
unfolding respond status_of_error is_blocked is
respond-unavailable out e = rw (e, respond)

respond-exhausted :
    (out : SearchResponse × GoError)
    → out.1 ≡ engine_error no_results false "all providers exhausted"
    → (respond out).status ≡ 404
unfolding respond status_of_error is_blocked is
respond-exhausted out e = rw (e, respond)

module _ {W : Type 0} (now : W → ℕ × W) (decode : String → Option ServiceSearchRequest) where
  same_query :
      (req : ServiceSearchRequest)
      → is_blank req.query ≡ false
      → is_blank (to_request req).query ≡ true
      → ⊥
  unfolding to_request
  same_query req b blank = cc

  asked-Reason :
      (e : Engine W) (req : ServiceSearchRequest) (r : Incoming) (run : Run W)
      → str_eq r.method "POST" ≡ true
      → decode r.body ≡ some req
      → is_blank req.query ≡ false
      → Reason now decode (some e) r run (respond (search now e (to_request req) run).0).status
  asked-Reason e req r run post json b = elim (nil-cases (search now e (to_request req) run).0.1) [
    | inl ok ↦
        rw (respond-ok (search now e (to_request req) run).0 ok)
          (answered e req post refl json b ok)
    | inr bad ↦ elim (search-Refused now e (to_request req) run bad) [
      | no_query blank _ ↦ absurd (same_query req b blank)
      | none_enabled _ nobody err ↦
          rw (respond-unavailable (search now e (to_request req) run).0 err)
            (nobody_enabled e req post refl json b nobody)
      | all_refused _ some_one err _ _ _ ↦
          rw (respond-exhausted (search now e (to_request req) run).0 err)
            (all_failed e req post refl json b some_one bad)
    ]
  ]

  run_search-Reason :
      (e : Engine W) (req : ServiceSearchRequest) (r : Incoming) (run : Run W)
      → str_eq r.method "POST" ≡ true
      → decode r.body ≡ some req
      → Reason now decode (some e) r run (run_search now decode e req run).0.status
  unfolding run_search
  run_search-Reason e req r run post json = elim (Bool-cases (is_blank req.query)) [
    | inl b ↦ rw (b, run_search) (blank_query e req post refl json b)
    | inr b ↦ rw (b, run_search) (asked-Reason e req r run post json b)
  ]

  posted :
      (engine : Option (Engine W)) (r : Incoming) (run : Run W)
      → str_eq r.method "POST" ≡ true
      → Reason now decode engine r run (handle_search now decode engine r run).0.status
  unfolding handle_search
  posted none r run post = rw (post, handle_search) (no_engine post refl)
  posted (some e) r run post = elim (Option-cases (decode r.body)) [
    | inl bad ↦ rw (post, bad, handle_search) (bad_json e post refl bad)
    | inr (req, json) ↦ rw (post, json, handle_search) (run_search-Reason e req r run post json)
  ]

  not_429 :
      {engine : Option (Engine W)} {r : Incoming} {run : Run W} (n : ℕ)
      → Reason now decode engine r run n
      → n ≢ 429
  not_429 n (not_post _) h = omega arith
  not_429 n (no_engine _ _) h = omega arith
  not_429 n _ h = omega arith

  -- The status of `/v1/search` is the one that its reason asks for, whatever the providers do: 405
  -- for a method other than POST, 502 without an engine or without an enabled provider, 400 for a
  -- body that is no JSON or has a blank query, 404 when the search fails at every enabled provider,
  -- and 200 when it succeeds.
  pub handle_search-Reason :
      (engine : Option (Engine W)) (r : Incoming) (run : Run W)
      → Reason now decode engine r run (handle_search now decode engine r run).0.status
  unfolding handle_search
  handle_search-Reason engine r run = elim (Bool-cases (str_eq r.method "POST")) [
    | inr get ↦ rw (get, handle_search) (not_post get)
    | inl post ↦ posted engine r run post
  ]

  -- So it is never 429, also when every provider was blocked or rate limited.
  pub handle_search-ne-429 :
      (engine : Option (Engine W)) (r : Incoming) (run : Run W)
      → (handle_search now decode engine r run).0.status ≢ 429
  handle_search-ne-429 engine r run h = not_429 _ (handle_search-Reason engine r run) h

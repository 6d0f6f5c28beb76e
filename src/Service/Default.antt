-- ===== src/Service/Default.antt =====
-- service.go over the default engine of config.go: what `/v1/search` answers.
use text.Mathlib.Text.{◌==◌ as str_eq}
use goddgs.Prelude.{
  ℕ, String, ◌≡◌, refl, ap, subst, ◌∙◌, ◌≢◌, true, false, Option, none, some, List, [], ◌∷◌, ◌++◌,
  All,
}
use goddgs.Prelude.Text.{is_blank}
use goddgs.Failure.{GoError, nil, no_results}
use goddgs.Api.{SearchRequest, SearchResponse}
use goddgs.Net.{Net}
use goddgs.Backend.{Found, RawItem}
use goddgs.Backend.Results.{HasAddress}
use goddgs.Engine.{Engine, Hook, Run, enabled_providers, search}
use goddgs.Engine.Selection.{
  no_query as blank_refused, none_enabled, all_refused, search-Chosen, search-Refused, engine_error,
}
use goddgs.Engine.Outcome.{blamed}
use goddgs.Client.{State, Io}
use goddgs.Client.Parse.{Library}
use goddgs.Config.{Config, new_default_engine}
use goddgs.Config.Defaults.{default_providers}
use goddgs.Config.Defaults.Honest.{
  IsHonestOption, new_default_engine-serves, default_providers-IsServing,
}
use goddgs.Service.{
  Answer, found, ServiceSearchRequest, Incoming, handle_search, run_search, respond, to_request,
}
use goddgs.Service.Status.{
  Reason, not_post, no_engine, bad_json, blank_query, nobody_enabled, all_failed, answered,
  handle_search-Reason,
}

-- The search ended after every enabled provider of the engine was asked, in order, and failed.
pub record Exhausted {W : Type 0} (e : Engine W) (out : SearchResponse × GoError) : Type 0 where
  pub some_one : enabled_providers e ≢ []
  pub error : out.1 ≡ engine_error no_results false "all providers exhausted"
  pub chain : out.0.diagnostics.provider_chain ≡ enabled_providers e
  pub failed : blamed out.0.diagnostics ≡ enabled_providers e

-- What `/v1/search` may answer: results, all with an address, or a refusal.
pub data Reply {W : Type 0} (now : W → ℕ × W) (decode : String → Option ServiceSearchRequest)
    (engine : Option (Engine W)) (r : Incoming) (run : Run W) (a : Answer) : Type 0 where
  served :
      (e : Engine W) (req : ServiceSearchRequest) (resp : SearchResponse)
      → engine ≡ some e
      → decode r.body ≡ some req
      → (search now e (to_request req) run).0 ≡ (resp, nil)
      → a ≡ record { status = 200; body = found resp }
      → resp.results ≢ []
      → All HasAddress resp.results
      → Reply now decode engine r run a
  bad_method : a.status ≡ 405 → str_eq r.method "POST" ≡ false → Reply now decode engine r run a
  no_json : a.status ≡ 400 → decode r.body ≡ none → Reply now decode engine r run a
  no_query :
      (req : ServiceSearchRequest)
      → a.status ≡ 400
      → decode r.body ≡ some req
      → is_blank req.query ≡ true
      → Reply now decode engine r run a
  nothing_found :
      (e : Engine W) (req : ServiceSearchRequest)
      → engine ≡ some e
      → a.status ≡ 404
      → decode r.body ≡ some req
      → is_blank req.query ≡ false
      → Exhausted e (search now e (to_request req) run).0
      → Reply now decode engine r run a

All-middle : {A : Type 0} (P : A → Type 0) (xs ys : List A) (a : A) → All P (xs ++ a ∷ ys) → P a
All-middle P [] ys a h = h.0
All-middle P (x ∷ xs) ys a h = All-middle P xs ys a h.1

respond-found :
    (out : SearchResponse × GoError)
    → out.1 ≡ nil
    → respond out ≡ record { status = 200; body = found out.0 }
unfolding respond
respond-found out e = rw (e, respond)

module _ {W : Type 0} (now : W → ℕ × W) (decode : String → Option ServiceSearchRequest)
    (e : Engine W) (honest : All IsHonestOption e.providers) where
  search-addresses :
      (req : SearchRequest) (run : Run W) (resp : SearchResponse)
      → (search now e req run).0 ≡ (resp, nil)
      → (resp.results ≢ []) × All HasAddress resp.results
  search-addresses req run resp h =
      let c = search-Chosen now e req run resp h in
      let p_honest : IsHonestOption (some c.chosen) =
        All-middle IsHonestOption c.before c.after (some c.chosen)
          (subst (All IsHonestOption) c.split honest) in
      (
        c.answered.found,
        subst (λ (o : Found). All HasAddress o.0) c.answered.answer (p_honest _ c.answered.world),
      )

  handle_search-found :
      (r : Incoming) (run : Run W) (req : ServiceSearchRequest)
      → str_eq r.method "POST" ≡ true
      → decode r.body ≡ some req
      → is_blank req.query ≡ false
      → (handle_search now decode (some e) r run).0 ≡ respond (search now e (to_request req) run).0
  unfolding handle_search run_search
  handle_search-found r run req post json b = rw (post, json, b, handle_search, run_search) refl

  module _ (some_enabled : enabled_providers e ≢ []) (r : Incoming) (run : Run W) where
    failed-Exhausted :
        (req : SearchRequest)
        → is_blank req.query ≡ false
        → (search now e req run).0.1 ≢ nil
        → Exhausted e (search now e req run).0
    failed-Exhausted req b bad = elim (search-Refused now e req run bad) [
      | blank_refused blank _ ↦ cc
      | none_enabled _ nobody _ ↦ absurd (some_enabled nobody)
      | all_refused _ some_one err chain failed _ ↦ record {
        some_one = some_one;
        error = err;
        chain = chain;
        failed = failed;
      }
    ]

    asked_query :
        (req : ServiceSearchRequest)
        → is_blank req.query ≡ false
        → is_blank (to_request req).query ≡ false
    unfolding to_request
    asked_query req b = b

    reply-by :
        {n : ℕ}
        → Reason now decode (some e) r run n
        → (handle_search now decode (some e) r run).0.status ≡ n
        → Reply now decode (some e) r run (handle_search now decode (some e) r run).0
    reply-by (not_post get) st = bad_method st get
    reply-by (no_engine post missing) st = cc
    reply-by (bad_json e' post same bad) st = no_json st bad
    reply-by (blank_query e' req post same json blank) st = no_query req st json blank
    reply-by (nobody_enabled e' req post same json b nobody) st =
        let own : e' ≡ e = cc in
        absurd (some_enabled (subst (λ (x : Engine W). enabled_providers x ≡ []) own nobody))
    reply-by (all_failed e' req post same json b some_one bad) st =
        let own : e' ≡ e = cc in
        let failed : (search now e (to_request req) run).0.1 ≢ nil =
          subst (λ (x : Engine W). (search now x (to_request req) run).0.1 ≢ nil) own bad in
        nothing_found e req refl st json b
          (failed-Exhausted (to_request req) (asked_query req b) failed)
    reply-by (answered e' req post same json b ok) st =
        let own : e' ≡ e = cc in
        let out = search now e (to_request req) run in
        let fine : out.0.1 ≡ nil =
          subst (λ (x : Engine W). (search now x (to_request req) run).0.1 ≡ nil) own ok in
        let answer = ap (λ err. (out.0.0, err)) fine in
        let (some_result, addresses) = search-addresses (to_request req) run out.0.0 answer in
        served e req out.0.0 refl json answer
          (handle_search-found r run req post json b ∙ respond-found out.0 fine) some_result
          addresses

-- Whatever is sent to `/v1/search` of a service with the default engine, whatever its configuration is,
-- and whatever the network does, with no captcha solver, the answer is one of these: 200 with the answer
-- of a search without an error, with one result at least and each with an address; 405 for a method other
-- than POST; 400 for a body that is no JSON or has a blank query; and 404 for a search that asked every
-- enabled provider, in order, and has one failure of each among its errors. It is never 502.
pub default_service-Reply :
    {W : Type 0} (io : Io W) (lib : Library) (cfg : Config) (net : Net W)
    (brave_items serp_items tavily_items : String → List RawItem × GoError)
    (quote : String → String) (hooks : List (Option (Hook (State W)))) (now : State W → ℕ × State W)
    (decode : String → Option ServiceSearchRequest) (r : Incoming) (run : Run (State W))
    → io.solve ≡ none
    → Reply now decode
        (new_default_engine
          (default_providers io lib cfg net brave_items serp_items tavily_items quote)
          cfg
          hooks).0
        r
        run
        (handle_search now decode
          (new_default_engine
            (default_providers io lib cfg net brave_items serp_items tavily_items quote)
            cfg
            hooks).0
          r
          run).0
default_service-Reply io lib cfg net brave_items serp_items tavily_items quote hooks now decode r
      run unsolved =
    let ps = default_providers io lib cfg net brave_items serp_items tavily_items quote in
    let (e, built, honest, some_enabled) =
      new_default_engine-serves ps
        (default_providers-IsServing io unsolved lib cfg net brave_items serp_items tavily_items
          quote)
        cfg hooks in
    rw built (
      reply-by now decode e honest some_enabled r run
        (handle_search-Reason now decode (some e) r run) refl)

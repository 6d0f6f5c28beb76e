-- ===== src/Client/Search/Count.antt =====
-- How many requests a search sends, where there is no solver.
use text.Mathlib.Text.{◌==◌ as str_eq}
use goddgs.Prelude.{
  ℕ, ◌+◌, ◌*◌, ◌≤◌, String, ◌≡◌, inl, inr, Bool, true, false, none, [], ◌∷◌, arith, if◌then◌else◌,
  Bool-cases, Option-cases,
}
use goddgs.Prelude.Int.{positive_or}
use goddgs.Prelude.Text.{trim_space}
use goddgs.Prelude.Format.{concat}
use goddgs.Api.{SearchOptions}
use goddgs.Net.{HttpRequest}
use goddgs.Session.{SessionManager, warm_up}
use goddgs.Client.{State, Settings, Io}
use goddgs.Client.Retry.Count.{Meter}
use goddgs.Client.Loop.{do_with_retry}
use goddgs.Client.Loop.Count.{do_with_retry-count}
use goddgs.Client.Parse.{Library}
use goddgs.Client.Query.{
  fixed_request, apply_headers, build_vqd, get_vqd, build_djs, build_html, cache_key, lookup_token,
  valid_token,
}
use goddgs.Client.Search.{
  ensure_warm, warmup_get, search_djs, search_html, search_both, with_region, client_search,
}

module _ {W : Type 0} (io : Io W) (m : Meter io) (unsolved : io.solve ≡ none) (cfg : Settings)
    (lib : Library) where
  get_vqd-count :
      (fuel : ℕ) (query : String) (st : State W)
      → m.count (get_vqd io cfg lib fuel query st).1.world ≤ m.count st.world + cfg.retry_max
  unfolding get_vqd
  get_vqd-count fuel query st =
      let (now, w1) = io.now st.world in
      let st1 = record st { world = w1 } in
      let looped = do_with_retry io cfg (build_vqd io cfg lib query) fuel st1 in
      let bound =
        do_with_retry-count io m cfg unsolved (build_vqd io cfg lib query) 0
          (λ st'. unfold build_vqd fixed_request in omega arith) fuel st1 in
      elim (Option-cases (valid_token now (lookup_token (cache_key query st.ua) st.vqd_cache))) [
        | inr (vqd, e) ↦ rw (e, get_vqd) (omega (arith, m.now st.world))
        | inl missing ↦
            let same : (get_vqd io cfg lib fuel query st).1.world ≡ looped.1.world = ground arith in
            rw same (omega (arith, bound, m.now st.world))
      ]

  build_djs-count :
      (fuel : ℕ) (query : String) (opts : SearchOptions) (st : State W)
      → m.count (build_djs io cfg lib fuel query opts st).1.world ≤ m.count st.world + cfg.retry_max
  unfolding build_djs
  build_djs-count fuel query opts st =
      let same : (build_djs io cfg lib fuel query opts st).1.world
          ≡ (get_vqd io cfg lib fuel query st).1.world =
        unfold fixed_request in ground arith in
      rw same (get_vqd-count fuel query st)

  search_djs-count :
      (fuel : ℕ) (query : String) (opts : SearchOptions) (st : State W)
      → m.count (search_djs io cfg lib fuel query opts st).1.world
        ≤ m.count st.world + cfg.retry_max * (cfg.retry_max + 1)
  unfolding search_djs
  search_djs-count fuel query opts st =
      do_with_retry-count io m cfg unsolved (build_djs io cfg lib fuel query opts) cfg.retry_max
        (build_djs-count fuel query opts) fuel st

  search_html-count :
      (fuel : ℕ) (query : String) (opts : SearchOptions) (st : State W)
      → m.count (search_html io cfg lib fuel query opts st).1.world
        ≤ m.count st.world + cfg.retry_max
  unfolding search_html
  search_html-count fuel query opts st =
      let bound =
        do_with_retry-count io m cfg unsolved (build_html io cfg lib query opts) 0
          (λ st'. unfold build_html fixed_request in omega arith) fuel st in
      omega (arith, bound)

  warmup_get-count :
      (ua : String) (root : Bool) (w : W)
      → m.count (warmup_get io cfg lib ua root w).1 ≤ m.count w + 1
  unfolding warmup_get
  warmup_get-count ua root w =
      let req : HttpRequest = record {
        method = "GET";
        url = concat (cfg.ddg_base ∷ (if root then "/" else "/?q=") ∷ []);
        headers = [];
        body = "";
      } in
      ground (arith, m.send (apply_headers lib cfg ua req) w)

  warm_up-count :
      (ua : String) (s : SessionManager) (w : W)
      → m.count (warm_up io.now (warmup_get io cfg lib ua) s w).1 ≤ m.count w + 2
  unfolding warm_up
  warm_up-count ua s w =
      let (tested, w1) = io.now w in
      let (err, w2) = warmup_get io cfg lib ua true w1 in
      let (ignored, w3) = warmup_get io cfg lib ua false w2 in
      ground (arith, m.now w, warmup_get-count ua true w1, warmup_get-count ua false w2, m.now w3)

  ensure_warm-count :
      (st : State W) → m.count (ensure_warm io cfg lib st).world ≤ m.count st.world + 2
  unfolding ensure_warm
  ensure_warm-count st = elim (Option-cases st.anti_bot) [
    | inl nothing ↦ ground arith
    | inr (a, e) ↦ elim (Option-cases a.session) [
      | inl none_kept ↦ ground arith
      | inr (s, has) ↦ ground (arith, m.now st.world, warm_up-count st.ua s (io.now st.world).1)
    ]
  ]

  search_both-count :
      (fuel : ℕ) (query : String) (opts : SearchOptions) (max : ℕ) (st : State W)
      → m.count (search_both io cfg lib fuel query opts max st).1.world
        ≤ m.count st.world + cfg.retry_max * (cfg.retry_max + 1) + cfg.retry_max
  unfolding search_both
  search_both-count fuel query opts max st =
      let (first, st1) = search_djs io cfg lib fuel query opts st in
      ground (arith, search_djs-count fuel query opts st, search_html-count fuel query opts st1)

  -- Without a solver a search sends at most `retry_max * (retry_max + 2) + 2` requests, whatever the
  -- world does: each try of the first way may fetch a token with as many tries, the second way has as
  -- many tries again, and a warm-up takes two.
  pub client_search-count :
      (fuel : ℕ) (query : String) (opts : SearchOptions) (st : State W)
      → m.count (client_search io cfg lib fuel query opts st).1.world
        ≤ m.count st.world + (cfg.retry_max * (cfg.retry_max + 2) + 2)
  unfolding client_search
  client_search-count fuel query opts st = elim (Bool-cases (str_eq (trim_space query) "")) [
    | inl blank ↦ rw (blank, client_search) (omega arith)
    | inr asked ↦
        rw (asked, client_search)
          (omega (
            arith,
            ensure_warm-count st,
            search_both-count fuel (trim_space query) (with_region opts)
                (positive_or opts.max_results 10) (ensure_warm io cfg lib st),
          ))
  ]

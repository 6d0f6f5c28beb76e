-- ===== src/Client/Search/Total.antt =====
-- client.go: `Search` returns.
use goddgs.Prelude.{
  ℕ, ◌≤◌, ◌<◌, String, ◌≡◌, ◌≢◌, refl, ◌⊎◌, inl, inr, ◌&&◌, Option, none, some, [], length, take,
  arith, ltb, Bool-cases, Option-cases, returns,
}
use text.Mathlib.Text.{◌==◌ as str_eq}
use goddgs.Prelude.Int.{positive_or}
use goddgs.Prelude.Text.{trim_space}
use goddgs.Failure.{GoError, nil, is_nil, message}
use goddgs.Api.{SearchOptions}
use goddgs.Backend.{Found}
use goddgs.Net.{HttpRequest}
use goddgs.Client.{State, Settings, Io}
use goddgs.Client.Loop.{Outcome, returned, got, gave_up, starved}
use goddgs.Client.Loop.Fuel.{do_with_retry-total}
use goddgs.Client.Parse.{Library}
use goddgs.Client.Query.{
  djs_headers, form_header, html_headers, fixed_request, build_vqd, get_vqd, build_djs, build_html,
  cache_key, lookup_token, valid_token,
}
use goddgs.Client.Search.{
  without_fallback, from_html, read_djs, read_html, map_result, search_djs, search_html,
  search_both, client_search, with_region, ensure_warm,
}

Outcome-cases :
    (out : Outcome) → ((body : String) × (out ≡ got body)) ⊎ ((err : GoError) × (out ≡ gave_up err))
Outcome-cases (got body) = inl (body, refl)
Outcome-cases (gave_up err) = inr (err, refl)

map_result-total :
    {A B : Type 0} (f : A → B) (out : Option A)
    → (a : A) × (out ≡ some a)
    → (b : B) × (map_result f out ≡ some b)
map_result-total f out (a, e) = (f a, rw e refl)

module _ {W : Type 0} (io : Io W) (cfg : Settings) (lib : Library) where
  fixed_request-fed :
      (req : HttpRequest) (more : HttpRequest → HttpRequest) (st : State W)
      → (fixed_request io cfg lib req more st).0 ≢ starved
  unfolding fixed_request
  fixed_request-fed req more st h = elim (Bool-cases (is_nil (lib.new_request req))) [
    | inl fine ↦ cc (rw (fine, fixed_request) at h)
    | inr broken ↦ cc (rw (broken, fixed_request) at h)
  ]

  build_vqd-fed : (query : String) (st : State W) → (build_vqd io cfg lib query st).0 ≢ starved
  unfolding build_vqd
  build_vqd-fed query st = fixed_request-fed _ form_header st

  module _ (unsolved : io.solve ≡ none) (fuel : ℕ) (some_fuel : 0 < fuel)
      (enough : cfg.retry_max ≤ fuel) where
    get_vqd-ne-none : (query : String) (st : State W) → (get_vqd io cfg lib fuel query st).0 ≢ none
    unfolding get_vqd
    get_vqd-ne-none query st h =
        let (now, w1) = io.now st.world in
        elim (Option-cases (valid_token now (lookup_token (cache_key query st.ua) st.vqd_cache))) [
          | inr (vqd, e) ↦ cc (rw (e, get_vqd) at h)
          | inl missing ↦
              let (out, e) =
                do_with_retry-total io unsolved cfg (build_vqd io cfg lib query)
                  (build_vqd-fed query) fuel (record st { world = w1 }) some_fuel enough in
              elim (Bool-cases (is_nil (returned out).1)) [
                | inl ok ↦ cc (rw (missing, e, ok, get_vqd) at h)
                | inr bad ↦ cc (rw (missing, e, bad, get_vqd) at h)
              ]
        ]

    build_djs-fed :
        (query : String) (opts : SearchOptions) (st : State W)
        → (build_djs io cfg lib fuel query opts st).0 ≢ starved
    unfolding build_djs
    build_djs-fed query opts st h =
        let (out, e) = returns (get_vqd io cfg lib fuel query st).0 (get_vqd-ne-none query st) in
        elim (Outcome-cases out) [
          | inl (vqd, f) ↦
              fixed_request-fed _ djs_headers (get_vqd io cfg lib fuel query st).1
                (rw (e, f, build_djs) at h)
          | inr (err, f) ↦ cc (rw (e, f, build_djs) at h)
        ]

    search_djs-total :
        (query : String) (opts : SearchOptions) (st : State W)
        → (out : Found) × ((search_djs io cfg lib fuel query opts st).0 ≡ some out)
    unfolding search_djs
    search_djs-total query opts st = map_result-total (read_djs lib) _ (
        do_with_retry-total io unsolved cfg (build_djs io cfg lib fuel query opts)
          (build_djs-fed query opts) fuel st some_fuel enough)

    search_html-total :
        (query : String) (opts : SearchOptions) (st : State W)
        → (out : Found) × ((search_html io cfg lib fuel query opts st).0 ≡ some out)
    unfolding search_html build_html
    search_html-total query opts st = map_result-total (read_html lib) _ (
        do_with_retry-total io unsolved cfg (build_html io cfg lib query opts)
          (fixed_request-fed _ (html_headers io cfg lib)) fuel st some_fuel enough)

    search_both-total :
        (query : String) (opts : SearchOptions) (max : ℕ) (st : State W)
        → (out : Found) × ((search_both io cfg lib fuel query opts max st).0 ≡ some out)
    unfolding search_both
    search_both-total query opts max st =
        let (first, e) = search_djs-total query opts st in
        let (second, f) =
          search_html-total query opts (search_djs io cfg lib fuel query opts st).1 in
        elim (Bool-cases (is_nil first.1 && ltb 0 (length first.0))) [
          | inl good ↦ ((take max first.0, nil), ground (arith, e, good))
          | inr bad ↦ elim (Bool-cases cfg.no_fallback) [
            | inl alone ↦ (without_fallback first.1, ground (arith, e, bad, alone))
            | inr both ↦ (from_html max first.1 second, ground (arith, e, f, bad, both))
          ]
        ]

    -- Without a solver, fuel for as many turns as there are tries is enough for `Search` to return.
    pub client_search-total :
        (query : String) (opts : SearchOptions) (st : State W)
        → (out : Found) × ((client_search io cfg lib fuel query opts st).0 ≡ some out)
    unfolding client_search
    client_search-total query opts st = elim (Bool-cases (str_eq (trim_space query) "")) [
      | inl blank ↦ (([], message "goddgs: query is required"), rw (blank, client_search) refl)
      | inr asked ↦
          rw (asked, client_search)
            (search_both-total (trim_space query) (with_region opts)
              (positive_or opts.max_results 10) (ensure_warm io cfg lib st))
    ]

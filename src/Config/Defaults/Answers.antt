-- ===== src/Config/Defaults/Answers.antt =====
-- config.go, provider.go and client.go together: what the DuckDuckGo provider of the default engine answers.
use goddgs.Prelude.{
  ℕ, ◌≡◌, ◌≢◌, refl, subst, inl, inr, String, none, some, List, [], ◌∷◌, arith, Bool-cases,
  Option-cases, returns,
}
use goddgs.Prelude.Int.{positive_or, positive_or-pos}
use goddgs.Prelude.Text.{is_blank}
use goddgs.Failure.{
  GoError, nil, is_nil, is_nil-nil, classify_error, as_search_error, to_error, SearchError,
}
use goddgs.Net.{Net}
use goddgs.Api.{SearchResult, SearchRequest, SearchOptions, to_search_options}
use goddgs.Backend.{Found, RawItem, of_client, or_no_results, ddg_provider}
use goddgs.Client.{State, Io}
use goddgs.Client.Parse.{Library}
use goddgs.Client.Search.Served.{Served, client_search-Served, refused-Served}
use goddgs.Client.Search.Total.{client_search-total}
use goddgs.Client.Setup.{new_settings}
use goddgs.Config.{Config}
use goddgs.Config.Defaults.{client_options, ddg_search, default_providers}

some_results :
    (max : ℕ) (rs : List SearchResult)
    → rs ≢ []
    → Served max (rs, nil)
    → Served max (or_no_results "ddg" rs)
unfolding or_no_results
some_results max [] some_one ok = absurd (some_one refl)
some_results max (r ∷ rs) some_one ok = ok

classified : (err : GoError) → err ≢ nil → (se : SearchError) × (classify_error "ddg" err ≡ some se)
unfolding classify_error
classified err bad = elim (Bool-cases (is_nil err)) [
  | inl quiet ↦ absurd (bad (is_nil-nil err quiet))
  | inr loud ↦ returns (classify_error "ddg" err) (λ h. elim (Option-cases (as_search_error err)) [
    | inl plain ↦ cc (rw (loud, plain, classify_error) at h)
    | inr (se, e) ↦ cc (rw (loud, e, classify_error) at h)
  ])
]

unclassified : classify_error "ddg" nil ≡ none
unfolding classify_error
unclassified = refl

of_client-Served : (max : ℕ) (out : Found) → Served max out → Served max (of_client out)
unfolding of_client
of_client-Served max (rs, err) ok = elim ok.outcome [
  | inl (quiet, some_one) ↦
      let good : Served max (rs, nil) = subst (λ (e : GoError). Served max (rs, e)) quiet ok in
      rw (quiet, unclassified, of_client) (some_results max rs some_one good)
  | inr (loud, nothing) ↦
      let (se, e) = classified err loud in rw (e, of_client) (refused-Served max (to_error se) refl)
]

ddg_provider-Served :
    {W : Type 0} (find : String → SearchOptions → W → Found × W)
    → ((query : String) (opts : SearchOptions) (w : W)
        → Served (positive_or opts.max_results 10) (find query opts w).0)
    → (req : SearchRequest) (w : W)
    → Served (positive_or req.max_results 10) ((ddg_provider (some find)).search req w).0
unfolding ddg_provider to_search_options
ddg_provider-Served find ok req w = elim (Bool-cases (is_blank req.query)) [
  | inl blank ↦ rw blank (refused-Served _ _ refl)
  | inr asked ↦ rw asked (of_client-Served _ _ (ok req.query (to_search_options req) w))
]

module _ {W : Type 0} (io : Io W) (unsolved : io.solve ≡ none) (lib : Library) (cfg : Config) where
  ddg_search-Served :
      (query : String) (opts : SearchOptions) (st : State W)
      → Served (positive_or opts.max_results 10) (ddg_search io lib cfg query opts st).0
  unfolding ddg_search new_settings
  ddg_search-Served query opts st =
      let settings = new_settings (client_options cfg) in
      let tries = positive_or-pos (client_options cfg).retry_max 3 (omega arith) in
      let (out, e) =
        client_search-total io settings lib unsolved settings.retry_max tries (omega arith) query
          opts st in
      rw e (client_search-Served io settings lib settings.retry_max query opts st out e)

  -- Whatever the configuration, the network and the world, the DuckDuckGo provider of the default engine
  -- answers every request: with some results, at most as many as were asked for (10 where that is not
  -- positive) and each with an address, or with an error and no result.
  pub default_providers-Served :
      (net : Net W) (brave_items serp_items tavily_items : String → List RawItem × GoError)
      (quote : String → String) (req : SearchRequest) (st : State W)
      → Served
          (positive_or req.max_results 10)
          ((default_providers io lib cfg net brave_items serp_items tavily_items quote).ddg.search
            req st).0
  unfolding default_providers
  default_providers-Served net brave_items serp_items tavily_items quote =
      ddg_provider-Served (ddg_search io lib cfg) ddg_search-Served

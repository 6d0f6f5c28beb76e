-- ===== src/Engine.antt =====
-- engine.go: the chain of providers.
-- Providers, hooks and the clock act on a world of type `W`, which is threaded through the calls.
-- A `Provider` is an interface value, and `none` the nil one; so is a hook. `emitted` keeps what
-- was handed to `Engine.emit`, oldest first.
pub mod Diagnosis
pub mod Liveness
pub mod Outcome
pub mod Ending
pub mod Selection
pub mod Trace
pub mod Seen
unfoldable pub use Diagnosis.*
use text.Mathlib.Text.{◌==◌ as str_eq}
use goddgs.Prelude.{
  ℕ, ◌+◌, ◌-◌, String, Bool, true, false, ◌&&◌, not, Option, none, some, List, [], ◌∷◌, ◌++◌, ltb,
  length, if◌then◌else◌,
}
use goddgs.Prelude.Int.{ℤ, pos, leb_ℤ}
use goddgs.Prelude.Text.{is_blank}
use goddgs.Signal.{BlockInfo, generic}
use goddgs.Failure.{
  ErrorKind, blocked, provider_unavailable, invalid_input, no_results, err_no_results, GoError, nil,
  sentinel, message, SearchError, to_error, is_nil, error_text, classify_error,
}
use goddgs.Api.{
  SearchResult, SearchRequest, SearchResponse, Diagnostics, ProviderError, Event, EventType,
  search_start, search_finish, provider_start, provider_end, blocked_seen, fallback,
}

-- The interface `Provider`. A search changes the world, and returns its results and its error.
pub record Provider (W : Type 0) : Type 0 where
  pub name : String
  pub enabled : Bool
  pub search : SearchRequest → W → (List SearchResult × GoError) × W

abbrev pub Hook : Type 0 → Type 0
Hook W = Event → W → W

pub record Engine (W : Type 0) : Type 0 where
  pub providers : List (Option (Provider W))
  pub hooks : List (Option (Hook W))

-- `EngineOptions` has the same fields as `Engine`.
pub record EngineOptions (W : Type 0) : Type 0 where
  pub providers : List (Option (Provider W))
  pub hooks : List (Option (Hook W))

-- The loop of `NewEngine` that drops the nil providers.
unfoldable pub non_nil {ℓ} : {A : Type ℓ} → List (Option A) → List (Option A)
non_nil [] = []
non_nil (none ∷ ps) = non_nil ps
non_nil (some p ∷ ps) = some p ∷ non_nil ps

-- `NewEngine`; `none` is the nil engine, which comes with an error.
unfoldable pub new_engine : {W : Type 0} → EngineOptions W → Option (Engine W) × GoError
unfolding non_nil
new_engine opts =
    if is_empty opts.providers
    then (none, message "goddgs: at least one provider is required")
    else if is_empty (non_nil opts.providers)
    then (none, message "goddgs: at least one non-nil provider is required")
    else (some (record { providers = non_nil opts.providers; hooks = opts.hooks }), nil)

-- `Engine.EnabledProviders`.
abbrev pub enabled_names : {W : Type 0} → List (Option (Provider W)) → List String
enabled_names [] = []
enabled_names (none ∷ ps) = enabled_names ps
enabled_names (some p ∷ ps) = if p.enabled then p.name ∷ enabled_names ps else enabled_names ps

unfoldable pub enabled_providers : {W : Type 0} → Engine W → List String
enabled_providers e = enabled_names e.providers

-- The defaults that `Search` puts into its copy of the request.
unfoldable pub normalize : SearchRequest → SearchRequest
normalize req = record req {
  max_results = if leb_ℤ req.max_results (pos 0) then pos 10 else req.max_results;
  region = if str_eq req.region "" then "us-en" else req.region;
}

pub record Run (W : Type 0) : Type 0 where
  pub world : W
  pub emitted : List Event

-- What one attempt leaves: the response where the provider had results.
pub record Attempt (W : Type 0) : Type 0 where
  pub response : Option SearchResponse
  pub diagnostics : Diagnostics
  pub run : Run W

module _ {W : Type 0} where
  -- The loop of `Engine.emit`.
  deliver : List (Option (Hook W)) → Event → W → W
  deliver [] ev w = w
  deliver (none ∷ hs) ev w = deliver hs ev w
  deliver (some h ∷ hs) ev w = deliver hs ev (h ev w)

  pub emit : List (Option (Hook W)) → Event → Run W → Run W
  unfolding deliver
  emit hooks ev r = record { world = deliver hooks ev r.world; emitted = r.emitted ++ ev ∷ [] }

  -- The events of a failure; `last` tells that no provider stands behind this one in the list.
  pub report_failure : List (Option (Hook W)) → Bool → String → ℕ → SearchError → Run W → Run W
  unfolding block_of event
  report_failure hooks last name dur se r =
      let block = block_of se in
      let r1 : Run W = elim block [
        | none ↦ r
        | some info ↦
            emit hooks
              (record (event blocked_seen name 0) { err_kind = some se.kind; block = some info }) r
      ] in
      let r2 =
        emit hooks (record (event provider_end name dur) { err_kind = some se.kind; block = block })
          r1 in
      if last
      then r2
      else emit hooks (record (event fallback name 0) { err_kind = some se.kind }) r2

  -- One turn of the loop, for a provider that is enabled; `ahead` counts those before it. First
  -- what follows the provider's answer.
  pub conclude :
      List (Option (Hook W))
      → ℕ
      → Bool
      → String
      → List SearchResult × GoError
      → ℕ
      → Diagnostics
      → Run W
      → Attempt W
  unfolding event failure_of recorded report_failure
  conclude hooks ahead last name out dur diag r =
      if is_nil out.1 && not (is_empty out.0)
      then record {
        response = some (record {
          results = out.0;
          provider = name;
          fallback_used = ltb 0 ahead;
          diagnostics = diag;
        });
        diagnostics = diag;
        run = emit hooks (record (event provider_end name dur) { success = true }) r;
      }
      else record {
        response = none;
        diagnostics = recorded name (failure_of name out.1) diag;
        run = report_failure hooks last name dur (failure_of name out.1) r;
      }

  module _ (now : W → ℕ × W) (hooks : List (Option (Hook W))) (req : SearchRequest) where
    pub attempt : ℕ → Bool → Provider W → Diagnostics → Run W → Attempt W
    unfolding event counted conclude
    attempt ahead last p diag r =
        let r1 = emit hooks (event provider_start p.name 0) r in
        let (began, w1) = now r1.world in
        let (out, w2) = p.search req w1 in
        let (ended, w3) = now w2 in
        let dur = ended - began in
        conclude hooks ahead last p.name out dur (counted p.name dur diag)
          (record r1 { world = w3 })

    -- The loop over the providers.
    pub search_from :
        ℕ → List (Option (Provider W)) → Diagnostics → Run W → (SearchResponse × GoError) × Run W
    unfolding exhausted
    search_from ahead [] diag r = (exhausted diag, r)
    search_from ahead (none ∷ ps) diag r = search_from (ahead + 1) ps diag r
    search_from ahead (some p ∷ ps) diag r = elim p.enabled [
      | false ↦ search_from (ahead + 1) ps diag r
      | true ↦
          let a = attempt ahead (is_empty ps) p diag r in
          elim a.response [
            | some resp ↦ ((resp, nil), a.run)
            | none ↦ search_from (ahead + 1) ps a.diagnostics a.run
          ]
    ]

module _ {W : Type 0} (now : W → ℕ × W) where
  -- `Engine.Search`.
  unfoldable pub search : Engine W → SearchRequest → Run W → (SearchResponse × GoError) × Run W
  unfolding event attempt search_from emit
  search e req r =
      if is_blank req.query
      then (
        (
          record { results = []; provider = ""; fallback_used = false; diagnostics = empty },
          to_error (record {
            kind = invalid_input;
            provider = "engine";
            temporary = false;
            cause = message "query is required";
            details = [];
          }),
        ),
        r,
      )
      else let (began, w) = now r.world in
        let r1 = emit e.hooks (event search_start "" 0) (record r { world = w }) in
        let (out, r2) = search_from now e.hooks (normalize req) 0 e.providers empty r1 in
        let (ended, w2) = now r2.world in
        (out, emit e.hooks (event search_finish "" (ended - began)) (record r2 { world = w2 }))

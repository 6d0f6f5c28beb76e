-- ===== src/Metrics/Searches.antt =====
-- engine.go and observability_prometheus.go together: what the collector has counted after a search.
use text.Mathlib.Text.{◌==◌ as str_eq}
use goddgs.Prelude.{
  ℕ, ◌+◌, String, All, ◌≡◌, refl, ap, ◌∙◌, inl, inr, Bool, true, false, ◌&&◌, not, Option, none,
  some, List, [], ◌∷◌, ◌++◌, map, arith, if◌then◌else◌, Bool-cases,
}
use goddgs.Api.{SearchRequest, SearchResponse, ProviderError, Event, search_finish}
use goddgs.Failure.{GoError}
use goddgs.Engine.{Hook, Engine, Provider, Run, event, is_blocked_kind, search, is_empty}
use goddgs.Engine.Trace.{
  bare, failed_events, Script, nobody_left, passed_over, failure, success, winner_of,
}
use goddgs.Engine.Seen.{after_events, Quiet, search-seen}
use goddgs.Engine.Trace.Whole.{Narrated, silent, played, search-Narrated}
use goddgs.Metrics.{hook, PrometheusCollector, requests_key, value_of}
use goddgs.Metrics.Counts.{hook_all, ended, hook_all-requests}

-- The entries of a provider among the errors, and whether it is the one that answered.
abbrev pub entries : String → List ProviderError → ℕ
entries name [] = 0
entries name (e ∷ es) =
    let rest = entries name es in if str_eq e.provider name then rest + 1 else rest

abbrev pub answers : String → Option String → ℕ
answers name none = 0
answers name (some winner) = if str_eq winner name then 1 else 0

-- The failures, or the successes, that the answer of a search tells of a provider.
abbrev pub outcomes : String → Bool → List ProviderError → Option String → ℕ
outcomes name true es winner = answers name winner
outcomes name false es winner = entries name es

ended-append :
    (name : String) (ok : Bool) (xs ys : List Event)
    → ended name ok (xs ++ ys) ≡ ended name ok xs + ended name ok ys
ended-append name ok [] ys = omega arith
ended-append name ok (x ∷ xs) ys = ground (arith, ended-append name ok xs ys)

ended-bare :
    (name : String) (ok : Bool) (evs : List Event)
    → ended name ok (map bare evs) ≡ ended name ok evs
ended-bare name ok [] = refl
ended-bare name ok (ev ∷ evs) = ground (arith, ended-bare name ok evs)

ended-failed :
    (name : String) (ok last : Bool) (e : ProviderError)
    → ended name ok (failed_events last e) ≡ (if not ok && str_eq e.provider name then 1 else 0)
unfolding event
ended-failed name ok last e = elim (Bool-cases (is_blocked_kind e.kind)) [
  | inl blocks ↦ rw blocks (ground arith)
  | inr other ↦ rw other (ground arith)
]

outcomes-more :
    (name : String) (ok : Bool) (e : ProviderError) (es : List ProviderError)
    (winner : Option String)
    → outcomes name ok (e ∷ es) winner
      ≡ (if not ok && str_eq e.provider name then 1 else 0) + outcomes name ok es winner
outcomes-more name true e es winner = omega arith
outcomes-more name false e es winner = ground arith

ended-Script :
    {W : Type 0} {ps : List (Option (Provider W))} {es : List ProviderError}
    {winner : Option String} {evs : List Event} (name : String) (ok : Bool)
    → Script ps es winner evs
    → ended name ok evs ≡ outcomes name ok es winner
unfolding event
ended-Script name true nobody_left = refl
ended-Script name false nobody_left = refl
ended-Script name ok (passed_over skips s) = ended-Script name ok s
ended-Script name ok (failure {ps = ps} {e = e} {es = es} {winner = w} {evs = evs} on same s) =
    omega (
      arith,
      ended-append name ok (failed_events (is_empty ps) e) evs,
      ended-failed name ok (is_empty ps) e,
      ended-Script name ok s,
      outcomes-more name ok e es w,
    )
ended-Script name true (success on) = ground arith
ended-Script name false (success on) = ground arith

nothing_told : (name : String) (ok : Bool) → 0 ≡ outcomes name ok [] none
nothing_told name true = refl
nothing_told name false = refl

ended-Narrated :
    {W : Type 0} (e : Engine W) (req : SearchRequest) (w : W)
    {out : (SearchResponse × GoError) × Run W} (name : String) (ok : Bool)
    → Narrated e req (record { world = w; emitted = [] }) out
    → ended name ok out.1.emitted ≡ outcomes name ok out.0.0.diagnostics.errors (winner_of out.0)
unfolding event
ended-Narrated e req w name ok (silent blank same no_errors nobody) =
    rw (same, no_errors, nobody) (nothing_told name ok)
ended-Narrated e req w {out} name ok (played events asked emitted script) = omega (
  arith,
  ended-bare name ok out.1.emitted,
  ap (ended name ok) emitted,
  ended-append name ok events (event search_finish "" 0 ∷ []),
  ended-Script name ok script,
)

-- What `Engine.Search` leaves in the counters of a collector that gets its events: the failed requests of
-- a provider have grown by its entries among the errors of the answer, and its successful ones by one
-- if the answer came from it, and not at all otherwise.
pub search-requests :
    {W : Type 0} (now : W → ℕ × W) (e : Engine W) (req : SearchRequest) (w : W) (name : String)
    (ok : Bool) (c : PrometheusCollector)
    → value_of
        (requests_key name ok)
        (hook_all (search now e req (record { world = w; emitted = [] })).1.emitted c).counters
      ≡ value_of (requests_key name ok) c.counters
        + outcomes name ok
            (search now e req (record { world = w; emitted = [] })).0.0.diagnostics.errors
            (winner_of (search now e req (record { world = w; emitted = [] })).0)
search-requests {W = W} now e req w name ok c =
    let begin : Run W = record { world = w; emitted = [] } in
    let out = search now e req begin in
    hook_all-requests out.1.emitted name ok c
    ∙ ap (◌+◌ (value_of (requests_key name ok) c.counters))
        (ended-Narrated e req w name ok (search-Narrated e req begin now))

hook_all-reacts :
    (evs : List Event) (c : PrometheusCollector) → after_events hook evs c ≡ hook_all evs c
hook_all-reacts [] c = refl
hook_all-reacts (ev ∷ evs) c = hook_all-reacts evs (hook ev c)

-- With `Hook` of a collector as the hook of the engine, a search leaves this in the counters of that
-- collector: the failed requests of a provider have grown by its entries among the errors of the
-- answer, and its successful ones by one if the answer came from it, and not at all otherwise.
pub search-collected :
    {W : Type 0} (watch : W → PrometheusCollector) (h : Hook W) (now : W → ℕ × W)
    (providers : List (Option (Provider W))) (req : SearchRequest) (w : W) (name : String)
    (ok : Bool)
    → ((ev : Event) (w' : W) → watch (h ev w') ≡ hook ev (watch w'))
    → ((w' : W) → watch (now w').1 ≡ watch w')
    → All (Quiet watch) providers
    → let e : Engine W = record { providers = providers; hooks = some h ∷ [] } in
      let (out, after) = search now e req (record { world = w; emitted = [] }) in
      value_of (requests_key name ok) (watch after.world).counters
      ≡ value_of (requests_key name ok) (watch w).counters
        + outcomes name ok out.0.diagnostics.errors (winner_of out)
search-collected {W = W} watch h now providers req w name ok reacts clock quiet =
    let e : Engine W = record { providers = providers; hooks = some h ∷ [] } in
    ap (λ (c : PrometheusCollector). value_of (requests_key name ok) c.counters)
      (search-seen watch hook h reacts now clock providers req w quiet
        ∙ hook_all-reacts (search now e req (record { world = w; emitted = [] })).1.emitted
            (watch w))
    ∙ search-requests now e req w name ok (watch w)

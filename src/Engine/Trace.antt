-- ===== src/Engine/Trace.antt =====
-- The events of an attempt of `Engine.Search`, and the script that a whole search follows.
pub mod Whole
use goddgs.Prelude.{
  ℕ, ◌+◌, String, ◌≡◌, refl, sym, ap, ◌∙◌, ◌⊎◌, inl, inr, Bool, true, false, ◌&&◌, not, Option,
  none, some, List, [], ◌∷◌, ◌++◌, map, arith, Bool-cases, if◌then◌else◌,
}
use goddgs.Prelude.Text.{is_blank}
use mathlib.Core.List.{map-append, append-nil, append_assoc}
use goddgs.Failure.{ErrorKind, GoError, nil, is_nil, SearchError}
use goddgs.Api.{
  SearchRequest, SearchResponse, Diagnostics, ProviderError, Event, EventType, search_start,
  search_finish, provider_start, provider_end, blocked_seen, fallback,
}
use goddgs.Engine.{
  Engine, Provider, Hook, Run, Attempt, enabled_names, is_empty, is_blocked_kind, block_of, event,
  failure_of, failure_entry, recorded, counted, conclude, emit, report_failure, attempt, exhausted,
  search_from, search, normalize, empty,
}
use goddgs.Engine.Ending.{loop_end, loop_nil, loop_off, loop_won, loop_lost, tried}

-- An event without its duration and the details of a block.
abbrev pub bare : Event → Event
bare ev = record ev { duration = 0; block = none }

abbrev pub told : {W : Type 0} → Run W → List Event
told r = map bare r.emitted

-- What the events say of a failure that has the entry `e`; `last` as in the loop.
abbrev pub failed_events : Bool → ProviderError → List Event
failed_events last e =
    let with_kind = λ (t : EventType). record (event t e.provider 0) { err_kind = some e.kind } in
    let ended : List Event =
      with_kind provider_end ∷ (if last then [] else with_kind fallback ∷ []) in
    if is_blocked_kind e.kind then with_kind blocked_seen ∷ ended else ended

module _ {W : Type 0} (hooks : List (Option (Hook W))) where
  pub emit-told : (ev : Event) (r : Run W) → told (emit hooks ev r) ≡ told r ++ bare ev ∷ []
  unfolding emit
  emit-told ev r = map-append bare r.emitted (ev ∷ [])

  report_failure-told :
      (last : Bool) (name : String) (dur : ℕ) (se : SearchError) (r : Run W)
      → told (report_failure hooks last name dur se r)
        ≡ told r ++ failed_events last (failure_entry name se)
  unfolding report_failure block_of event
  report_failure-told last name dur se r = elim (Bool-cases (is_blocked_kind se.kind)) [
    | inl blocks ↦ elim (Bool-cases last) [
      | inl ends ↦ rw (blocks, ends) (simp (emit-told, append_assoc))
      | inr more ↦ rw (blocks, more) (simp (emit-told, append_assoc))
    ]
    | inr other ↦ elim (Bool-cases last) [
      | inl ends ↦ rw (other, ends) (simp emit-told)
      | inr more ↦ rw (other, more) (simp (emit-told, append_assoc))
    ]
  ]

-- How a search that asks the providers `ps` in turn is told: its failures, which are those of the
-- diagnostics, the provider that answered, if one did, and the events.
pub data Script {W : Type 0}
    : List (Option (Provider W)) → List ProviderError → Option String → List Event → Type 0 where
  nobody_left : Script [] [] none []
  passed_over :
      {q : Option (Provider W)} {ps : List (Option (Provider W))} {es : List ProviderError}
      {winner : Option String} {evs : List Event}
      → enabled_names (q ∷ []) ≡ []
      → Script ps es winner evs
      → Script (q ∷ ps) es winner evs
  failure :
      {p : Provider W} {ps : List (Option (Provider W))} {e : ProviderError}
      {es : List ProviderError} {winner : Option String} {evs : List Event}
      → p.enabled ≡ true
      → e.provider ≡ p.name
      → Script ps es winner evs
      → Script
          (some p ∷ ps)
          (e ∷ es)
          winner
          (event provider_start p.name 0 ∷ failed_events (is_empty ps) e ++ evs)
  success :
      {p : Provider W} {ps : List (Option (Provider W))}
      → p.enabled ≡ true
      → Script (some p ∷ ps) [] (some p.name) (
          event provider_start p.name 0
          ∷ record (event provider_end p.name 0) { success = true }
          ∷ [])

-- The provider of an answer that is no error.
abbrev pub winner_of : SearchResponse × GoError → Option String
winner_of out = if is_nil out.1 then some out.0.provider else none

module _ {W : Type 0} where
  pub record WonTold (p : Provider W) (diag : Diagnostics) (r : Run W) (a : Attempt W)
      : Type 0 where
    pub response : SearchResponse
    pub won : a.response ≡ some response
    pub name : response.provider ≡ p.name
    pub errors : response.diagnostics.errors ≡ diag.errors
    pub emitted :
        told a.run
        ≡ told r
          ++ event provider_start p.name 0
            ∷ record (event provider_end p.name 0) { success = true }
            ∷ []

  pub record LostTold (last : Bool) (p : Provider W) (diag : Diagnostics) (r : Run W)
      (a : Attempt W) : Type 0 where
    pub entry : ProviderError
    pub lost : a.response ≡ none
    pub name : entry.provider ≡ p.name
    pub errors : a.diagnostics.errors ≡ diag.errors ++ entry ∷ []
    pub emitted : told a.run ≡ told r ++ event provider_start p.name 0 ∷ failed_events last entry

  module _ (now : W → ℕ × W) (hooks : List (Option (Hook W))) (req : SearchRequest) where
    pub attempt-told :
        (ahead : ℕ) (last : Bool) (p : Provider W) (diag : Diagnostics) (r : Run W)
        → WonTold p diag r (attempt now hooks req ahead last p diag r)
          ⊎ LostTold last p diag r (attempt now hooks req ahead last p diag r)
    unfolding attempt conclude recorded counted event
    attempt-told ahead last p diag r =
        let r1 = emit hooks (event provider_start p.name 0) r in
        let out = (p.search req (now r1.world).1).0 in
        elim (Bool-cases (is_nil out.1 && not (is_empty out.0))) [
          | inl ok ↦ rw ok (
              inl (record {
                response = _;
                won = refl;
                name = refl;
                errors = refl;
                emitted = simp (emit-told, append_assoc);
              }))
          | inr bad ↦ rw bad (
              inr (record {
                entry = failure_entry p.name (failure_of p.name out.1);
                lost = refl;
                name = refl;
                errors = refl;
                emitted = simp (report_failure-told, emit-told, append_assoc);
              }))
        ]

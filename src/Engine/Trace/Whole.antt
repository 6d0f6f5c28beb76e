-- ===== src/Engine/Trace/Whole.antt =====
-- The events of `Engine.Search`, and the diagnostics that they go with.
use goddgs.Prelude.{
  ℕ, ◌+◌, ◌≡◌, refl, sym, ap, ◌∙◌, inl, inr, true, false, Option, none, some, List, [], ◌∷◌, ◌++◌,
  arith, Bool-cases,
}
use goddgs.Prelude.Text.{is_blank}
use mathlib.Core.List.{map-append, append-nil, append_assoc}
use goddgs.Failure.{GoError, nil}
use goddgs.Api.{
  SearchRequest, SearchResponse, Diagnostics, ProviderError, Event, search_start, search_finish,
  provider_start,
}
use goddgs.Engine.{
  Engine, Provider, Hook, Run, Attempt, enabled_names, is_empty, event, emit, exhausted,
  search_from, search, normalize, empty,
}
use goddgs.Engine.Ending.{loop_end, loop_nil, loop_off, loop_won, loop_lost}
use goddgs.Engine.Trace.{
  bare, told, failed_events, emit-told, Script, nobody_left, passed_over, failure, success,
  winner_of, WonTold, LostTold, attempt-told,
}

winner_of-exhausted : (diag : Diagnostics) → winner_of (exhausted diag) ≡ none
unfolding exhausted
winner_of-exhausted diag = ground arith

module _ {W : Type 0} where
  -- What a part of the loop adds to the errors and to the events.
  record Told (ps : List (Option (Provider W))) (diag : Diagnostics) (r : Run W)
      (out : (SearchResponse × GoError) × Run W) : Type 0 where
    errors : List ProviderError
    events : List Event
    recorded : out.0.0.diagnostics.errors ≡ diag.errors ++ errors
    emitted : told out.1 ≡ told r ++ events
    script : Script ps errors (winner_of out.0) events

  module _ (now : W → ℕ × W) (hooks : List (Option (Hook W))) (req : SearchRequest) where
    passed-Told :
        (q : Option (Provider W)) (ps : List (Option (Provider W))) (diag : Diagnostics) (r : Run W)
        (out : (SearchResponse × GoError) × Run W)
        → enabled_names (q ∷ []) ≡ []
        → Told ps diag r out
        → Told (q ∷ ps) diag r out
    passed-Told q ps diag r out skips t = record {
      errors = t.errors;
      events = t.events;
      recorded = t.recorded;
      emitted = t.emitted;
      script = passed_over skips t.script;
    }

    lost-Told :
        (p : Provider W) (ps : List (Option (Provider W))) (diag : Diagnostics) (r : Run W)
        (a : Attempt W) (out : (SearchResponse × GoError) × Run W)
        → p.enabled ≡ true
        → LostTold (is_empty ps) p diag r a
        → Told ps a.diagnostics a.run out
        → Told (some p ∷ ps) diag r out
    lost-Told p ps diag r a out on l t = record {
      errors = l.entry ∷ t.errors;
      events = event provider_start p.name 0 ∷ failed_events (is_empty ps) l.entry ++ t.events;
      recorded =
          t.recorded
          ∙ ap (λ es. es ++ t.errors) l.errors
          ∙ append_assoc diag.errors (l.entry ∷ []) t.errors;
      emitted =
          t.emitted ∙ ap (λ evs. evs ++ t.events) l.emitted ∙ append_assoc (told r) _ t.events;
      script = failure on l.name t.script;
    }

    won-Told :
        (p : Provider W) (ps : List (Option (Provider W))) (diag : Diagnostics) (r : Run W)
        (a : Attempt W)
        → p.enabled ≡ true
        → (won : WonTold p diag r a) → Told (some p ∷ ps) diag r ((won.response, nil), a.run)
    won-Told p ps diag r a on won = record {
      errors = [];
      events = _;
      recorded = won.errors ∙ sym (append-nil diag.errors);
      emitted = won.emitted;
      script = rw won.name (success on);
    }

    end-Told : (diag : Diagnostics) (r : Run W) → Told [] diag r (exhausted diag, r)
    end-Told diag r = record {
      errors = [];
      events = [];
      recorded = unfold exhausted in sym (append-nil diag.errors);
      emitted = sym (append-nil (told r));
      script = rw (winner_of-exhausted diag) nobody_left;
    }

    search_from-Told :
        (ahead : ℕ) (ps : List (Option (Provider W))) (diag : Diagnostics) (r : Run W)
        → Told ps diag r (search_from now hooks req ahead ps diag r)
    search_from-Told ahead [] diag r = rw (loop_end req now hooks ahead diag r) (end-Told diag r)
    search_from-Told ahead (none ∷ ps) diag r =
        rw (loop_nil req now hooks ahead ps diag r)
          (passed-Told none ps diag r _ refl (search_from-Told (ahead + 1) ps diag r))
    search_from-Told ahead (some p ∷ ps) diag r = elim (Bool-cases p.enabled) [
      | inr off ↦
          rw (loop_off req now hooks ahead p ps diag r off) (
            passed-Told (some p) ps diag r _ (rw off refl) (search_from-Told (ahead + 1) ps diag r))
      | inl on ↦ elim (attempt-told now hooks req ahead (is_empty ps) p diag r) [
        | inl won ↦
            rw (loop_won req now hooks ahead p ps diag r won.response on won.won)
              (won-Told p ps diag r _ on won)
        | inr lost ↦
            rw (loop_lost req now hooks ahead p ps diag r on lost.lost)
              (lost-Told p ps diag r _ _ on lost (search_from-Told (ahead + 1) ps _ _))
      ]
    ]

module _ {W : Type 0} (e : Engine W) (req : SearchRequest) (r : Run W) where
  -- A search either tells nothing, since its query is blank, or begins, plays a script, and finishes.
  pub data Narrated (out : (SearchResponse × GoError) × Run W) : Type 0 where
    silent :
        is_blank req.query ≡ true
        → out.1 ≡ r
        → out.0.0.diagnostics.errors ≡ []
        → winner_of out.0 ≡ none
        → Narrated out
    played :
        (events : List Event)
        → is_blank req.query ≡ false
        → told out.1 ≡ told r ++ event search_start "" 0 ∷ (events ++ event search_finish "" 0 ∷ [])
        → Script e.providers out.0.0.diagnostics.errors (winner_of out.0) events
        → Narrated out

  -- The events of a search tell what its answer says. With a blank query there is none. Else they are
  -- the start and the finish of the search, and between them, for each provider that was asked, in
  -- order: its start, and then, if it failed, a block where its entry among the errors says so, its end
  -- with the kind of that entry, and a fallback unless it stands last in the list; or its end with
  -- success, after which no other provider is asked. Durations and the details of blocks are left out.
  pub search-Narrated : (now : W → ℕ × W) → Narrated (search now e req r)
  unfolding search event
  search-Narrated now = elim (Bool-cases (is_blank req.query)) [
    | inl blank ↦ rw blank (silent blank refl refl refl)
    | inr asked ↦
        let began : Run W = record r { world = (now r.world).1 } in
        let opened : Run W = emit e.hooks (event search_start "" 0) began in
        let t = search_from-Told now e.hooks (normalize req) 0 e.providers empty opened in
        rw asked (
          played t.events asked
            (map-append bare _ (event search_finish "" _ ∷ [])
              ∙ ap (λ evs. evs ++ event search_finish "" 0 ∷ [])
                  (t.emitted
                    ∙ ap (λ evs. evs ++ t.events)
                        (emit-told e.hooks (event search_start "" 0) began))
              ∙ simp append_assoc)
            (rw t.recorded t.script))
  ]

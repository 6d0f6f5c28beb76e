-- ===== src/Engine/Seen.antt =====
-- The hook of an engine: what it has seen after a search.
use goddgs.Prelude.{
  ℕ, ◌+◌, ◌≡◌, refl, sym, ap, ◌∙◌, inl, inr, Bool, ◌&&◌, not, Option, none, some, List, [], ◌∷◌,
  ◌++◌, String, All, Bool-cases, Option-cases,
}
use goddgs.Prelude.Text.{is_blank}
use goddgs.Failure.{GoError, is_nil, SearchError}
use goddgs.Api.{SearchResult, SearchRequest, Diagnostics, Event, search_start, provider_start}
use goddgs.Engine.{
  Engine, Provider, Hook, Run, is_empty, block_of, event, failure_of, deliver, emit, report_failure,
  attempt, conclude, search_from, search, normalize, empty,
}
use goddgs.Engine.Ending.{loop_end, loop_nil, loop_off, loop_won, loop_lost, tried}

-- A reaction to events one after another.
abbrev pub after_events : {V : Type 0} → (Event → V → V) → List Event → V → V
after_events react [] v = v
after_events react (ev ∷ evs) v = after_events react evs (react ev v)

after_events-append :
    {V : Type 0} (react : Event → V → V) (evs : List Event) (ev : Event) (v : V)
    → after_events react (evs ++ ev ∷ []) v ≡ react ev (after_events react evs v)
after_events-append react [] ev v = refl
after_events-append react (x ∷ evs) ev v = after_events-append react evs ev (react x v)

-- A provider that leaves a part of the world alone.
abbrev pub Quiet : {W V : Type 0} → (W → V) → Option (Provider W) → Type 0
Quiet watch none = Unit {0}
Quiet {W} watch (some p) = (req : SearchRequest) (w : W) → watch (p.search req w).1 ≡ watch w

module _ {W V : Type 0} (watch : W → V) (react : Event → V → V) (h : Hook W) (start : V)
    (reacts : (ev : Event) (w : W) → watch (h ev w) ≡ react ev (watch w)) where
  abbrev hooks : List (Option (Hook W))
  hooks = some h ∷ []

  -- The part has seen the events of the run.
  abbrev Seen : Run W → Type 0
  Seen r = watch r.world ≡ after_events react r.emitted start

  emit-Seen : (ev : Event) (r : Run W) → Seen r → Seen (emit hooks ev r)
  unfolding emit deliver
  emit-Seen ev r s =
      reacts ev r.world ∙ ap (react ev) s ∙ sym (after_events-append react r.emitted ev start)

  report_failure-Seen :
      (last : Bool) (name : String) (dur : ℕ) (se : SearchError) (r : Run W)
      → Seen r
      → Seen (report_failure hooks last name dur se r)
  unfolding report_failure
  report_failure-Seen last name dur se r s = elim (Option-cases (block_of se)) [
    | inl none_seen ↦ elim (Bool-cases last) [
      | inl ends ↦ rw (none_seen, ends) (emit-Seen _ _ s)
      | inr more ↦ rw (none_seen, more) (emit-Seen _ _ (emit-Seen _ _ s))
    ]
    | inr (info, found) ↦ elim (Bool-cases last) [
      | inl ends ↦ rw (found, ends) (emit-Seen _ _ (emit-Seen _ _ s))
      | inr more ↦ rw (found, more) (emit-Seen _ _ (emit-Seen _ _ (emit-Seen _ _ s)))
    ]
  ]

  module _ (now : W → ℕ × W) (clock : (w : W) → watch (now w).1 ≡ watch w)
      (req : SearchRequest) where
    conclude-Seen :
        (ahead : ℕ) (last : Bool) (name : String) (out : List SearchResult × GoError) (dur : ℕ)
        (diag : Diagnostics) (r : Run W)
        → Seen r
        → Seen (conclude hooks ahead last name out dur diag r).run
    unfolding conclude
    conclude-Seen ahead last name out dur diag r s =
        elim (Bool-cases (is_nil out.1 && not (is_empty out.0))) [
          | inl ok ↦ rw ok (emit-Seen _ _ s)
          | inr bad ↦ rw bad (report_failure-Seen last name dur (failure_of name out.1) r s)
        ]

    attempt-Seen :
        (ahead : ℕ) (last : Bool) (p : Provider W) (diag : Diagnostics) (r : Run W)
        → Quiet watch (some p)
        → Seen r
        → Seen (attempt now hooks req ahead last p diag r).run
    unfolding attempt
    attempt-Seen ahead last p diag r quiet s =
        let begun = emit-Seen (event provider_start p.name 0) r s in
        conclude-Seen ahead last p.name _ _ _ _ (clock _ ∙ quiet req _ ∙ clock _ ∙ begun)

    search_from-Seen :
        (ahead : ℕ) (ps : List (Option (Provider W))) (diag : Diagnostics) (r : Run W)
        → All (Quiet watch) ps
        → Seen r
        → Seen (search_from now hooks req ahead ps diag r).1
    search_from-Seen ahead [] diag r q s = rw (loop_end req now hooks ahead diag r) s
    search_from-Seen ahead (none ∷ ps) diag r q s =
        rw (loop_nil req now hooks ahead ps diag r) (search_from-Seen (ahead + 1) ps diag r q.1 s)
    search_from-Seen ahead (some p ∷ ps) diag r q s =
        let a = attempt-Seen ahead (is_empty ps) p diag r q.0 s in
        elim (Bool-cases p.enabled) [
          | inr off ↦
              rw (loop_off req now hooks ahead p ps diag r off)
                (search_from-Seen (ahead + 1) ps diag r q.1 s)
          | inl on ↦ elim (Option-cases (tried req now hooks ahead p ps diag r).response) [
            | inl none_won ↦
                rw (loop_lost req now hooks ahead p ps diag r on none_won)
                  (search_from-Seen (ahead + 1) ps _ _ q.1 a)
            | inr (resp, won) ↦ rw (loop_won req now hooks ahead p ps diag r resp on won) a
          ]
        ]

module _ {W V : Type 0} (watch : W → V) (react : Event → V → V) (h : Hook W)
    (reacts : (ev : Event) (w : W) → watch (h ev w) ≡ react ev (watch w)) (now : W → ℕ × W)
    (clock : (w : W) → watch (now w).1 ≡ watch w) where
  -- The only hook of an engine sees exactly the events of a search, in their order: what it keeps in a part
  -- of the world that nothing else changes is its reaction to them, one after another.
  pub search-seen :
      (providers : List (Option (Provider W))) (req : SearchRequest) (w : W)
      → All (Quiet watch) providers
      → let e : Engine W = record { providers = providers; hooks = some h ∷ [] } in
        let after = (search now e req (record { world = w; emitted = [] })).1 in
        watch after.world ≡ after_events react after.emitted (watch w)
  unfolding search
  search-seen providers req w quiet = elim (Bool-cases (is_blank req.query)) [
    | inl blank ↦ rw blank refl
    | inr asked ↦
        let began : Run W = record { world = (now w).1; emitted = [] } in
        let opened : Run W = emit (some h ∷ []) (event search_start "" 0) began in
        let looped : Run W =
          (search_from now (some h ∷ []) (normalize req) 0 providers empty opened).1 in
        let ended : Run W = record looped { world = (now looped.world).1 } in
        let seen =
          search_from-Seen watch react h (watch w) reacts now clock (normalize req) 0 providers
            empty opened quiet
            (emit-Seen watch react h (watch w) reacts (event search_start "" 0) began (clock w)) in
        rw asked (emit-Seen watch react h (watch w) reacts _ ended (clock _ ∙ seen))
  ]

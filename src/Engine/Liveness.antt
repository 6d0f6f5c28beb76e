-- ===== src/Engine/Liveness.antt =====
-- A provider that always answers makes the search succeed.
use goddgs.Prelude.{
  ℕ, ◌+◌, ◌≡◌, sym, ◌∙◌, ap, ◌≢◌, inl, inr, true, false, Option, none, some, List, [], ◌∷◌, ◌++◌,
  Bool-cases,
}
use goddgs.Prelude.Text.{is_blank}
use goddgs.Failure.{nil}
use goddgs.Api.{SearchResult, SearchRequest, Diagnostics}
use goddgs.Engine.{Provider, Hook, Engine, Run, is_empty, search_from, search, normalize}
use goddgs.Engine.Outcome.{attempt-Settled, Lost}
use goddgs.Engine.Ending.{loop_nil, loop_off, loop_won, loop_lost}
use goddgs.Engine.Selection.{search_asked}

module _ {W : Type 0} (req : SearchRequest) where
  -- Whatever the world is like, the provider answers the request with at least one result.
  abbrev AlwaysAnswers : Provider W → Type 0
  AlwaysAnswers p =
      (w : W) → (rs : List SearchResult) × (rs ≢ []) × ((p.search req w).0 ≡ (rs, nil))

  not-Lost : (p : Provider W) (d d' : Diagnostics) → AlwaysAnswers p → ¬ Lost req p d d'
  not-Lost p d d' sure lost =
      let (rs, some_one, e) = sure lost.world in
      elim lost.refused [
        | inl bad ↦ bad (ap (λ o. o.1) e)
        | inr nothing ↦ some_one (sym (ap (λ o. o.0) e) ∙ nothing)
      ]

  module _ (now : W → ℕ × W) (hooks : List (Option (Hook W))) where
    search_from-answers :
        (before : List (Option (Provider W))) (p : Provider W) (after : List (Option (Provider W)))
        (ahead : ℕ) (diag : Diagnostics) (r : Run W)
        → p.enabled ≡ true
        → AlwaysAnswers p
        → (search_from now hooks req ahead (before ++ some p ∷ after) diag r).0.1 ≡ nil
    search_from-answers [] p after ahead diag r on sure =
        elim (attempt-Settled req now hooks ahead (is_empty after) p diag r) [
          | inl (resp, e, _) ↦ rw (loop_won req now hooks ahead p after diag r resp on e)
          | inr (e, lost) ↦ absurd (not-Lost p _ _ sure lost)
        ]
    search_from-answers (none ∷ qs) p after ahead diag r on sure =
        rw (loop_nil req now hooks ahead (qs ++ some p ∷ after) diag r)
          (search_from-answers qs p after (ahead + 1) diag r on sure)
    search_from-answers (some q ∷ qs) p after ahead diag r on sure =
        let ps = qs ++ some p ∷ after in
        elim (Bool-cases q.enabled) [
          | inr off ↦
              rw (loop_off req now hooks ahead q ps diag r off)
                (search_from-answers qs p after (ahead + 1) diag r on sure)
          | inl q_on ↦ elim (attempt-Settled req now hooks ahead (is_empty ps) q diag r) [
            | inl (resp, e, _) ↦ rw (loop_won req now hooks ahead q ps diag r resp q_on e)
            | inr (e, _) ↦
                rw (loop_lost req now hooks ahead q ps diag r q_on e)
                  (search_from-answers qs p after (ahead + 1) _ _ on sure)
          ]
        ]

-- If one enabled provider of the chain always answers, a search with a query succeeds, however the
-- others fail.
pub search-answers :
    {W : Type 0} (now : W → ℕ × W) (e : Engine W) (req : SearchRequest) (r : Run W)
    (before : List (Option (Provider W))) (p : Provider W) (after : List (Option (Provider W)))
    → is_blank req.query ≡ false
    → e.providers ≡ before ++ some p ∷ after
    → p.enabled ≡ true
    → AlwaysAnswers (normalize req) p
    → (search now e req r).0.1 ≡ nil
search-answers now e req r before p after asked split on sure =
    rw (search_asked now e req r asked, split)
      (search_from-answers (normalize req) now e.hooks before p after 0 _ _ on sure)

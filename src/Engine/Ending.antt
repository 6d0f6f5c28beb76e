-- ===== src/Engine/Ending.antt =====
-- How the loop of `Engine.Search` ends.
use goddgs.Prelude.{
  ℕ, ◌+◌, ◌≡◌, refl, sym, ap, ◌∙◌, inl, inr, true, false, Option, none, some, List, [], ◌∷◌, ◌++◌,
  arith, ltb, length, Bool-cases,
}
use mathlib.Core.List.{append-nil, append_assoc}
use goddgs.Failure.{GoError, nil}
use goddgs.Api.{SearchRequest, SearchResponse, Diagnostics}
use goddgs.Engine.{
  Provider, Hook, Run, Attempt, enabled_names, is_empty, attempt, exhausted, search_from,
}
use goddgs.Engine.Outcome.{blamed, Chosen, Won, Lost, attempt-Settled}

extend {ℓ} :
    {A : Type ℓ} (xs t : List A) (a : A) {ys zs : List A}
    → zs ≡ ys ++ t
    → ys ≡ xs ++ a ∷ []
    → zs ≡ xs ++ a ∷ t
extend xs t a e f = rw (e, f) (append_assoc xs (a ∷ []) t)

module _ {W : Type 0} (req : SearchRequest) where
  -- The loop ends with a chosen response, or with every enabled provider asked and failed.
  pub data Ended (ahead : ℕ) (ps : List (Option (Provider W))) (diag : Diagnostics)
      (out : SearchResponse × GoError) : Type 0 where
    chosen : out.1 ≡ nil → Chosen req ahead ps diag out.0 → Ended ahead ps diag out
    all_failed :
        (last : Diagnostics)
        → out ≡ exhausted last
        → last.provider_chain ≡ diag.provider_chain ++ enabled_names ps
        → blamed last ≡ blamed diag ++ enabled_names ps
        → last.attempts ≡ diag.attempts + length (enabled_names ps)
        → Ended ahead ps diag out

  skip-Ended :
      {ahead : ℕ} (q : Option (Provider W)) (ps : List (Option (Provider W))) {diag : Diagnostics}
      {out : SearchResponse × GoError}
      → ((qs : List (Option (Provider W))) → enabled_names (q ∷ qs) ≡ enabled_names qs)
      → Ended (ahead + 1) ps diag out
      → Ended ahead (q ∷ ps) diag out
  skip-Ended q ps skips (chosen e c) = chosen e (record {
    before = q ∷ c.before;
    chosen = c.chosen;
    after = c.after;
    split = ap (◌∷◌ q) c.split;
    enabled = c.enabled;
    answered = c.answered;
    fallback = c.fallback ∙ ap (ltb 0) (omega arith);
    chain = rw (skips c.before) c.chain;
    failed = rw (skips c.before) c.failed;
    attempts = rw (skips c.before) c.attempts;
  })
  skip-Ended q ps skips (all_failed last e ch fl at) =
      all_failed last e (rw (skips ps) ch) (rw (skips ps) fl) (rw (skips ps) at)

  Lost-Ended :
      {ahead : ℕ} (p : Provider W) (ps : List (Option (Provider W))) {diag next : Diagnostics}
      {out : SearchResponse × GoError}
      → p.enabled ≡ true
      → Lost req p diag next
      → Ended (ahead + 1) ps next out
      → Ended ahead (some p ∷ ps) diag out
  Lost-Ended p ps on lost (chosen e c) = chosen e (record {
    before = some p ∷ c.before;
    chosen = c.chosen;
    after = c.after;
    split = ap (◌∷◌ (some p)) c.split;
    enabled = c.enabled;
    answered = c.answered;
    fallback = c.fallback ∙ ap (ltb 0) (omega arith);
    chain = rw on (extend _ _ _ c.chain lost.chain);
    failed = rw on (extend _ _ _ c.failed lost.failed);
    attempts = rw on (omega (arith, c.attempts, lost.attempts));
  })
  Lost-Ended p ps on lost (all_failed last e ch fl at) =
      all_failed last e (rw on (extend _ _ _ ch lost.chain)) (rw on (extend _ _ _ fl lost.failed))
        (rw on (omega (arith, at, lost.attempts)))

  module _ (now : W → ℕ × W) (hooks : List (Option (Hook W))) where
    pub loop_end :
        (ahead : ℕ) (diag : Diagnostics) (r : Run W)
        → search_from now hooks req ahead [] diag r ≡ (exhausted diag, r)
    unfolding search_from
    loop_end ahead diag r = refl

    pub loop_nil :
        (ahead : ℕ) (ps : List (Option (Provider W))) (diag : Diagnostics) (r : Run W)
        → search_from now hooks req ahead (none ∷ ps) diag r
          ≡ search_from now hooks req (ahead + 1) ps diag r
    unfolding search_from
    loop_nil ahead ps diag r = refl

    module _ (ahead : ℕ) (p : Provider W) (ps : List (Option (Provider W))) (diag : Diagnostics)
        (r : Run W) where
      abbrev pub tried : Attempt W
      tried = attempt now hooks req ahead (is_empty ps) p diag r

      pub loop_off :
          p.enabled ≡ false
          → search_from now hooks req ahead (some p ∷ ps) diag r
            ≡ search_from now hooks req (ahead + 1) ps diag r
      unfolding search_from
      loop_off off = ground arith

      pub loop_won :
          (resp : SearchResponse)
          → p.enabled ≡ true
          → tried.response ≡ some resp
          → search_from now hooks req ahead (some p ∷ ps) diag r ≡ ((resp, nil), tried.run)
      unfolding search_from
      loop_won resp on e = ground arith

      pub loop_lost :
          p.enabled ≡ true
          → tried.response ≡ none
          → search_from now hooks req ahead (some p ∷ ps) diag r
            ≡ search_from now hooks req (ahead + 1) ps tried.diagnostics tried.run
      unfolding search_from
      loop_lost on e = ground arith

    Won-Chosen :
        (ahead : ℕ) (p : Provider W) (ps : List (Option (Provider W))) (diag : Diagnostics)
        (resp : SearchResponse)
        → p.enabled ≡ true
        → Won req ahead p diag resp
        → Chosen req ahead (some p ∷ ps) diag resp
    Won-Chosen ahead p ps diag resp on won = record {
      before = [];
      chosen = p;
      after = ps;
      split = refl;
      enabled = on;
      answered = won.answered;
      fallback = won.fallback ∙ ap (ltb 0) (omega arith);
      chain = won.chain;
      failed = won.failed ∙ sym (append-nil _);
      attempts = omega (arith, won.attempts);
    }

    pub search_from-Ended :
        (ahead : ℕ) (ps : List (Option (Provider W))) (diag : Diagnostics) (r : Run W)
        → Ended ahead ps diag (search_from now hooks req ahead ps diag r).0
    search_from-Ended ahead [] diag r =
        rw (loop_end ahead diag r)
          (all_failed diag refl (simp append-nil) (simp append-nil) (omega arith))
    search_from-Ended ahead (none ∷ ps) diag r =
        rw (loop_nil ahead ps diag r)
          (skip-Ended none ps (λ qs. refl) (search_from-Ended (ahead + 1) ps diag r))
    search_from-Ended ahead (some p ∷ ps) diag r = elim (Bool-cases p.enabled) [
      | inr off ↦
          rw (loop_off ahead p ps diag r off)
            (skip-Ended (some p) ps (λ qs. rw off) (search_from-Ended (ahead + 1) ps diag r))
      | inl on ↦ elim (attempt-Settled req now hooks ahead (is_empty ps) p diag r) [
        | inl (resp, e, won) ↦
            rw (loop_won ahead p ps diag r resp on e)
              (chosen refl (Won-Chosen ahead p ps diag resp on won))
        | inr (e, lost) ↦
            rw (loop_lost ahead p ps diag r on e)
              (Lost-Ended p ps on lost (search_from-Ended (ahead + 1) ps _ _))
      ]
    ]

-- ===== src/Engine/Outcome.antt =====
-- How one attempt of `Engine.Search` ends.
use goddgs.Prelude.{
  ℕ, ◌+◌, String, ◌≡◌, refl, ◌≢◌, ◌⊎◌, inl, inr, Bool, true, false, Option, none, some, List, [],
  ◌∷◌, ◌++◌, map, arith, ltb, length, ◌&&◌, not,
}
use mathlib.Core.List.{map-append}
use goddgs.Failure.{GoError, nil, is_nil}
use goddgs.Api.{SearchResult, SearchRequest, SearchResponse, Diagnostics, ProviderError}
use goddgs.Engine.{
  Provider, Hook, Run, Attempt, enabled_names, is_empty, attempt, counted, recorded, conclude,
}

abbrev pub blamed : Diagnostics → List String
blamed diag = map (λ (e : ProviderError). e.provider) diag.errors

-- The test of the loop on what a provider returned.
answer-cases :
    (out : List SearchResult × GoError)
    → ((is_nil out.1 && not (is_empty out.0) ≡ true) × (out ≡ (out.0, nil)) × (out.0 ≢ []))
      ⊎ ((is_nil out.1 && not (is_empty out.0) ≡ false) × ((out.1 ≢ nil) ⊎ (out.0 ≡ [])))
answer-cases ([], err) = inr (ground arith, inr refl)
answer-cases (x ∷ xs, nil) = inl (refl, refl, λ e. cc)
answer-cases (x ∷ xs, err) = inr (ground arith, inl (λ e. cc))

module _ {W : Type 0} (req : SearchRequest) where
  -- The response is what provider `p` returned, when it was asked with the request.
  pub record Answered (p : Provider W) (resp : SearchResponse) : Type 0 where
    pub name : resp.provider ≡ p.name
    pub world : W
    pub answer : (p.search req world).0 ≡ (resp.results, nil)
    pub found : resp.results ≢ []

  -- The response comes from one enabled provider of the list, after every enabled one before it
  -- was asked and failed.
  pub record Chosen (ahead : ℕ) (ps : List (Option (Provider W))) (diag : Diagnostics)
      (resp : SearchResponse) : Type 0 where
    pub before : List (Option (Provider W))
    pub chosen : Provider W
    pub after : List (Option (Provider W))
    pub split : ps ≡ before ++ some chosen ∷ after
    pub enabled : chosen.enabled ≡ true
    pub answered : Answered chosen resp
    pub fallback : resp.fallback_used ≡ ltb 0 (ahead + length before)
    pub chain :
        resp.diagnostics.provider_chain
        ≡ diag.provider_chain ++ (enabled_names before ++ chosen.name ∷ [])
    pub failed : blamed resp.diagnostics ≡ blamed diag ++ enabled_names before
    pub attempts : resp.diagnostics.attempts ≡ diag.attempts + length (enabled_names before) + 1

  pub record Won (ahead : ℕ) (p : Provider W) (diag : Diagnostics) (resp : SearchResponse)
      : Type 0 where
    pub answered : Answered p resp
    pub fallback : resp.fallback_used ≡ ltb 0 ahead
    pub chain : resp.diagnostics.provider_chain ≡ diag.provider_chain ++ p.name ∷ []
    pub failed : blamed resp.diagnostics ≡ blamed diag
    pub attempts : resp.diagnostics.attempts ≡ diag.attempts + 1

  -- A failed attempt: the provider returned an error or nothing, and the failure was recorded.
  pub record Lost (p : Provider W) (diag after : Diagnostics) : Type 0 where
    pub world : W
    pub refused : ((p.search req world).0.1 ≢ nil) ⊎ ((p.search req world).0.0 ≡ [])
    pub chain : after.provider_chain ≡ diag.provider_chain ++ p.name ∷ []
    pub failed : blamed after ≡ blamed diag ++ p.name ∷ []
    pub attempts : after.attempts ≡ diag.attempts + 1

  abbrev pub Settled : ℕ → Provider W → Diagnostics → Attempt W → Type 0
  Settled ahead p diag a =
      ((resp : SearchResponse) × (a.response ≡ some resp) × Won ahead p diag resp)
      ⊎ ((a.response ≡ none) × Lost p diag a.diagnostics)

  module _ (now : W → ℕ × W) (hooks : List (Option (Hook W))) where
    conclude-Settled :
        (ahead : ℕ) (last : Bool) (p : Provider W) (world : W) (dur : ℕ) (diag : Diagnostics)
        (r : Run W)
        → Settled ahead p diag (
            conclude hooks ahead last p.name (p.search req world).0 dur (counted p.name dur diag) r)
    unfolding conclude counted recorded
    conclude-Settled ahead last p world dur diag r = elim (answer-cases (p.search req world).0) [
      | inl (ok, answer, found) ↦ rw ok (
          inl (
            _,
            refl,
            record {
              answered = record { name = refl; world = world; answer = answer; found = found };
              fallback = refl;
              chain = refl;
              failed = refl;
              attempts = refl;
            },
          ))
      | inr (bad, refused) ↦ rw bad (
          inr (
            refl,
            record {
              world = world;
              refused = refused;
              chain = refl;
              failed = simp map-append;
              attempts = refl;
            },
          ))
    ]

    pub attempt-Settled :
        (ahead : ℕ) (last : Bool) (p : Provider W) (diag : Diagnostics) (r : Run W)
        → Settled ahead p diag (attempt now hooks req ahead last p diag r)
    unfolding attempt
    attempt-Settled ahead last p diag r = conclude-Settled ahead last p _ _ diag _

-- ===== src/Engine/Selection.antt =====
-- `Engine.Search` as its callers see it: which provider answers, and which error says that none did.
use goddgs.Prelude.{
  ℕ, String, ◌≡◌, refl, sym, ap, ◌∙◌, ◌≢◌, ◌⊎◌, inl, inr, Bool, true, false, List, [], ◌∷◌, arith,
  length, map, subst, Bool-cases,
}
use goddgs.Prelude.Text.{is_blank}
use goddgs.Failure.{
  ErrorKind, provider_unavailable, invalid_input, no_results, GoError, nil, message, search_error,
}
use goddgs.Api.{SearchRequest, SearchResponse, Diagnostics, ProviderError, search_start}
use goddgs.Engine.{
  Engine, Run, enabled_providers, exhausted, search_from, search, normalize, empty, is_empty, emit,
  event,
}
use goddgs.Engine.Outcome.{Chosen, blamed}
use goddgs.Engine.Ending.{Ended, chosen, all_failed, search_from-Ended}

-- The errors of the engine itself, in the order of the code.
abbrev pub engine_error : ErrorKind → Bool → String → GoError
engine_error kind temporary text = search_error kind "engine" temporary (message text) []

-- Why a search failed, with what its diagnostics hold.
pub data Refused {W : Type 0} (e : Engine W) (req : SearchRequest) (out : SearchResponse × GoError)
    : Type 0 where
  no_query :
      is_blank req.query ≡ true
      → out.1 ≡ engine_error invalid_input false "query is required"
      → Refused e req out
  none_enabled :
      is_blank req.query ≡ false
      → enabled_providers e ≡ []
      → out.1 ≡ engine_error provider_unavailable true "no enabled providers"
      → Refused e req out
  all_refused :
      is_blank req.query ≡ false
      → enabled_providers e ≢ []
      → out.1 ≡ engine_error no_results false "all providers exhausted"
      → out.0.diagnostics.provider_chain ≡ enabled_providers e
      → blamed out.0.diagnostics ≡ enabled_providers e
      → out.0.diagnostics.attempts ≡ length (enabled_providers e)
      → Refused e req out

errors-cases :
    (es : List ProviderError)
    → ((map (λ (x : ProviderError). x.provider) es ≡ []) × (is_empty es ≡ true))
      ⊎ ((map (λ (x : ProviderError). x.provider) es ≢ []) × (is_empty es ≡ false))
errors-cases [] = inl (refl, refl)
errors-cases (x ∷ xs) = inr ((λ h. cc), refl)

exhausted_error :
    (d : Diagnostics)
    → ((blamed d ≡ [])
        × ((exhausted d).1 ≡ engine_error provider_unavailable true "no enabled providers"))
      ⊎ ((blamed d ≢ [])
          × ((exhausted d).1 ≡ engine_error no_results false "all providers exhausted"))
unfolding exhausted
exhausted_error d = elim (errors-cases d.errors) [
  | inl (e, h) ↦ inl (e, simp h)
  | inr (e, h) ↦ inr (e, simp h)
]

exhausted_keeps : (d : Diagnostics) → (exhausted d).0.diagnostics ≡ d
unfolding exhausted
exhausted_keeps d = refl

module _ {W : Type 0} (now : W → ℕ × W) (e : Engine W) (req : SearchRequest) (r : Run W) where
  search_blank :
      is_blank req.query ≡ true
      → (search now e req r).0.1 ≡ engine_error invalid_input false "query is required"
  unfolding search
  search_blank b = rw (b, search)

  pub opened : Run W
  opened = emit e.hooks (event search_start "" 0) (record r { world = (now r.world).1 })

  pub search_asked :
      is_blank req.query ≡ false
      → (search now e req r).0
        ≡ (search_from now e.hooks (normalize req) 0 e.providers empty opened).0
  unfolding search opened
  search_asked b = rw (b, search)

  search-Ended :
      is_blank req.query ≡ false → Ended (normalize req) 0 e.providers empty (search now e req r).0
  search-Ended b =
      rw (search_asked b) (search_from-Ended (normalize req) now e.hooks 0 e.providers empty opened)

  -- A search without an error returns what one enabled provider of the chain answered to the
  -- request with its defaults filled in: its results, of which there is one at least, and its name.
  -- Every enabled provider before it was asked, in order, and has one entry among the errors, and
  -- nobody else was asked. `FallbackUsed` tells whether the provider stands first in the chain.
  pub search-Chosen :
      (resp : SearchResponse)
      → (search now e req r).0 ≡ (resp, nil)
      → Chosen (normalize req) 0 e.providers empty resp
  search-Chosen resp h = elim (Bool-cases (is_blank req.query)) [
    | inl b ↦ cc (search_blank b)
    | inr b ↦ elim (search-Ended b) [
      | chosen _ c ↦
          subst (λ (o : SearchResponse × GoError). Chosen (normalize req) 0 e.providers empty o.0) h
            c
      | all_failed last out _ _ _ ↦ elim (exhausted_error last) [
        | inl (_, err) ↦ cc
        | inr (_, err) ↦ cc
      ]
    ]
  ]

  -- A search that fails says why: the query is blank, no provider is enabled, or every enabled
  -- provider was asked once, in order, and failed.
  pub search-Refused : (search now e req r).0.1 ≢ nil → Refused e req (search now e req r).0
  unfolding enabled_providers
  search-Refused bad = elim (Bool-cases (is_blank req.query)) [
    | inl b ↦ no_query b (search_blank b)
    | inr b ↦ elim (search-Ended b) [
      | chosen ok _ ↦ absurd (bad ok)
      | all_failed last out ch fl at ↦ elim (exhausted_error last) [
        | inl (nobody, err) ↦
            none_enabled b (sym fl ∙ nobody) (ap (λ (o : SearchResponse × GoError). o.1) out ∙ err)
        | inr (some_one, err) ↦
            all_refused b (λ z. some_one (fl ∙ z))
              (ap (λ (o : SearchResponse × GoError). o.1) out ∙ err)
              (rw (out, exhausted_keeps last) ch) (rw (out, exhausted_keeps last) fl)
              (rw (out, exhausted_keeps last) (omega arith))
      ]
    ]
  ]

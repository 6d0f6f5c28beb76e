-- ===== src/Failure/Classify.antt =====
-- The category that `classifyError` gives to a provider's error.
use text.Mathlib.TextEquality.{eq_iff}
use goddgs.Prelude.{
  String, ◌≡◌, ◌≢◌, ◌⊎◌, inl, inr, Bool, true, false, none, some, [], ◌∷◌, arith, Option-cases,
}
use goddgs.Failure.{
  ErrorKind, blocked, no_results, parse, provider_unavailable, BlockedEvent, err_blocked,
  err_no_vqd, err_no_results, err_unexpected_body, GoError, nil, SearchError, to_error,
  as_search_error, as_blocked_error, classify_plain, classify_error,
}
use goddgs.Failure.Chain.{Wraps, Wraps-cases, is_blocked_of_as_blocked_error}

-- The category and the temporary flag that the chain of an error asks for, in the order in which
-- the sentinels are tried.
pub data KindOf (e : GoError) : ErrorKind → Bool → Type 0 where
  is_block : Wraps err_blocked e → KindOf e blocked true
  is_empty : ¬ Wraps err_blocked e → Wraps err_no_results e → KindOf e no_results false
  is_parse :
      ¬ Wraps err_blocked e
      → ¬ Wraps err_no_results e
      → Wraps err_no_vqd e ⊎ Wraps err_unexpected_body e
      → KindOf e parse true
  is_other :
      ¬ Wraps err_blocked e
      → ¬ Wraps err_no_results e
      → ¬ Wraps err_no_vqd e
      → ¬ Wraps err_unexpected_body e
      → KindOf e provider_unavailable true

KindOf-classify_plain :
    (provider : String) (e : GoError)
    → KindOf e (classify_plain provider e).kind (classify_plain provider e).temporary
unfolding classify_plain
KindOf-classify_plain provider e = elim (Wraps-cases err_blocked e) [
  | inl (b, w) ↦ rw (b, classify_plain) (is_block w)
  | inr (b, nb) ↦ elim (Wraps-cases err_no_results e) [
    | inl (r, w) ↦ rw (b, r, classify_plain) (is_empty nb w)
    | inr (r, nr) ↦ elim (Wraps-cases err_no_vqd e) [
      | inl (v, w) ↦ rw (b, r, v, classify_plain) (is_parse nb nr (inl w))
      | inr (v, nv) ↦ elim (Wraps-cases err_unexpected_body e) [
        | inl (u, w) ↦ rw (b, r, v, u, classify_plain) (is_parse nb nr (inr w))
        | inr (u, nu) ↦ rw (b, r, v, u, classify_plain) (is_other nb nr nv nu)
      ]
    ]
  ]
]

classified_provider :
    (p : String) (e : GoError) (se : SearchError)
    → p ≢ ""
    → classify_error p e ≡ some se
    → se.provider ≢ ""
unfolding classify_error
classified_provider p e se named h = elim (Option-cases (as_search_error e)) [
  | inl plain ↦ ground (arith)
  | inr (inner, found) ↦ ground (arith, eq_iff inner.provider "")
]

-- An error with no `*SearchError` on its chain gets the category that its chain says, the name of
-- the provider that failed, and itself as the cause.
pub classify_error-KindOf :
    (provider : String) (e : GoError) (se : SearchError)
    → as_search_error e ≡ none
    → classify_error provider e ≡ some se
    → KindOf e se.kind se.temporary × (se.provider ≡ provider) × (se.cause ≡ e)
unfolding classify_error
classify_error-KindOf provider nil se plain h = cc
classify_error-KindOf provider e se plain h =
    let same : classify_plain provider e ≡ se = ground arith in
    rw (← same) (
      KindOf-classify_plain provider e,
      unfold classify_plain in ground arith,
      unfold classify_plain in ground arith,
    )

-- A `*BlockedError`, however often it was wrapped, is a temporary block, and its detector is kept.
pub classify_error-blocked :
    (provider : String) (e : GoError) (ev : BlockedEvent)
    → as_search_error e ≡ none
    → as_blocked_error e ≡ some ev
    → classify_error provider e
      ≡ some (record {
        kind = blocked;
        provider = provider;
        temporary = true;
        cause = e;
        details = ("detector", ev.detector) ∷ [];
      })
unfolding classify_error
classify_error-blocked provider nil ev plain found =
    ground (arith, is_blocked_of_as_blocked_error nil ev found)
classify_error-blocked provider e ev plain found =
    ground (arith, is_blocked_of_as_blocked_error e ev found)

-- A classified error passes through a second classification unchanged, whoever asks for it.
pub classify_error-classify_error :
    (p q : String) (e : GoError) (se : SearchError)
    → p ≢ ""
    → classify_error p e ≡ some se
    → classify_error q (to_error se) ≡ some se
unfolding classify_error
classify_error-classify_error p q e se named h =
    ground (arith, eq_iff p "", eq_iff se.provider "", classified_provider p e se named h)

-- ===== src/Failure/Chain.antt =====
-- What the walks of `errors.Is` and `errors.As` find, by an independent description of the chain.
use goddgs.Prelude.{
  String, ◌≡◌, refl, ◌↔◌, Bool, true, false, some, List, arith, ◌⊎◌, inl, inr, Bool-cases,
}
use goddgs.Failure.{
  ErrorKind, BlockedEvent, Sentinel, err_blocked, GoError, sentinel, blocked_error, search_error,
  wrapped, same_sentinel, is, is_blocked, as_blocked_error,
}

-- The error, or one that it wraps, is the sentinel; a `*BlockedError` unwraps to `ErrBlocked`.
pub data Wraps (s : Sentinel) : GoError → Type 0 where
  itself : {t : Sentinel} → t ≡ s → Wraps s (sentinel t)
  by_block : (ev : BlockedEvent) → s ≡ err_blocked → Wraps s (blocked_error ev)
  by_cause :
      {kind : ErrorKind} {provider : String} {temporary : Bool} {cause : GoError}
      {details : List (String × String)}
      → Wraps s cause
      → Wraps s (search_error kind provider temporary cause details)
  by_verb :
      {before after : String} {inner : GoError}
      → Wraps s inner
      → Wraps s (wrapped before inner after)

same_sentinel_iff : (s t : Sentinel) → (same_sentinel s t ≡ true) ↔ (t ≡ s)
same_sentinel_iff s t = ground arith

is_sound : (s : Sentinel) (e : GoError) → is s e ≡ true → Wraps s e
unfolding is
is_sound s (sentinel t) h = itself ((same_sentinel_iff s t).0 h)
is_sound s (blocked_error ev) h = by_block ev (ground arith)
is_sound s (search_error kind provider temporary cause details) h = by_cause (is_sound s cause h)
is_sound s (wrapped before inner after) h = by_verb (is_sound s inner h)
is_sound s _ h = cc

is_complete : {s : Sentinel} {e : GoError} → Wraps s e → is s e ≡ true
unfolding is
is_complete (itself e) = (same_sentinel_iff _ _).1 e
is_complete (by_block ev e) = ground arith
is_complete (by_cause w) = is_complete w
is_complete (by_verb w) = is_complete w

-- `errors.Is(err, s)` holds exactly when `s` stands on the chain of the error.
pub is_iff : (s : Sentinel) (e : GoError) → (is s e ≡ true) ↔ Wraps s e
is_iff s e = (is_sound s e, is_complete)

-- The two cases of the test, with what each says of the chain.
pub Wraps-cases :
    (s : Sentinel) (e : GoError)
    → ((is s e ≡ true) × Wraps s e) ⊎ ((is s e ≡ false) × (¬ Wraps s e))
Wraps-cases s e = elim (Bool-cases (is s e)) [
  | inl h ↦ inl (h, is_sound s e h)
  | inr h ↦ inr (h, λ w. cc (is_complete w))
]

-- An error with a `*BlockedError` on its chain is blocked.
pub is_blocked_of_as_blocked_error :
    (e : GoError) (ev : BlockedEvent) → as_blocked_error e ≡ some ev → is_blocked e ≡ true
unfolding is_blocked is as_blocked_error
is_blocked_of_as_blocked_error (blocked_error x) ev h = refl
is_blocked_of_as_blocked_error (search_error kind provider temporary cause details) ev h =
    is_blocked_of_as_blocked_error cause ev h
is_blocked_of_as_blocked_error (wrapped before inner after) ev h =
    is_blocked_of_as_blocked_error inner ev h
is_blocked_of_as_blocked_error _ ev h = cc

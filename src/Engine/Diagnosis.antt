-- ===== src/Engine/Diagnosis.antt =====
-- engine.go: the diagnostics, the events and the errors of a search.
use text.Mathlib.Text.{◌==◌ as str_eq}
use goddgs.Prelude.{
  ℕ, ◌+◌, String, Bool, true, false, Option, none, some, List, [], ◌∷◌, ◌++◌, if◌then◌else◌,
}
use goddgs.Signal.{BlockInfo, generic}
use goddgs.Failure.{
  ErrorKind, blocked, provider_unavailable, no_results, err_no_results, GoError, sentinel, message,
  SearchError, to_error, error_text, classify_error,
}
use goddgs.Api.{SearchResponse, Diagnostics, ProviderError, Event, EventType}

abbrev pub is_empty {ℓ} : {A : Type ℓ} → List A → Bool
is_empty [] = true
is_empty (x ∷ xs) = false

-- `Timings[name] = dur`.
unfoldable pub set_timing : String → ℕ → List (String × ℕ) → List (String × ℕ)
set_timing name dur [] = (name, dur) ∷ []
set_timing name dur ((k, d) ∷ ts) =
    if str_eq k name then (name, dur) ∷ ts else (k, d) ∷ set_timing name dur ts

abbrev pub empty : Diagnostics
empty = record { block_info = none; attempts = 0; provider_chain = []; timings = []; errors = [] }

-- `Details["detector"]`, where it is not empty.
abbrev pub detector_of : List (String × String) → String
detector_of [] = "blocked"
detector_of ((k, v) ∷ ds) =
    if str_eq k "detector" then (if str_eq v "" then "blocked" else v) else detector_of ds

abbrev pub is_blocked_kind : ErrorKind → Bool
is_blocked_kind blocked = true
is_blocked_kind _ = false

-- The block that is reported for a failure, where it is one.
unfoldable pub block_of : SearchError → Option BlockInfo
block_of se =
    if is_blocked_kind se.kind
    then some (record { signal = generic; detector_key = detector_of se.details })
    else none

-- The failure that is recorded for a provider which returned no result.
unfoldable pub failure_of : String → GoError → SearchError
failure_of name err = elim (classify_error name err) [
  | some se ↦ se
  | none ↦ record {
    kind = no_results;
    provider = name;
    temporary = false;
    cause = sentinel err_no_results;
    details = [];
  }
]

unfoldable pub event : EventType → String → ℕ → Event
event t name dur = record {
  event_type = t;
  provider = name;
  duration = dur;
  err_kind = none;
  success = false;
  block = none;
}

-- `dur`, `errors` and the rest of the failure branch of the loop in `Search`.
abbrev pub failure_entry : String → SearchError → ProviderError
failure_entry name se = record {
  provider = name;
  kind = se.kind;
  message = error_text (to_error se);
  details = se.details;
}

abbrev pub or_else {ℓ} : {A : Type ℓ} → Option A → Option A → Option A
or_else none b = b
or_else (some a) b = some a

-- The diagnostics after an attempt was counted, and after its failure was recorded.
unfoldable pub counted : String → ℕ → Diagnostics → Diagnostics
unfolding set_timing
counted name dur diag = record diag {
  attempts = diag.attempts + 1;
  provider_chain = diag.provider_chain ++ name ∷ [];
  timings = set_timing name dur diag.timings;
}

unfoldable pub recorded : String → SearchError → Diagnostics → Diagnostics
unfolding block_of
recorded name se diag = record diag {
  block_info = or_else (block_of se) diag.block_info;
  errors = diag.errors ++ failure_entry name se ∷ [];
}

-- What `Search` returns when the loop is over.
unfoldable pub exhausted : Diagnostics → SearchResponse × GoError
exhausted diag = (
  record { results = []; provider = ""; fallback_used = false; diagnostics = diag },
  if is_empty diag.errors
      then to_error (record {
        kind = provider_unavailable;
        provider = "engine";
        temporary = true;
        cause = message "no enabled providers";
        details = [];
      })
      else to_error (record {
        kind = no_results;
        provider = "engine";
        temporary = false;
        cause = message "all providers exhausted";
        details = [];
      }),
)

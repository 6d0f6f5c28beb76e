-- ===== src/Failure.antt =====
-- errors_api.go and the error values of client.go.
-- A Go `error` is a value of `GoError`, with `nil` for the nil interface, so that a call that
-- returns `(T, error)` returns a pair. `wrapped` is `fmt.Errorf` with a `%w` verb, `message` any
-- error that wraps nothing: `errors.New`, `fmt.Errorf` without `%w`, an error of the library.
pub mod Chain
pub mod Classify
use text.Mathlib.Text.{◌==◌ as str_eq}
use goddgs.Prelude.{
  ℕ, String, Bool, true, false, ◌||◌, Option, none, some, List, [], ◌∷◌, ltb, if◌then◌else◌, ◌≡◌,
  arith,
}
use goddgs.Prelude.Format.{concat, decimal}

pub data ErrorKind : Type 0 where
  blocked rate_limited provider_unavailable parse invalid_input no_results internal : ErrorKind

unfoldable pub kind_text : ErrorKind → String
kind_text blocked = "blocked"
kind_text rate_limited = "rate_limited"
kind_text provider_unavailable = "provider_unavailable"
kind_text parse = "parse"
kind_text invalid_input = "invalid_input"
kind_text no_results = "no_results"
kind_text internal = "internal"

-- `http.Header`: the keys in their canonical form, each with its values.
abbrev pub Header : Type 0
Header = List (String × List String)

pub record BlockedEvent : Type 0 where
  pub status_code : ℕ
  pub headers : Header
  pub body_snippet : String
  pub detector : String
  pub attempt : ℕ

-- The error variables of client.go: `ErrNoVQD`, `ErrNoResults`, `ErrUnexpectedBody`, `ErrBlocked`
-- and `ErrCircuitOpen`.
pub data Sentinel : Type 0 where
  err_no_vqd err_no_results err_unexpected_body err_blocked err_circuit_open : Sentinel

pub data GoError : Type 0 where
  nil : GoError
  sentinel : Sentinel → GoError
  blocked_error : BlockedEvent → GoError
  search_error : ErrorKind → String → Bool → GoError → List (String × String) → GoError
  wrapped : String → GoError → String → GoError
  message : String → GoError

pub record SearchError : Type 0 where
  pub kind : ErrorKind
  pub provider : String
  pub temporary : Bool
  pub cause : GoError
  pub details : List (String × String)

-- A `*SearchError` as an `error`.
abbrev pub to_error : SearchError → GoError
to_error e = search_error e.kind e.provider e.temporary e.cause e.details

abbrev pub is_nil : GoError → Bool
is_nil nil = true
is_nil _ = false

pub is_nil-nil : (err : GoError) → is_nil err ≡ true → err ≡ nil
is_nil-nil err h = ground arith

abbrev pub same_sentinel : Sentinel → Sentinel → Bool
same_sentinel err_no_vqd err_no_vqd = true
same_sentinel err_no_results err_no_results = true
same_sentinel err_unexpected_body err_unexpected_body = true
same_sentinel err_blocked err_blocked = true
same_sentinel err_circuit_open err_circuit_open = true
same_sentinel _ _ = false

-- `errors.Is(err, s)` through `BlockedError.Unwrap`, `SearchError.Unwrap` and `%w`.
unfoldable pub is : Sentinel → GoError → Bool
is s nil = false
is s (sentinel t) = same_sentinel s t
is s (blocked_error ev) = same_sentinel s err_blocked
is s (search_error kind provider temporary cause details) = is s cause
is s (wrapped before inner after) = is s inner
is s (message text) = false

-- `IsBlocked`.
unfoldable pub is_blocked : GoError → Bool
unfolding is
is_blocked err = is err_blocked err

-- `errors.As(err, &se)` for a `*SearchError`: the first one on the chain.
unfoldable pub as_search_error : GoError → Option SearchError
as_search_error nil = none
as_search_error (sentinel t) = none
as_search_error (blocked_error ev) = none
as_search_error (search_error kind provider temporary cause details) = some (record {
  kind = kind;
  provider = provider;
  temporary = temporary;
  cause = cause;
  details = details;
})
as_search_error (wrapped before inner after) = as_search_error inner
as_search_error (message text) = none

-- `errors.As(err, &be)` for a `*BlockedError`.
unfoldable pub as_blocked_error : GoError → Option BlockedEvent
as_blocked_error nil = none
as_blocked_error (sentinel t) = none
as_blocked_error (blocked_error ev) = some ev
as_blocked_error (search_error kind provider temporary cause details) = as_blocked_error cause
as_blocked_error (wrapped before inner after) = as_blocked_error inner
as_blocked_error (message text) = none

unfoldable sentinel_text : Sentinel → String
sentinel_text err_no_vqd = "goddgs: vqd token not found"
sentinel_text err_no_results = "goddgs: no results found"
sentinel_text err_unexpected_body = "goddgs: unexpected response body"
sentinel_text err_blocked = "goddgs: response appears blocked"
sentinel_text err_circuit_open = "goddgs: circuit breaker open — session is burned, retry later"

-- `BlockedError.Error`.
unfoldable blocked_text : BlockedEvent → String
unfolding sentinel_text concat decimal
blocked_text ev =
    if ltb 0 ev.status_code
    then concat (
        sentinel_text err_blocked
        ∷ " (status="
        ∷ decimal ev.status_code
        ∷ " detector="
        ∷ ev.detector
        ∷ ")"
        ∷ [])
    else concat (sentinel_text err_blocked ∷ " (detector=" ∷ ev.detector ∷ ")" ∷ [])

-- `SearchError.Error`, given the text of the cause where there is one.
unfoldable search_error_text : ErrorKind → String → Option String → String
unfolding kind_text concat
search_error_text kind provider (some cause) =
    if str_eq provider ""
    then concat ("goddgs: " ∷ kind_text kind ∷ ": " ∷ cause ∷ [])
    else concat ("goddgs: provider=" ∷ provider ∷ " kind=" ∷ kind_text kind ∷ ": " ∷ cause ∷ [])
search_error_text kind provider none =
    if str_eq provider ""
    then concat ("goddgs: " ∷ kind_text kind ∷ [])
    else concat ("goddgs: provider=" ∷ provider ∷ " kind=" ∷ kind_text kind ∷ [])

-- `err.Error()`; a nil error is printed as `%v` prints it.
unfoldable pub error_text : GoError → String
unfolding sentinel_text blocked_text search_error_text concat
error_text nil = "<nil>"
error_text (sentinel s) = sentinel_text s
error_text (blocked_error ev) = blocked_text ev
error_text (search_error kind provider temporary cause details) =
    search_error_text kind provider (if is_nil cause then none else some (error_text cause))
error_text (wrapped before inner after) = concat (before ∷ error_text inner ∷ after ∷ [])
error_text (message text) = text

with_provider : String → SearchError → SearchError
with_provider provider se = if str_eq se.provider "" then record se { provider = provider } else se

abbrev detector_details : Option BlockedEvent → List (String × String)
detector_details none = []
detector_details (some ev) = ("detector", ev.detector) ∷ []

-- The part of `classifyError` for an error with no `*SearchError` on its chain.
classify_plain : String → GoError → SearchError
unfolding is_blocked as_blocked_error
classify_plain provider err =
    if is_blocked err
    then record {
      kind = blocked;
      provider = provider;
      temporary = true;
      cause = err;
      details = detector_details (as_blocked_error err);
    }
    else if is err_no_results err
    then record {
      kind = no_results;
      provider = provider;
      temporary = false;
      cause = err;
      details = [];
    }
    else if is err_no_vqd err || is err_unexpected_body err
    then record { kind = parse; provider = provider; temporary = true; cause = err; details = [] }
    else record {
      kind = provider_unavailable;
      provider = provider;
      temporary = true;
      cause = err;
      details = [];
    }

-- `classifyError`; `none` is the nil pointer.
unfoldable pub classify_error : String → GoError → Option SearchError
unfolding as_search_error with_provider classify_plain
classify_error provider err = if is_nil err then none else elim (as_search_error err) [
  | some se ↦ some (with_provider provider se)
  | none ↦ some (classify_plain provider err)
]

-- ===== src/Service.antt =====
-- service.go: the HTTP handler. `decode` stands for `json.NewDecoder(r.Body).Decode`; the handler of
-- `/metrics` belongs to the Prometheus library and is a parameter.
pub mod Status
pub mod Default
use text.Mathlib.Text.{◌==◌ as str_eq}
use goddgs.Prelude.{
  ℕ, String, Bool, true, false, ◌&&◌, Option, none, some, List, [], ◌∷◌, if◌then◌else◌,
}
use goddgs.Prelude.Int.{ℤ}
use goddgs.Prelude.Text.{is_blank}
use goddgs.Failure.{
  ErrorKind, blocked, rate_limited, provider_unavailable, parse, invalid_input, no_results,
  internal, GoError, nil, sentinel, blocked_error, search_error, wrapped, message, is_nil,
  is_blocked, error_text,
}
use goddgs.Api.{SearchRequest, SearchResponse, safe_moderate}
use goddgs.Engine.{Engine, Run, enabled_providers, search, is_empty}

pub record ServiceSearchRequest : Type 0 where
  pub query : String
  pub max_results : ℤ
  pub region : String

-- `APIError`; `kind` is the text of an `ErrorKind`.
pub record ApiError : Type 0 where
  pub error : String
  pub kind : ErrorKind

-- The body of an answer, before it is written as JSON or text.
pub data Body : Type 0 where
  plain : String → Body
  failure : ApiError → Body
  found : SearchResponse → Body
  metrics : String → Body

pub record Answer : Type 0 where
  pub status : ℕ
  pub body : Body

-- The requests that the handlers tell apart.
pub record Incoming : Type 0 where
  pub method : String
  pub path : String
  pub body : String

-- `writeAPIErr`.
abbrev write_api_err : ℕ → String → ErrorKind → Answer
write_api_err status error kind = record {
  status = status;
  body = failure (record { error = error; kind = kind });
}

-- The switch on the category, with the status as it stands before.
abbrev status_of_kind : ErrorKind → ℕ → ℕ
status_of_kind invalid_input status = 400
status_of_kind no_results status = 404
status_of_kind rate_limited status = 429
status_of_kind blocked status = 429
status_of_kind _ status = status

-- `err.(*SearchError)`: the error itself, not one that it wraps.
abbrev direct_kind : GoError → Option ErrorKind
direct_kind nil = none
direct_kind (search_error kind provider temporary cause details) = some kind
direct_kind _ = none

-- The status and the category of a failed search.
unfoldable pub status_of_error : GoError → ℕ × ErrorKind
status_of_error err =
    let status : ℕ = if is_blocked err then 429 else 502 in
    let kind = if is_blocked err then blocked else internal in
    elim (direct_kind err) [ none ↦ (status, kind) | some k ↦ (status_of_kind k status, k) ]

-- What follows the checks of `/v1/search`.
respond : (SearchResponse × GoError) → Answer
unfolding status_of_error
respond (resp, err) =
    let (status, kind) = status_of_error err in
    if is_nil err
    then record { status = 200; body = found resp }
    else write_api_err status (error_text err) kind

pub to_request : ServiceSearchRequest → SearchRequest
to_request r = record {
  query = r.query;
  max_results = r.max_results;
  region = r.region;
  safe_search = safe_moderate;
  time_range = "";
  offset = ℤ.pos 0;
}

module _ {W : Type 0} (now : W → ℕ × W) (decode : String → Option ServiceSearchRequest) where
  run_search : Engine W → ServiceSearchRequest → Run W → Answer × Run W
  unfolding respond to_request
  run_search e r run =
      let (out, after) = search now e (to_request r) run in
      if is_blank r.query
      then (write_api_err 400 "query is required" invalid_input, run)
      else (respond out, after)

  -- The handler of `/v1/search`; `none` is the nil engine.
  unfoldable pub handle_search : Option (Engine W) → Incoming → Run W → Answer × Run W
  unfolding run_search
  handle_search engine r run =
      if str_eq r.method "POST"
      then elim engine [
        | none ↦ (write_api_err 502 "engine unavailable" provider_unavailable, run)
        | some e ↦ elim (decode r.body) [
          | none ↦ (write_api_err 400 "invalid json" invalid_input, run)
          | some req ↦ run_search e req run
        ]
      ]
      else (record { status = 405; body = plain "" }, run)

abbrev pub is_ready : {W : Type 0} → Option (Engine W) → Bool
is_ready none = false
is_ready (some e) = if is_empty (enabled_providers e) then false else true

-- The handlers of `/healthz` and `/readyz`.
unfoldable handle_health : Answer
handle_health = record { status = 200; body = plain "ok" }

unfoldable pub handle_ready : {W : Type 0} → Option (Engine W) → Answer
handle_ready engine =
    if is_ready engine
    then record { status = 200; body = plain "ready" }
    else record { status = 503; body = plain "no providers" }

abbrev is_some {ℓ} : {A : Type ℓ} → Option A → Bool
is_some none = false
is_some (some a) = true

abbrev serve_metrics : {W : Type 0} → Option (W → String) → W → Answer
serve_metrics none w = record { status = 404; body = plain "404 page not found" }
serve_metrics (some h) w = record { status = 200; body = metrics (h w) }

-- `NewHTTPHandler`: the routes, each for its exact path, and the 404 of `http.ServeMux` for others.
unfoldable pub handle :
    {W : Type 0} (now : W → ℕ × W) (decode : String → Option ServiceSearchRequest)
    → Option (Engine W)
    → Option (W → String)
    → Incoming
    → Run W
    → Answer × Run W
unfolding handle_search handle_health handle_ready
handle now decode engine metrics_handler r run =
    if str_eq r.path "/healthz"
    then (handle_health, run)
    else if str_eq r.path "/readyz"
    then (handle_ready engine, run)
    else if str_eq r.path "/v1/search"
    then handle_search now decode engine r run
    else if str_eq r.path "/metrics" && is_some metrics_handler
    then (serve_metrics metrics_handler run.world, run)
    else (record { status = 404; body = plain "404 page not found" }, run)

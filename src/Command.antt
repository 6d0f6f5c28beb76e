-- ===== src/Command.antt =====
-- cmd/goddgs/main.go, and the wiring of cmd/goddgsd/main.go. A command gives the lines that it prints and
-- its exit code; the parsing of its flags and of the search, the JSON encoder, and the engine that the
-- configuration gives are parameters.
pub mod Codes
pub mod Others
pub mod Daemon
use text.Mathlib.Text.{◌==◌ as str_eq}
use goddgs.Prelude.{
  ℕ, ◌+◌, String, Bool, true, false, Option, none, some, List, [], ◌∷◌, ◌++◌, if◌then◌else◌,
}
use goddgs.Prelude.Int.{ℤ, ltb_ℤ, pos}
use goddgs.Prelude.Text.{trim_space, is_blank}
use goddgs.Prelude.Format.{concat, decimal}
use goddgs.Failure.{
  ErrorKind, invalid_input, no_results, SearchError, to_error, GoError, is_nil, is_blocked,
  as_search_error, error_text,
}
use goddgs.Api.{SearchResult, SearchRequest, SearchResponse, safe_moderate}
use goddgs.Engine.{Engine, Run, enabled_providers, search}

-- The flags of `goddgs search`.
pub record SearchFlags : Type 0 where
  pub query : String
  pub max : ℤ
  pub region : String
  pub as_json : Bool

pub record Exit : Type 0 where
  pub printed : List String
  pub code : ℕ

abbrev pub exit_with : List String → ℕ → Exit
exit_with lines code = record { printed = lines; code = code }

abbrev pub bool_text : Bool → String
bool_text true = "true"
bool_text false = "false"

-- The numbered results, from number `n` on.
result_lines : ℕ → List SearchResult → List String
result_lines n [] = []
result_lines n (r ∷ rs) =
    concat (decimal n ∷ ". " ∷ r.title ∷ []) ∷ concat ("   " ∷ r.url ∷ []) ∷ result_lines (n + 1) rs

abbrev pub is_usage : ErrorKind → Bool
is_usage invalid_input = true
is_usage no_results = true
is_usage _ = false

-- How `runSearch` reports an error.
unfoldable pub report_error : GoError → Exit
report_error err =
    let last : Exit = exit_with (concat ("search error: " ∷ error_text err ∷ []) ∷ []) 4 in
    if is_blocked err
    then exit_with (concat ("blocked by target protection: " ∷ error_text err ∷ []) ∷ []) 2
    else elim (as_search_error err) [
      | none ↦ last
      | some se ↦
          let line = error_text (to_error se) in
          if is_usage se.kind then exit_with (line ∷ []) 2 else exit_with (line ∷ last.printed) 4
    ]

-- How it prints a response.
pub report_results : (SearchResponse → List String) → Bool → SearchResponse → Exit
unfolding result_lines
report_results encode as_json resp =
    if as_json
    then exit_with (encode resp) 0
    else exit_with
        (concat
            ("Provider: " ∷ resp.provider ∷ " (fallback=" ∷ bool_text resp.fallback_used ∷ ")" ∷ [])
          ∷ result_lines 1 resp.results)
        0

abbrev pub no_engine : GoError → Exit
no_engine err = exit_with (concat ("engine init error: " ∷ error_text err ∷ []) ∷ []) 4

abbrev pub request : SearchFlags → SearchRequest
request flags = record {
  query = flags.query;
  max_results = flags.max;
  region = flags.region;
  safe_search = safe_moderate;
  time_range = "";
  offset = pos 0;
}

module _ {W : Type 0} (now : W → ℕ × W) (encode : SearchResponse → List String) where
  -- `runSearch`, given what the flags parse to or their error, and the engine or its error.
  unfoldable pub run_search :
      Option SearchFlags → String → Option (Engine W) → GoError → Run W → Exit × Run W
  unfolding report_error report_results trim_space
  run_search none usage engine failure run = (exit_with (usage ∷ []) 2, run)
  run_search (some flags) usage engine failure run =
      if is_blank flags.query
      then (exit_with ("query is required (--q)" ∷ []) 2, run)
      else elim engine [
        | none ↦ (no_engine failure, run)
        | some e ↦
            let ((resp, err), after) = search now e (request flags) run in
            (
              if is_nil err then report_results encode flags.as_json resp else report_error err,
              after,
            )
      ]

-- ===== src/Command/Codes.antt =====
-- cmd/goddgs/main.go: the exit code of a search.
use goddgs.Prelude.{
  ℕ, ◌≡◌, ◌≢◌, ◌⊎◌, refl, ap, inl, inr, Bool, true, false, none, some, List, String, Bool-cases,
  Option-cases,
}
use goddgs.Prelude.Text.{is_blank}
use goddgs.Failure.{
  ErrorKind, invalid_input, no_results, SearchError, GoError, nil, is_nil, is_nil-nil, is_blocked,
  as_search_error,
}
use goddgs.Api.{SearchResponse}
use goddgs.Engine.{Engine, Run, search}
use goddgs.Command.{SearchFlags, is_usage, report_error, report_results, request, run_search}

-- What an exit code tells of the outcome of a search: 0 of no error, 2 of a block, an invalid query or
-- a search without results, and 4 of any other error.
pub data Tells (err : GoError) : ℕ → Type 0 where
  fine : err ≡ nil → Tells err 0
  turned_away : err ≢ nil → is_blocked err ≡ true → Tells err 2
  bad_query :
      (se : SearchError)
      → err ≢ nil
      → as_search_error err ≡ some se
      → se.kind ≡ invalid_input
      → Tells err 2
  nothing_found :
      (se : SearchError)
      → err ≢ nil
      → as_search_error err ≡ some se
      → se.kind ≡ no_results
      → Tells err 2
  no_search_error : err ≢ nil → is_blocked err ≡ false → as_search_error err ≡ none → Tells err 4
  failed :
      (se : SearchError)
      → err ≢ nil
      → is_blocked err ≡ false
      → as_search_error err ≡ some se
      → se.kind ≢ invalid_input
      → se.kind ≢ no_results
      → Tells err 4

-- The test on the category of a `*SearchError`.
usage-cases :
    (k : ErrorKind)
    → ((is_usage k ≡ true) × ((k ≡ invalid_input) ⊎ (k ≡ no_results)))
      ⊎ ((is_usage k ≡ false) × (k ≢ invalid_input) × (k ≢ no_results))
usage-cases invalid_input = inl (refl, inl refl)
usage-cases no_results = inl (refl, inr refl)
usage-cases k = inr (refl, λ h. cc, λ h. cc)

report_error-Tells : (err : GoError) → err ≢ nil → Tells err (report_error err).code
unfolding report_error
report_error-Tells err bad = elim (Bool-cases (is_blocked err)) [
  | inl blocked ↦ rw (blocked, report_error) (turned_away bad blocked)
  | inr let_in ↦ elim (Option-cases (as_search_error err)) [
    | inl plain ↦ rw (let_in, plain, report_error) (no_search_error bad let_in plain)
    | inr (se, e) ↦ elim (usage-cases se.kind) [
      | inl (usage, inl invalid) ↦ rw (let_in, e, usage, report_error) (bad_query se bad e invalid)
      | inl (usage, inr vain) ↦ rw (let_in, e, usage, report_error) (nothing_found se bad e vain)
      | inr (other, valid, found) ↦
          rw (let_in, e, other, report_error) (failed se bad let_in e valid found)
    ]
  ]
]

report_results-code :
    (encode : SearchResponse → List String) (as_json : Bool) (resp : SearchResponse)
    → (report_results encode as_json resp).code ≡ 0
unfolding report_results
report_results-code encode true resp = refl
report_results-code encode false resp = refl

module _ {W : Type 0} (now : W → ℕ × W) (encode : SearchResponse → List String) where
  -- With an engine and a query, `goddgs search` exits with 0 exactly after a search without an error, with
  -- 2 after a block, an invalid query or a search without results, and with 4 after any other error.
  pub run_search-Tells :
      (flags : SearchFlags) (usage : String) (e : Engine W) (run : Run W)
      → is_blank flags.query ≡ false
      → Tells
          (search now e (request flags) run).0.1
          (run_search now encode (some flags) usage (some e) nil run).0.code
  unfolding run_search
  run_search-Tells flags usage e run asked =
      let ((resp, err), after) = search now e (request flags) run in
      elim (Bool-cases (is_nil err)) [
        | inl ok ↦
            rw (asked, ok, run_search)
              (rw (report_results-code encode flags.as_json resp) (fine (is_nil-nil err ok)))
        | inr bad ↦ rw (asked, bad, run_search) (report_error-Tells err (λ e. cc (ap is_nil e)))
      ]

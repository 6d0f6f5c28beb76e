-- ===== src/Tests/Failure.antt =====
-- Errors as providers return them.
use goddgs.Prelude.{String, ◌≡◌, refl, true, []}
use goddgs.Failure.{
  BlockedEvent, parse, err_no_vqd, GoError, sentinel, blocked_error, wrapped, SearchError,
  classify_error, error_text,
}
use goddgs.Failure.Classify.{KindOf, classify_error-KindOf}

abbrev seen : BlockedEvent
seen = record {
  status_code = 403;
  headers = [];
  body_snippet = "";
  detector = "status";
  attempt = 1;
}

abbrev nested : GoError
nested = wrapped "goddgs: d.js failed (x), html fallback failed (" (blocked_error seen) ")"

error_run :
    error_text nested
    ≡ "goddgs: d.js failed (x), html fallback failed (goddgs: response appears blocked (status=403 detector=status))"
unfolding error_text
error_run = refl

abbrev no_token : SearchError
no_token = record {
  kind = parse;
  provider = "ddg";
  temporary = true;
  cause = sentinel err_no_vqd;
  details = [];
}

classify_error-KindOf_example :
    KindOf (sentinel err_no_vqd) parse true
    × (◌≡◌ {A = String} "ddg" "ddg")
    × (sentinel err_no_vqd ≡ sentinel err_no_vqd)
unfolding classify_error
classify_error-KindOf_example = classify_error-KindOf "ddg" (sentinel err_no_vqd) no_token refl refl

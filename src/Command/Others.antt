-- ===== src/Command/Others.antt =====
-- cmd/goddgs/main.go: the choice of a command, and the commands besides the search.
use text.Mathlib.Text.{◌==◌ as str_eq}
use goddgs.Prelude.{ℕ, String, false, not, Option, none, some, List, [], ◌∷◌, ◌++◌, if◌then◌else◌}
use goddgs.Prelude.Int.{ℤ, pos, ltb_ℤ}
use goddgs.Prelude.Format.{concat, join}
use goddgs.Failure.{GoError, is_nil, error_text}
use goddgs.Config.{Config}
use goddgs.Engine.{Engine, Run, enabled_providers, search}
use goddgs.Command.{SearchFlags, Exit, exit_with, bool_text, no_engine, request}

pub data Choice : Type 0 where
  search_with : List String → Choice
  list_providers : Choice
  check_setup : Choice
  show_usage : Choice

-- The switch of `run`.
unfoldable choice_of : List String → Choice
choice_of [] = show_usage
choice_of (program ∷ []) = show_usage
choice_of (program ∷ name ∷ args) =
    if str_eq name "search"
    then search_with args
    else if str_eq name "providers"
    then list_providers
    else if str_eq name "doctor"
    then check_setup
    else show_usage

-- `runProviders`.
unfoldable run_providers : {W : Type 0} → Option (Engine W) → GoError → Exit
unfolding join enabled_providers
run_providers none failure = no_engine failure
run_providers (some e) failure =
    exit_with (concat ("Enabled providers: " ∷ join ", " (enabled_providers e) ∷ []) ∷ []) 0

-- `min`.
unfoldable min : ℤ → ℤ → ℤ
min a b = if ltb_ℤ a b then a else b

abbrev key_line : String → String → String
key_line name key = concat (name ∷ bool_text (not (str_eq key "")) ∷ [])

-- The lines that `runDoctor` prints first; the text of a duration and of a number are parameters.
setup_lines : (ℤ → String) → (ℤ → String) → Config → List String
unfolding join
setup_lines duration_text show cfg =
    concat ("Timeout: " ∷ duration_text cfg.timeout ∷ [])
    ∷ concat ("Max retries: " ∷ show cfg.max_retries ∷ [])
    ∷ concat ("Provider order: " ∷ join "," cfg.provider_order ∷ [])
    ∷ key_line "Brave key set: " cfg.brave_api_key
    ∷ key_line "Tavily key set: " cfg.tavily_api_key
    ∷ key_line "SerpAPI key set: " cfg.serp_api_key
    ∷ []

-- `runDoctor`; its search has a context that ends after the first time.
module _ {W : Type 0} (now : W → ℕ × W) (within : ℤ → Engine W → Engine W) where
  unfoldable run_doctor :
      (ℤ → String) → (ℤ → String) → Config → Option (Engine W) → GoError → Run W → Exit × Run W
  unfolding setup_lines min
  run_doctor duration_text show cfg none failure run =
      let last = no_engine failure in
      (exit_with (setup_lines duration_text show cfg ++ last.printed) last.code, run)
  run_doctor duration_text show cfg (some e) failure run =
      let lines = setup_lines duration_text show cfg in
      let probe : SearchFlags = record {
        query = "golang";
        max = pos 1;
        region = "us-en";
        as_json = false;
      } in
      let ((resp, err), after) =
        search now (within (min cfg.timeout (pos 10_000_000_000)) e) (request probe) run in
      (
        if is_nil err
            then exit_with (lines ++ "probe ok" ∷ []) 0
            else exit_with (lines ++ concat ("probe failed: " ∷ error_text err ∷ []) ∷ []) 3,
        after,
      )

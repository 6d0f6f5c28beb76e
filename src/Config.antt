-- ===== src/Config.antt =====
-- config.go. The functions of the standard library that it reads the environment with are fields of
-- `Env`; durations are nanoseconds.
pub mod Order
pub mod Named
pub mod Defaults
pub mod Enabled
pub mod Listed
use text.Mathlib.Text.{◌==◌ as str_eq}
use goddgs.Prelude.{
  ℕ, String, Bool, true, false, not, Option, none, some, List, [], ◌∷◌, if◌then◌else◌,
}
use goddgs.Prelude.Int.{ℤ, pos, ltb_ℤ}
use goddgs.Prelude.Text.{trim_space}
use goddgs.Prelude.Split.{split_comma}
use goddgs.Failure.{GoError}
use goddgs.Engine.{Provider, Hook, Engine, new_engine, is_empty}

pub record Config : Type 0 where
  pub brave_api_key : String
  pub tavily_api_key : String
  pub serp_api_key : String
  pub duck_duck_go_base : String
  pub links_base : String
  pub html_base : String
  pub provider_order : List String
  pub timeout : ℤ
  pub max_retries : ℤ
  pub disable_html_fallback : Bool

-- `os.Getenv`, `strings.ToLower`, `strings.EqualFold`, and `time.ParseDuration` and `strconv.Atoi`,
-- which give `none` for their errors.
pub record Env : Type 0 where
  pub getenv : String → String
  pub lower : String → String
  pub equal_fold : String → String → Bool
  pub parse_duration : String → Option ℤ
  pub atoi : String → Option ℤ

abbrev default_order : List String
default_order = "ddg" ∷ "brave" ∷ "tavily" ∷ "serpapi" ∷ []

-- A setting that is used where it parses to a positive number.
unfoldable pub positive_setting : (String → Option ℤ) → String → ℤ → ℤ
positive_setting parse s default =
    let parsed = parse s in
    if str_eq s ""
    then default
    else elim parsed [ none ↦ default | some n ↦ if ltb_ℤ (pos 0) n then n else default ]

module _ (env : Env) where
  -- A variable without the white space around it.
  abbrev variable : String → String
  variable name = trim_space (env.getenv name)

  -- The loop over the parts of `GODDGS_PROVIDER_ORDER`.
  unfoldable listed_names : List String → List String
  listed_names [] = []
  listed_names (p ∷ ps) =
      let name = env.lower (trim_space p) in
      let rest = listed_names ps in if str_eq name "" then rest else name ∷ rest

  unfoldable pub order_of : String → List String
  unfolding listed_names split_comma
  order_of s =
      let order = listed_names (split_comma s) in
      if str_eq s "" then default_order else if is_empty order then default_order else order

  -- `LoadConfigFromEnv`.
  unfoldable pub load_config : Config
  unfolding order_of positive_setting
  load_config = record {
    brave_api_key = variable "GODDGS_BRAVE_API_KEY";
    tavily_api_key = variable "GODDGS_TAVILY_API_KEY";
    serp_api_key = variable "GODDGS_SERPAPI_API_KEY";
    duck_duck_go_base = variable "GODDGS_DDG_BASE";
    links_base = variable "GODDGS_LINKS_BASE";
    html_base = variable "GODDGS_HTML_BASE";
    provider_order = order_of (variable "GODDGS_PROVIDER_ORDER");
    timeout = positive_setting env.parse_duration (variable "GODDGS_TIMEOUT") (pos 20_000_000_000);
    max_retries = positive_setting env.atoi (variable "GODDGS_MAX_RETRIES") (pos 3);
    disable_html_fallback = env.equal_fold (variable "GODDGS_DISABLE_HTML_FALLBACK") "true";
  }

abbrev pub member : String → List String → Bool
member name [] = false
member name (n ∷ ns) = if str_eq n name then true else member name ns

-- The map from the names to the providers that `NewDefaultEngineFromConfig` builds.
pub record Providers (W : Type 0) : Type 0 where
  pub ddg : Provider W
  pub brave : Provider W
  pub tavily : Provider W
  pub serpapi : Provider W

unfoldable pub lookup : {W : Type 0} → Providers W → String → Option (Provider W)
lookup ps name =
    if str_eq name "ddg"
    then some ps.ddg
    else if str_eq name "brave"
    then some ps.brave
    else if str_eq name "tavily"
    then some ps.tavily
    else if str_eq name "serpapi"
    then some ps.serpapi
    else none

-- The loop over the order: the names and the providers taken, after those seen before.
unfoldable pub chosen :
    {W : Type 0} → Providers W → List String → List String → List (String × Provider W)
unfolding lookup
chosen ps seen [] = []
chosen ps seen (name ∷ names) =
    let skipped = chosen ps seen names in
    let taken = chosen ps (name ∷ seen) names in
    elim (lookup ps name) [
      | none ↦ skipped
      | some p ↦ if member name seen then skipped else (name, p) ∷ taken
    ]

abbrev pub names_of : {W : Type 0} → List (String × Provider W) → List String
names_of [] = []
names_of ((name, p) ∷ ps) = name ∷ names_of ps

abbrev pub providers_of : {W : Type 0} → List (String × Provider W) → List (Option (Provider W))
providers_of [] = []
providers_of ((name, p) ∷ ps) = some p ∷ providers_of ps

-- The providers in the order in which the engine gets them, with their names in the map.
unfoldable pub arranged : {W : Type 0} → Providers W → List String → List (String × Provider W)
unfolding chosen
arranged ps order =
    let ordered = chosen ps [] order in
    if member "ddg" (names_of ordered) then ordered else ("ddg", ps.ddg) ∷ ordered

-- `NewDefaultEngineFromConfig`, given the providers that it builds.
unfoldable pub new_default_engine :
    {W : Type 0} → Providers W → Config → List (Option (Hook W)) → Option (Engine W) × GoError
unfolding arranged new_engine
new_default_engine ps cfg hooks =
    new_engine (record { providers = providers_of (arranged ps cfg.provider_order); hooks = hooks })

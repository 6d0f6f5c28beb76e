-- ===== src/Tests/Settings.antt =====
-- The configuration of an environment that sets the order, and the default engine of that order.
use text.Mathlib.Text.{◌==◌ as str_eq}
use goddgs.Prelude.{
  List, ℕ, String, ◌≡◌, refl, Bool, true, false, ◌&&◌, ◌||◌, none, some, [], ◌∷◌, All,
  if◌then◌else◌,
}
use goddgs.Prelude.Text.{trim_space, is_space}
use goddgs.Prelude.Format.{join}
use goddgs.Failure.{nil}
use goddgs.Engine.{Provider, Engine}
use goddgs.Config.{
  Config, Env, load_config, Providers, new_default_engine, names_of, arranged, member,
}
use goddgs.Config.Order.{Distinct}
use goddgs.Config.Named.{Listed, map_names, new_default_engine-Listed}
use goddgs.Config.Listed.{IsName, load_config-join}
use goddgs.Tests.Searches.{config}

abbrev lookup_variable : Bool → String
lookup_variable true = " brave, brave ,bing"
lookup_variable false = ""

abbrev env : Env
env = record {
  getenv = λ name. lookup_variable (str_eq name "GODDGS_PROVIDER_ORDER");
  lower = λ s. s;
  equal_fold = str_eq;
  parse_duration = λ s. none;
  atoi = λ s. none;
}

abbrev silent : String → Provider ℕ
silent name = record { name = name; enabled = true; search = λ req w. (([], nil), w) }

abbrev known : Providers ℕ
known = record {
  ddg = silent "ddg";
  brave = silent "brave";
  tavily = silent "tavily";
  serpapi = silent "serpapi";
}

arranged_run : names_of (arranged known (load_config env).provider_order) ≡ "ddg" ∷ "brave" ∷ []
unfolding arranged load_config trim_space
arranged_run = refl

new_default_engine-Listed_example :
    (e : Engine ℕ) × (names : List String) × (new_default_engine known (load_config env) []
      ≡ (some e, nil))
    × (e.hooks ≡ [])
    × Listed known names e.providers
    × Distinct names
    × ((n : String)
        → member n names
          ≡ (str_eq "ddg" n || (member n map_names && member n (load_config env).provider_order)))
new_default_engine-Listed_example = new_default_engine-Listed known (load_config env) []

abbrev wanted : Config
wanted = record config { provider_order = "tavily" ∷ "ddg" ∷ [] }

abbrev printed : Env
printed = record env {
  getenv = λ name. if str_eq name "GODDGS_PROVIDER_ORDER" then "tavily,ddg" else "";
}

wanted-IsName : All (IsName printed) wanted.provider_order
unfolding is_space
wanted-IsName = ((refl, refl, refl, refl), ((refl, refl, refl, refl), tt))

printed-join : printed.getenv "GODDGS_PROVIDER_ORDER" ≡ join "," wanted.provider_order
unfolding join
printed-join = refl

load_config-join_example : (load_config printed).provider_order ≡ wanted.provider_order
load_config-join_example = load_config-join printed wanted (λ h. cc) wanted-IsName printed-join

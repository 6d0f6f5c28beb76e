-- ===== src/Command/Daemon.antt =====
-- cmd/goddgsd/main.go up to the listener: what is served, and what the gauges show by then.
pub mod Gauges
use text.Mathlib.Text.{◌==◌ as str_eq}
use goddgs.Prelude.{ℕ, ◌⊎◌, inl, inr, String, Option, none, some, List, [], ◌∷◌, if◌then◌else◌}
use goddgs.Prelude.Text.{trim_space}
use goddgs.Failure.{GoError, wrapped}
use goddgs.Config.{member}
use goddgs.Engine.{Engine, Run, enabled_providers}
use goddgs.Metrics.{PrometheusCollector, set_provider_enabled}
use goddgs.Service.{Incoming, Answer, ServiceSearchRequest, handle}

-- The loop of `runWithServe` over the names of the providers.
unfoldable pub mark_enabled :
    {W : Type 0} → Engine W → List String → PrometheusCollector → PrometheusCollector
unfolding set_provider_enabled enabled_providers
mark_enabled e [] c = c
mark_enabled e (p ∷ ps) c =
    mark_enabled e ps (set_provider_enabled p (member p (enabled_providers e)) c)

abbrev pub provider_names : List String
provider_names = "ddg" ∷ "brave" ∷ "tavily" ∷ "serpapi" ∷ []

-- `getenv`, over `os.Getenv`.
unfoldable getenv : (String → String) → String → String → String
unfolding trim_space
getenv env key default = let v = trim_space (env key) in if str_eq v "" then default else v

-- The server of `runWithServe`: its address, its handler, and the collector by the time it starts.
pub record Server (W : Type 0) : Type 0 where
  pub addr : String
  pub handler : Incoming → Run W → Answer × Run W
  pub collector : PrometheusCollector

module _ {W : Type 0} (now : W → ℕ × W) (decode : String → Option ServiceSearchRequest)
    (env : String → String) (page : W → String) where
  -- The server over an engine.
  unfoldable pub server : Engine W → PrometheusCollector → Server W
  unfolding mark_enabled getenv handle
  server e c = record {
    addr = getenv env "GODDGS_ADDR" ":8080";
    handler = handle now decode (some e) (some page);
    collector = mark_enabled e provider_names c;
  }

  -- `runWithServe` from the engine on, or the error of a missing engine; `page` is the handler of the
  -- Prometheus library, and the listener and its shutdown follow.
  unfoldable pub run_with_serve :
      Option (Engine W) × GoError → PrometheusCollector → Server W ⊎ GoError
  unfolding server
  run_with_serve (none, err) c = inr (wrapped "engine init: " err "")
  run_with_serve (some e, err) c = inl (server e c)

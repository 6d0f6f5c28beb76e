-- ===== src/Tests/Daemons.antt =====
-- The daemon over the default engine.
use goddgs.Prelude.{ℕ, String, ◌≡◌, ◌⊎◌, refl, inl, inr, Option, List, [], ◌∷◌, if◌then◌else◌}
use goddgs.Prelude.Text.{trim_space}
use goddgs.Prelude.Int.{pos}
use goddgs.Failure.{GoError, message, wrapped}
use goddgs.Client.{State}
use goddgs.Config.{Config, member, new_default_engine}
use goddgs.Config.Defaults.{default_providers}
use goddgs.Metrics.{PrometheusCollector, value_of}
use goddgs.Engine.{Engine}
use goddgs.Browser.HttpClient.{new_http_client}
use goddgs.Command.Daemon.{Server, run_with_serve}
use goddgs.Command.Daemon.Gauges.{gauge, bit, takes_part, run_with_serve-Shows}
use goddgs.Tests.Searches.{site, lib, config, web}
use goddgs.Tests.Wholes.{decode, incoming, clock, run}

abbrev empty : PrometheusCollector
empty = record { counters = []; gauges = []; durations = [] }

-- A key for Brave only, and an order that leaves DuckDuckGo out.
abbrev keyed : Config
keyed = record config { brave_api_key = "key"; provider_order = "tavily" ∷ "brave" ∷ [] }

abbrev engine : Option (Engine (State ℕ)) × GoError
engine =
    new_default_engine
      (default_providers site lib keyed web lib.unmarshal lib.unmarshal lib.unmarshal (λ s. s))
      keyed []

run_with_serve-Shows_example :
    (s : Server (State ℕ)) × (run_with_serve clock decode (λ v. "") (λ st. "") engine empty ≡ inl s)
    × ((s.handler (record incoming { path = "/readyz" }) run).0.status ≡ 200)
    × (value_of (gauge "brave") s.collector.gauges ≡ (
        if member "brave" ("ddg" ∷ "brave" ∷ "tavily" ∷ "serpapi" ∷ [])
        then bit (takes_part keyed "brave")
        else value_of (gauge "brave") empty.gauges))
run_with_serve-Shows_example =
    run_with_serve-Shows site lib keyed web lib.unmarshal lib.unmarshal lib.unmarshal (λ s. s) []
      clock decode (λ v. "") (λ st. "") empty incoming run "brave"

-- The gauges by the time the server starts, and its address.
abbrev summary : Server (State ℕ) ⊎ GoError → String × List (List String × ℕ)
summary (inl s) = (s.addr, s.collector.gauges)
summary (inr err) = ("", [])

gauges_shown : summary (run_with_serve clock decode (λ v. "") (λ st. "") engine empty) ≡ (
  ":8080",
  (gauge "ddg", 1) ∷ (gauge "brave", 1) ∷ (gauge "tavily", 0) ∷ (gauge "serpapi", 0) ∷ [],
)
unfolding run_with_serve new_default_engine default_providers trim_space
gauges_shown = refl

bad_proxy :
    new_http_client (λ s. message "bad") (pos 0) ":"
    ≡ inr (wrapped "invalid proxy url: " (message "bad") "")
unfolding new_http_client
bad_proxy = refl

-- ===== src/Config/Defaults.antt =====
-- config.go: the providers that `NewDefaultEngineFromConfig` builds. Its client has no anti-bot state, so
-- that no solver runs, and its world is that of the engine together with the client's own state.
pub mod Answers
pub mod Honest
use goddgs.Prelude.{ℕ, String, Bool, Option, none, some, List, []}
use goddgs.Prelude.Int.{ℤ, pos}
use goddgs.Failure.{GoError, nil}
use goddgs.Api.{SearchOptions}
use goddgs.Net.{HttpRequest, Reply, Net}
use goddgs.Engine.{Engine, Hook}
use goddgs.Backend.{Found, RawItem, ddg_provider, brave_provider, serpapi_provider, tavily_provider}
use goddgs.Client.{State, Settings, Io}
use goddgs.Client.Parse.{Library}
use goddgs.Client.Search.{client_search}
use goddgs.Client.Setup.{Options, new_settings, new_client}
use goddgs.Config.{Config, Providers, new_default_engine}

-- The options of the client.
unfoldable pub client_options : Config → Options
client_options cfg = record {
  duck_duck_go_base = cfg.duck_duck_go_base;
  links_base = cfg.links_base;
  html_base = cfg.html_base;
  user_agent = "";
  referer = "";
  headers = [];
  retry_max = cfg.max_retries;
  retry_base_delay = pos 0;
  min_request_interval = pos 0;
  vqd_ttl = pos 0;
  disable_html_fallback = cfg.disable_html_fallback;
  blocked_status_codes = none;
  blocked_body_patterns = [];
  anti_bot = none;
}

-- The other providers leave the state of the client alone.
abbrev pub beside : {W : Type 0} → Net W → Net (State W)
beside net = record {
  new_request = net.new_request;
  send = λ req st. let (reply, w1) = net.send req st.world in (reply, record st { world = w1 });
  encode = net.encode;
}

-- A result that comes about whenever the fuel is enough.
abbrev pub whole : Option Found → Found
whole none = ([], nil)
whole (some found) = found

module _ {W : Type 0} (io : Io W) (lib : Library) (cfg : Config) where
  -- `Client.Search` of the client, with fuel for as many turns as it has tries.
  unfoldable pub ddg_search : String → SearchOptions → State W → Found × State W
  unfolding client_options new_settings client_search
  ddg_search query opts st =
      let settings = new_settings (client_options cfg) in
      let (out, st1) = client_search io settings lib settings.retry_max query opts st in
      (whole out, st1)

  -- `providers`; `brave_items` and the others decode the JSON of a service, and `quote` is the verb `%q`.
  unfoldable pub default_providers :
      Net W
      → (brave_items serp_items tavily_items : String → List RawItem × GoError) → (String → String)
      → Providers (State W)
  unfolding ddg_search ddg_provider brave_provider serpapi_provider tavily_provider
  default_providers net brave_items serp_items tavily_items quote = record {
    ddg = ddg_provider (some ddg_search);
    brave = brave_provider (beside net) brave_items cfg.brave_api_key;
    tavily = tavily_provider (beside net) tavily_items quote cfg.tavily_api_key;
    serpapi = serpapi_provider (beside net) serp_items cfg.serp_api_key;
  }

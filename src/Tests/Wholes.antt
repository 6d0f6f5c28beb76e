-- ===== src/Tests/Wholes.antt =====
-- The client through several calls, and the service over the default engine.
use goddgs.Prelude.{
  ℕ, ◌+◌, ◌*◌, ◌≤◌, String, ◌≡◌, refl, false, Option, none, some, List, [], ◌∷◌, arith,
}
use goddgs.Prelude.Int.{pos, positive_or}
use goddgs.Failure.{nil, message}
use goddgs.Net.{do_error}
use goddgs.Engine.{Run}
use goddgs.Client.{State, Io, wait_for_turn, sleep_backoff}
use goddgs.Client.Retry.{turned_away, judge}
use goddgs.Client.Retry.Count.{Meter}
use goddgs.Client.Loop.{turn, do_with_retry}
use goddgs.Client.Query.{get_vqd, build_djs, build_html}
use goddgs.Prelude.Text.{trim_space}
use goddgs.Client.Search.Count.{client_search-count}
use goddgs.Client.Search.{client_search}
use goddgs.Client.Search.Sound.{Holds, Sound, Call, one_search, many_pages, after_calls}
use goddgs.Client.Setup.{Options, new_anti_bot_config, new_settings, new_client}
use goddgs.Client.Setup.Lasting.{IsSane, new_client-Sound}
use goddgs.Config.{new_default_engine}
use goddgs.Config.Defaults.{default_providers}
use goddgs.Service.{ServiceSearchRequest, Incoming, handle_search}
use goddgs.Service.Default.{Reply, default_service-Reply}
use goddgs.Tests.Searches.{site, lib, options, missing, config, web}

abbrev guarded : Options
guarded = record missing { anti_bot = some new_anti_bot_config }

abbrev calls : List Call
calls = one_search 3 "golang" options ∷ many_pages 3 "go" (pos 5) (pos 2) options ∷ []

default-IsSane : IsSane new_anti_bot_config
unfolding new_anti_bot_config positive_or
default-IsSane = omega arith

new_client-Sound_example :
    Holds Sound (after_calls site (new_settings guarded) lib calls (new_client guarded 0)).anti_bot
new_client-Sound_example =
    new_client-Sound site lib guarded 0 calls (λ d. omega arith) default-IsSane

abbrev pub decode : String → Option ServiceSearchRequest
decode s = some (record { query = s; max_results = pos 5; region = "" })

abbrev pub incoming : Incoming
incoming = record { method = "POST"; path = "/v1/search"; body = "golang" }

abbrev pub clock : State ℕ → ℕ × State ℕ
clock st = (st.world, record st { world = st.world + 1 })

abbrev pub run : Run (State ℕ)
run = record { world = new_client missing 0; emitted = [] }

default_service-Reply_example :
    Reply clock decode
      (new_default_engine
        (default_providers site lib config web lib.unmarshal lib.unmarshal lib.unmarshal (λ s. s))
        config
        []).0
      incoming
      run
      (handle_search clock decode
        (new_default_engine
          (default_providers site lib config web lib.unmarshal lib.unmarshal lib.unmarshal (λ s. s))
          config
          []).0
        incoming
        run).0
default_service-Reply_example =
    default_service-Reply site lib config web lib.unmarshal lib.unmarshal lib.unmarshal (λ s. s) []
      clock decode incoming run refl

-- The world is the time, with the number of requests that were sent.
abbrev counted : Io (ℕ × ℕ)
counted = record {
  now = λ w. (w.0, (w.0 + 1, w.1));
  sleep = λ d w. (nil, (w.0 + d, w.1));
  send = λ req w. (do_error (message "timeout"), (w.0, w.1 + 1));
  last_proxy = λ w. none;
  on_blocked = none;
  on_circuit = none;
  solve = none;
  apply_cookies = λ cs w. w;
  pin_agent = λ ua w. w;
  backoff_delay = λ d w. (d, w);
  gaussian = λ w. ((λ mean dev. pos mean), w);
  scale = λ f d. pos d;
  matches = λ re s. false;
  lower = λ s. s;
  snippet = λ s. s;
  scan_int = λ s. none;
  parse_time = λ s. none;
}

requests : Meter counted
requests = record {
  count = λ w. w.1;
  send = λ req w. refl;
  now = λ w. refl;
  sleep = λ d w. refl;
  backoff_delay = λ d w. refl;
  gaussian = λ w. refl;
  on_blocked = λ f e ev w. cc;
  on_circuit = λ f e ev w. cc;
}

client_search-count_example :
    requests.count
      (client_search counted
        (new_settings guarded)
        lib
        9
        "golang"
        options
        (new_client guarded (0, 0))).1.world
    ≤ requests.count (0, 0)
      + ((new_settings guarded).retry_max * ((new_settings guarded).retry_max + 2) + 2)
unfolding new_client
client_search-count_example =
    client_search-count counted requests refl (new_settings guarded) lib 9 "golang" options
      (new_client guarded (0, 0))

-- The first way gives up with its token, after three tries, and the second way has three of its own.
six_sent :
    (client_search counted
      (new_settings missing)
      lib
      9
      "golang"
      options
      (new_client missing (0, 0))).1.world.1
    ≡ 6
unfolding client_search new_settings new_client trim_space do_with_retry turn turned_away
    wait_for_turn build_djs build_html get_vqd judge sleep_backoff
six_sent = refl

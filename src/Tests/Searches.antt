-- ===== src/Tests/Searches.antt =====
-- The client against a server that answers every request with one page, and what it makes of options
-- that are missing.
use goddgs.Prelude.{ℕ, ◌+◌, ◌*◌, ◌≡◌, refl, false, none, some, [], ◌∷◌, arith}
use goddgs.Prelude.Int.{pos, negsuc, positive_or}
use goddgs.Prelude.Text.{trim_space, has_prefix}
use goddgs.Failure.{nil}
use goddgs.Api.{SearchResult, SearchOptions, SearchRequest, safe_moderate}
use goddgs.Backend.{Found, collect}
use goddgs.Net.{Net, response}
use goddgs.Client.{State, Io, wait_for_turn, blocked_detector}
use goddgs.Client.Retry.{turned_away, judge, handle_success}
use goddgs.Client.Loop.{got, turn, do_with_retry}
use goddgs.Client.Parse.{Library, extract_vqd, parse_djs}
use goddgs.Client.Query.{get_vqd, build_djs}
use goddgs.Client.Query.Token.{get_vqd-reused}
use goddgs.Client.Search.{client_search, search_pages}
use goddgs.Client.Search.Served.{Served, client_search-Served}
use goddgs.Client.Search.Total.{client_search-total}
use goddgs.Client.Search.Pages.{Collected, search_pages-Collected}
use goddgs.Client.Setup.{Options, new_settings}
use goddgs.Client.Setup.Filled.{Ready, new_settings-Ready}
use goddgs.Config.{Config}
use goddgs.Config.Defaults.{default_providers}
use goddgs.Config.Defaults.Answers.{default_providers-Served}
use goddgs.Tests.Retries.{io, settings, begin}

-- The page has a token, and a list of results that is decoded to one item.
abbrev pub site : Io ℕ
site = record io {
  send = λ req w.
      (response (record { status_code = 200; headers = []; body = "vqd='4-1' [{go}]" }) nil, w + 1);
}

abbrev pub lib : Library
lib = record {
  new_request = λ req. nil;
  encode = λ ps. "form";
  find = λ re s. some "4-1";
  unmarshal = λ s. (record { title = "Go"; url = "https://go.dev"; text = s } ∷ [], nil);
  find_results = λ s. [];
  strip_tags = λ s. s;
  unescape = λ s. s;
  canonical = λ s. s;
}

abbrev pub options : SearchOptions
options = record {
  max_results = pos 5;
  region = "";
  safe_search = safe_moderate;
  time_range = "";
  offset = pos 0;
}

abbrev page : SearchResult
page = record { title = "Go"; url = "https://go.dev"; snippet = "[{go}]" }

client_search-Served_example : Served (positive_or (pos 5) 10) (page ∷ [], nil)
unfolding client_search trim_space do_with_retry turn turned_away wait_for_turn build_djs get_vqd
    judge blocked_detector extract_vqd parse_djs has_prefix collect positive_or
client_search-Served_example =
    client_search-Served site settings lib 3 "golang" options begin (page ∷ [], nil) refl

client_search-total_example :
    (out : Found) × ((client_search site settings lib 3 "golang" options begin).0 ≡ some out)
client_search-total_example =
    client_search-total site settings lib refl 3 (omega arith) (omega arith) "golang" options begin

search_pages-Collected_example :
    Collected (positive_or (pos 2) 1 * positive_or (pos 5) 30) (page ∷ [], nil)
unfolding search_pages client_search trim_space do_with_retry turn turned_away wait_for_turn
    build_djs get_vqd judge blocked_detector extract_vqd parse_djs has_prefix collect positive_or
    handle_success
search_pages-Collected_example =
    search_pages-Collected site settings lib 3 "golang" (pos 5) (pos 2) options begin
      (page ∷ [], nil) refl

-- The client after it fetched the token for a query, with the limiter's time moved on.
abbrev fetched : State ℕ
fetched = record ((get_vqd site settings lib 3 "golang" begin).1) { last_req = 40; world = 50 }

get_vqd-reused_example :
    get_vqd site settings lib 1 "golang" fetched ≡ (some (got "4-1"), record fetched { world = 51 })
unfolding get_vqd do_with_retry turn turned_away wait_for_turn judge blocked_detector extract_vqd
    handle_success
get_vqd-reused_example =
    get_vqd-reused site settings lib 3 1 "golang" "4-1" begin fetched refl refl refl refl
      (omega arith)

abbrev pub missing : Options
missing = record {
  duck_duck_go_base = "https://ddg.example//";
  links_base = "";
  html_base = "/";
  user_agent = " ";
  referer = "";
  headers = [];
  retry_max = negsuc 0;
  retry_base_delay = pos 0;
  min_request_interval = pos 0;
  vqd_ttl = pos 0;
  disable_html_fallback = false;
  blocked_status_codes = none;
  blocked_body_patterns = [];
  anti_bot = none;
}

new_settings-Ready_example : Ready missing (new_settings missing)
new_settings-Ready_example = new_settings-Ready missing

abbrev pub config : Config
config = record {
  brave_api_key = "";
  tavily_api_key = "";
  serp_api_key = "";
  duck_duck_go_base = "";
  links_base = "";
  html_base = "";
  provider_order = "ddg" ∷ [];
  timeout = pos 20_000_000_000;
  max_retries = pos 3;
  disable_html_fallback = false;
}

abbrev pub web : Net ℕ
web = record { new_request = λ req. nil; send = site.send; encode = λ ps. "form" }

abbrev asked : SearchRequest
asked = record {
  query = "golang";
  max_results = pos 5;
  region = "us-en";
  safe_search = safe_moderate;
  time_range = "";
  offset = pos 0;
}

default_providers-Served_example :
    Served
      (positive_or (pos 5) 10)
      ((default_providers site lib config web lib.unmarshal lib.unmarshal lib.unmarshal
          (λ s. s)).ddg.search
        asked begin).0
default_providers-Served_example =
    default_providers-Served site refl lib config web lib.unmarshal lib.unmarshal lib.unmarshal
      (λ s. s) asked begin

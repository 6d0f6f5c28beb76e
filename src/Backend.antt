-- ===== src/Backend.antt =====
-- provider.go: the adapters that make `Client` and three search services providers of the engine.
-- The three services differ in their request and in the fields of their JSON, whose decoding is a
-- parameter: the items found, and `nil` or the error of `json.Unmarshal`.
pub mod Results
pub mod Addresses
use text.Mathlib.Text.{◌==◌ as str_eq}
use goddgs.Prelude.{
  ℕ, String, Bool, true, false, not, Option, none, some, List, [], ◌∷◌, leb, ◌==◌, if◌then◌else◌,
}
use goddgs.Prelude.Int.{ℤ, pos, pos_part, ltb_ℤ}
use goddgs.Prelude.Text.{trim_space, is_blank}
use goddgs.Prelude.Format.{concat, decimal}
use goddgs.Failure.{
  ErrorKind, rate_limited, provider_unavailable, parse, invalid_input, no_results, internal,
  err_no_results, GoError, nil, sentinel, message, search_error, is_nil, to_error, classify_error,
}
use goddgs.Api.{SearchResult, SearchRequest, SearchOptions, to_search_options}
use goddgs.Net.{HttpRequest, HttpResponse, Reply, response, do_error, Net}
use goddgs.Engine.{Provider}

abbrev pub Found : Type 0
Found = List SearchResult × GoError

-- One item as the JSON of a service gives it.
pub record RawItem : Type 0 where
  pub title : String
  pub url : String
  pub text : String

-- The loop that keeps the items with an address, trimmed.
unfoldable pub collect : List RawItem → List SearchResult
collect [] = []
collect (r ∷ rs) =
    let rest = collect rs in
    if is_blank r.url
    then rest
    else record { title = trim_space r.title; url = trim_space r.url; snippet = trim_space r.text }
      ∷ rest

abbrev fail : String → ErrorKind → Bool → GoError → Found
fail name kind temporary cause = ([], search_error kind name temporary cause [])

-- `maxOrDefault`.
unfoldable max_or_default : ℤ → ℕ → ℕ
max_or_default v def = if ltb_ℤ (pos 0) v then pos_part v else def

-- What the results of a service come to.
unfoldable pub or_no_results : String → List SearchResult → Found
or_no_results name [] = fail name no_results false (sentinel err_no_results)
or_no_results name (r ∷ rs) = (r ∷ rs, nil)

-- What follows the response in each `Search`. An error of reading the body is dropped there.
unfoldable pub interpret : String → (String → List RawItem × GoError) → HttpResponse → Found
unfolding collect or_no_results
interpret name unmarshal resp =
    let (items, err) = unmarshal resp.body in
    if resp.status_code == 429
    then fail name rate_limited true (message (concat ("http " ∷ decimal resp.status_code ∷ [])))
    else if leb 500 resp.status_code
    then fail name provider_unavailable true
        (message (concat ("http " ∷ decimal resp.status_code ∷ [])))
    else if leb 400 resp.status_code
    then fail name provider_unavailable false
        (message (concat ("http " ∷ decimal resp.status_code ∷ ": " ∷ trim_space resp.body ∷ [])))
    else if is_nil err
    then or_no_results name (collect items)
    else fail name parse true err

abbrev of_reply : String → (String → List RawItem × GoError) → Reply → Found
of_reply name unmarshal (response resp read_err) = interpret name unmarshal resp
of_reply name unmarshal (do_error err) = fail name provider_unavailable true err

module _ {W : Type 0} (net : Net W) (unmarshal : String → List RawItem × GoError) where
  -- The common body of the three `Search` methods, once the provider is known to be enabled.
  sent : String → HttpRequest → W → Found × W
  unfolding interpret
  sent name hreq w =
      let (reply, w1) = net.send hreq w in
      if is_nil (net.new_request hreq)
      then (of_reply name unmarshal reply, w1)
      else (fail name internal false (net.new_request hreq), w)

  abbrev ask : String → Bool → HttpRequest → W → Found × W
  ask name enabled hreq w =
      if enabled
      then sent name hreq w
      else (fail name provider_unavailable false (message "provider disabled"), w)

  abbrev has_key : String → Bool
  has_key key = not (str_eq key "")

  abbrev count_param : SearchRequest → List (String × String)
  count_param req =
      if ltb_ℤ (pos 0) req.max_results
      then ("count", decimal (pos_part req.max_results)) ∷ []
      else []

  -- `NewBraveProvider` and `BraveProvider.Search`.
  unfoldable pub brave_provider : String → Provider W
  unfolding sent
  brave_provider api_key =
      let key = trim_space api_key in
      record {
        name = "brave";
        enabled = has_key key;
        search = λ req. ask "brave" (has_key key) (record {
          method = "GET";
          url = concat (
              "https://api.search.brave.com/res/v1/web/search?"
              ∷ net.encode (("q", req.query) ∷ count_param req)
              ∷ []);
          headers = ("Accept", "application/json" ∷ []) ∷ ("X-Subscription-Token", key ∷ []) ∷ [];
          body = "";
        });
      }

  -- `NewSerpAPIProvider` and `SerpAPIProvider.Search`.
  unfoldable pub serpapi_provider : String → Provider W
  unfolding sent
  serpapi_provider api_key =
      let key = trim_space api_key in
      record {
        name = "serpapi";
        enabled = has_key key;
        search = λ req. ask "serpapi" (has_key key) (record {
          method = "GET";
          url = concat (
              "https://serpapi.com/search.json?"
              ∷ net.encode (("engine", "duckduckgo") ∷ ("q", req.query) ∷ ("api_key", key) ∷ [])
              ∷ []);
          headers = [];
          body = "";
        });
      }

  -- `NewTavilyProvider` and `TavilyProvider.Search`; `quote` is the verb `%q`.
  unfoldable pub tavily_provider : (String → String) → String → Provider W
  unfolding sent max_or_default
  tavily_provider quote api_key =
      let key = trim_space api_key in
      record {
        name = "tavily";
        enabled = has_key key;
        search = λ req. ask "tavily" (has_key key) (record {
          method = "POST";
          url = "https://api.tavily.com/search";
          headers =
              ("Content-Type", "application/json" ∷ []) ∷ ("Accept", "application/json" ∷ []) ∷ [];
          body = concat (
              "{\"api_key\":"
              ∷ quote key
              ∷ ",\"query\":"
              ∷ quote req.query
              ∷ ",\"max_results\":"
              ∷ decimal (max_or_default req.max_results 10)
              ∷ "}"
              ∷ []);
        });
      }

-- `DDGProvider.Search`, given `Client.Search` where the provider has a client.
unfoldable pub of_client : Found → Found
of_client (results, err) = elim (classify_error "ddg" err) [
  | some se ↦ ([], to_error se)
  | none ↦ or_no_results "ddg" results
]

unfoldable pub ddg_provider :
    {W : Type 0} → Option (String → SearchOptions → W → Found × W) → Provider W
unfolding of_client or_no_results to_search_options
ddg_provider none = record {
  name = "ddg";
  enabled = false;
  search = λ req w. (fail "ddg" provider_unavailable false (message "nil ddg client"), w);
}
ddg_provider (some client_search) = record {
  name = "ddg";
  enabled = true;
  search = λ req w.
      if is_blank req.query
      then (fail "ddg" invalid_input false (message "query is required"), w)
      else let (found, w1) = client_search req.query (to_search_options req) w in
        (of_client found, w1);
}

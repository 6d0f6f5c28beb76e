-- ===== src/Api.antt =====
-- api.go, events.go, and the search types of client.go.
use goddgs.Prelude.{ℕ, String, Bool, Option, List}
use goddgs.Prelude.Int.{ℤ}
use goddgs.Signal.{BlockInfo}
use goddgs.Failure.{ErrorKind}

-- `Result` of client.go.
pub record SearchResult : Type 0 where
  pub title : String
  pub url : String
  pub snippet : String

pub data SafeSearch : Type 0 where
  safe_moderate safe_off safe_strict : SafeSearch

-- `SafeSearch.ddgParam`.
unfoldable pub ddg_param : SafeSearch → String
ddg_param safe_off = "-2"
ddg_param safe_strict = "1"
ddg_param safe_moderate = "-1"

pub record SearchOptions : Type 0 where
  pub max_results : ℤ
  pub region : String
  pub safe_search : SafeSearch
  pub time_range : String
  pub offset : ℤ

pub record SearchRequest : Type 0 where
  pub query : String
  pub max_results : ℤ
  pub region : String
  pub safe_search : SafeSearch
  pub time_range : String
  pub offset : ℤ

-- `SearchRequest.toSearchOptions`.
unfoldable pub to_search_options : SearchRequest → SearchOptions
to_search_options r = record {
  max_results = r.max_results;
  region = r.region;
  safe_search = r.safe_search;
  time_range = r.time_range;
  offset = r.offset;
}

pub record ProviderError : Type 0 where
  pub provider : String
  pub kind : ErrorKind
  pub message : String
  pub details : List (String × String)

-- `Timings` is a map, here the list of its entries in the order of their first writing.
pub record Diagnostics : Type 0 where
  pub block_info : Option BlockInfo
  pub attempts : ℕ
  pub provider_chain : List String
  pub timings : List (String × ℕ)
  pub errors : List ProviderError

pub record SearchResponse : Type 0 where
  pub results : List SearchResult
  pub provider : String
  pub fallback_used : Bool
  pub diagnostics : Diagnostics

pub data EventType : Type 0 where
  search_start search_finish provider_start provider_end blocked_seen fallback : EventType

-- `Event` of events.go; `QueryHash` is never set by the program. The empty `ErrorKind` is `none`.
pub record Event : Type 0 where
  pub event_type : EventType
  pub provider : String
  pub duration : ℕ
  pub err_kind : Option ErrorKind
  pub success : Bool
  pub block : Option BlockInfo

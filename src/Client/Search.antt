-- ===== src/Client/Search.antt =====
-- client.go: `Search` with its two ways of searching, and `SearchPages`. A result `none` means that
-- the fuel of a loop of `doWithRetry` was used up.
pub mod Ways
pub mod Served
pub mod Total
pub mod Pages
pub mod Steps
pub mod Count
pub mod Sound
use text.Mathlib.Text.{◌==◌ as str_eq}
use goddgs.Prelude.{
  ℕ, zero, suc, ◌+◌, ◌*◌, String, Bool, true, false, ◌&&◌, not, Option, none, some, List, [], ◌∷◌,
  ◌++◌, length, take, ltb, if◌then◌else◌,
}
use goddgs.Prelude.Int.{ℤ, pos, ◌+ℤ◌, positive_or}
use goddgs.Prelude.Text.{trim_space}
use goddgs.Prelude.Format.{concat}
use goddgs.Failure.{
  GoError, nil, is_nil, is, message, sentinel, wrapped, err_no_results, error_text,
}
use goddgs.Api.{SearchResult, SearchOptions}
use goddgs.Net.{HttpRequest, response, do_error}
use goddgs.Backend.{Found}
use goddgs.Session.{SessionManager, needs_warmup, warm_up}
use goddgs.Client.{State, Settings, Io, AntiBotState}
use goddgs.Client.Loop.{Outcome, returned, do_with_retry}
use goddgs.Client.Parse.{Library, parse_djs, parse_html}
use goddgs.Client.Query.{apply_headers, build_djs, build_html}

-- Results of which there is one at least, or `ErrNoResults`.
pub or_none_found : List SearchResult → Found
or_none_found [] = ([], sentinel err_no_results)
or_none_found (r ∷ rs) = (r ∷ rs, nil)

module _ (lib : Library) where
  -- What `searchDJS` and `searchHTML` make of the outcome of the loop.
  pub read_djs : Outcome → Found
  unfolding or_none_found
  read_djs out =
      let (body, failure) = returned out in
      let (rs, err) = parse_djs lib body in
      if not (is_nil failure)
      then ([], failure)
      else if is_nil err
      then or_none_found rs
      else ([], err)

  pub read_html : Outcome → Found
  unfolding or_none_found
  read_html out =
      let (body, failure) = returned out in
      if is_nil failure then or_none_found (parse_html lib body) else ([], failure)

abbrev pub map_result {ℓ κ} : {A : Type ℓ} {B : Type κ} → (A → B) → Option A → Option B
map_result f none = none
map_result f (some a) = some (f a)

-- The defaults of `Search`.
abbrev pub with_region : SearchOptions → SearchOptions
with_region opts = record opts { region = if str_eq opts.region "" then "us-en" else opts.region }

-- The answer to a search whose first way found no result, where the second may not be tried.
abbrev pub without_fallback : GoError → Found
without_fallback err = ([], if is_nil err then sentinel err_no_results else err)

-- The answer from the second way, after the error `err` of the first.
pub from_html : ℕ → GoError → Found → Found
from_html max err (rs, fb_err) = if is_nil fb_err then (take max rs, nil) else (
  [],
  if is_nil err
      then fb_err
      else wrapped
          (concat ("goddgs: d.js failed (" ∷ error_text err ∷ "), html fallback failed (" ∷ []))
          fb_err ")",
)

module _ {W : Type 0} (io : Io W) (cfg : Settings) (lib : Library) where
  -- `doWarmupGET`.
  warmup_get : String → Bool → W → GoError × W
  unfolding apply_headers
  warmup_get ua root w =
      let req : HttpRequest = record {
        method = "GET";
        url = concat (cfg.ddg_base ∷ (if root then "/" else "/?q=") ∷ []);
        headers = [];
        body = "";
      } in
      let (reply, w1) = io.send (apply_headers lib cfg ua req) w in
      if is_nil (lib.new_request req)
      then elim reply [ response resp read_err ↦ (nil, w1) | do_error err ↦ (err, w1) ]
      else (lib.new_request req, w)

  -- The warm-up at the start of `Search`; its error is dropped.
  pub ensure_warm : State W → State W
  unfolding warmup_get
  ensure_warm st = elim st.anti_bot [
    | none ↦ st
    | some ab ↦ elim ab.session [
      | none ↦ st
      | some s ↦
          let (now, w1) = io.now st.world in
          let (out, w2) = warm_up io.now (warmup_get st.ua) s w1 in
          if needs_warmup now s
          then record st { anti_bot = some (record ab { session = some (out.1) }); world = w2 }
          else record st { world = w1 }
    ]
  ]

  pub search_djs : ℕ → String → SearchOptions → State W → Option Found × State W
  unfolding read_djs
  search_djs fuel query opts st =
      let (out, st1) = do_with_retry io cfg (build_djs io cfg lib fuel query opts) fuel st in
      (map_result (read_djs lib) out, st1)

  pub search_html : ℕ → String → SearchOptions → State W → Option Found × State W
  unfolding read_html
  search_html fuel query opts st =
      let (out, st1) = do_with_retry io cfg (build_html io cfg lib query opts) fuel st in
      (map_result (read_html lib) out, st1)

  -- `Search` after the checks of its arguments.
  pub search_both : ℕ → String → SearchOptions → ℕ → State W → Option Found × State W
  unfolding search_djs search_html from_html
  search_both fuel query opts max st =
      let (first, st1) = search_djs fuel query opts st in
      elim first [
        | none ↦ (none, st1)
        | some (rs, err) ↦
            let (second, st2) = search_html fuel query opts st1 in
            if is_nil err && ltb 0 (length rs)
            then (some (take max rs, nil), st1)
            else if cfg.no_fallback
            then (some (without_fallback err), st1)
            else (map_result (from_html max err) second, st2)
      ]

  -- `Client.Search`.
  unfoldable pub client_search : ℕ → String → SearchOptions → State W → Option Found × State W
  unfolding ensure_warm search_both
  client_search fuel query opts st =
      let q = trim_space query in
      let max = positive_or opts.max_results 10 in
      if str_eq q ""
      then (some ([], message "goddgs: query is required"), st)
      else search_both fuel q (with_region opts) max (ensure_warm st)

  -- The loop of `SearchPages` from page `i` on, with as many pages left as its first argument says.
  unfoldable pub pages_from :
      ℕ → ℕ → ℕ → String → ℕ → SearchOptions → List SearchResult → State W → Option Found × State W
  pages_from zero fuel i query per_page opts all st = (some (all, nil), st)
  pages_from (suc left) fuel i query per_page opts all st =
      let curr = record opts { max_results = pos per_page; offset = opts.offset +ℤ pos (i * 30) } in
      let (page, st1) = client_search fuel query curr st in
      elim page [
        | none ↦ (none, st1)
        | some (rs, err) ↦ elim (is_nil err) [
          | false ↦ (some (if is err_no_results err then (all, nil) else (all, err)), st1)
          | true ↦ elim (ltb (length rs) per_page) [
            | true ↦ (some (all ++ rs, nil), st1)
            | false ↦ pages_from left fuel (i + 1) query per_page opts (all ++ rs) st1
          ]
        ]
      ]

  -- `Client.SearchPages`.
  unfoldable pub search_pages :
      ℕ → String → ℤ → ℤ → SearchOptions → State W → Option Found × State W
  unfolding pages_from positive_or
  search_pages fuel query per_page pages opts st =
      pages_from (positive_or pages 1) fuel 0 query (positive_or per_page 30) opts [] st

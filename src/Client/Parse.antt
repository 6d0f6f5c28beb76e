-- ===== src/Client/Parse.antt =====
-- client.go: the parts of a response that the client reads. What it uses of the libraries is in
-- `Library`; the indices of `strings.Index` count characters here.
use Prim.Native.String.{[], ◌∷◌}
use text.Mathlib.Text.{◌==◌ as str_eq}
use goddgs.Prelude.{String, ◌||◌, Option, none, some, List, if◌then◌else◌}
use goddgs.Prelude.Text.{trim_space, has_prefix}
use goddgs.Failure.{GoError, nil, is_nil, sentinel, err_unexpected_body}
use goddgs.Api.{SearchResult}
use goddgs.Net.{HttpRequest}
use goddgs.Backend.{Found, RawItem, collect}

-- `http.NewRequestWithContext`, which gives `nil` or its error; `url.Values.Encode`; the first group of
-- `FindSubmatch`; `json.Unmarshal` of a list of items; the two groups of each match of `htmlResultRe`;
-- `htmlTagRe.ReplaceAllString(s, "")`; `html.UnescapeString`; and the canonical form of a header's
-- key.
pub record Library : Type 0 where
  pub new_request : HttpRequest → GoError
  pub encode : List (String × String) → String
  pub find : String → String → Option String
  pub unmarshal : String → List RawItem × GoError
  pub find_results : String → List (String × String)
  pub strip_tags : String → String
  pub unescape : String → String
  pub canonical : String → String

-- The text from the first place of `mark` on.
unfoldable pub from_first : String → String → Option String
from_first mark [] = none
from_first mark (c ∷ s) =
    let later = from_first mark s in if has_prefix (c ∷ s) mark then some (c ∷ s) else later

-- The text up to the end of the last place of `mark`.
unfoldable pub upto_last : String → String → Option String
upto_last mark [] = none
upto_last mark (c ∷ s) = elim (upto_last mark s) [
  | some t ↦ some (c ∷ t)
  | none ↦ if has_prefix (c ∷ s) mark then some mark else none
]

-- `payload` of `parseDJSResults`: from the first "[{" to the last "}]", which has to stand behind it.
unfoldable pub payload_of : String → Option String
unfolding from_first upto_last
payload_of s = elim (from_first "[{" s) [ none ↦ none | some t ↦ upto_last "}]" t ]

-- The keeping of a match of `parseHTMLResults`, which has a title and no snippet.
unfoldable pub keep_titled : List (String × String) → List SearchResult
keep_titled List.[] = List.[]
keep_titled (List.◌∷◌ (href, title) ms) =
    let rest = keep_titled ms in
    if str_eq href "" || str_eq title ""
    then rest
    else List.◌∷◌ (record { title = title; url = href; snippet = "" }) rest

-- The texts of each match, cleaned.
unfoldable pub cleaned : Library → List (String × String) → List (String × String)
cleaned lib List.[] = List.[]
cleaned lib (List.◌∷◌ (href, title) ms) =
    List.◌∷◌ (trim_space (lib.unescape href), trim_space (lib.unescape (lib.strip_tags title)))
      (cleaned lib ms)

module _ (lib : Library) where
  -- `extractVQD`.
  unfoldable pub extract_vqd : String → String
  extract_vqd body = elim (lib.find "vqd=['\\\"]([^'\\\"]+)['\\\"]" body) [
    | some token ↦ token
    | none ↦ elim (lib.find "vqd=([^&'\\\"\\s]+)" body) [ some token ↦ token | none ↦ "" ]
  ]

  -- `parseDJSResults`.
  unfoldable pub parse_djs : String → Found
  unfolding payload_of
  parse_djs body = elim (payload_of body) [
    | none ↦ (List.[], sentinel err_unexpected_body)
    | some payload ↦
        let (items, err) = lib.unmarshal payload in
        if is_nil err then (collect items, nil) else (List.[], err)
  ]

  -- `parseHTMLResults`.
  unfoldable pub parse_html : String → List SearchResult
  unfolding keep_titled cleaned
  parse_html body = keep_titled (cleaned lib (lib.find_results body))

-- ===== src/Client/Query.antt =====
-- client.go: the requests of a search, the token that the first of them needs, and its cache.
pub mod Token
use text.Mathlib.Text.{◌==◌ as str_eq}
use goddgs.Prelude.{
  ℕ, ◌+◌, String, Bool, true, false, ◌&&◌, not, Option, none, some, List, [], ◌∷◌, ltb,
  if◌then◌else◌,
}
use goddgs.Prelude.Int.{ℤ, pos, negsuc, pos_part}
use goddgs.Prelude.Format.{concat, decimal}
use goddgs.Failure.{GoError, nil, is_nil, sentinel, err_no_vqd}
use goddgs.Api.{SearchOptions, ddg_param}
use goddgs.Net.{get, put, HttpRequest}
use goddgs.Client.{TokenEntry, State, Settings, Io}
use goddgs.Client.Loop.{
  Outcome, returned, got, gave_up, Built, request, no_request, starved, do_with_retry,
}
use goddgs.Client.Parse.{Library, extract_vqd}

-- `strconv.Itoa`.
unfoldable pub itoa : ℤ → String
itoa (pos n) = decimal n
itoa (negsuc n) = concat ("-" ∷ decimal (n + 1) ∷ [])

-- `req.Header.Set`, with a canonical key.
abbrev with_header : String → String → HttpRequest → HttpRequest
with_header k v req = record req { headers = put k v req.headers }

abbrev pub form_header : HttpRequest → HttpRequest
form_header = with_header "Content-Type" "application/x-www-form-urlencoded"

abbrev pub djs_headers : HttpRequest → HttpRequest
djs_headers = with_header "Accept" "*/*"

-- Setting the entries of a header map, one after another.
abbrev put_all : (String → String) → List (String × String) → HttpRequest → HttpRequest
put_all canonical [] req = req
put_all canonical ((k, v) ∷ hs) req = put_all canonical hs (with_header (canonical k) v req)

-- `applyHeaders`.
unfoldable pub apply_headers : Library → Settings → String → HttpRequest → HttpRequest
apply_headers lib cfg ua req =
    let req1 = with_header "User-Agent" ua req in
    put_all lib.canonical cfg.headers (
      if str_eq (get req1.headers "Referer") ""
      then with_header "Referer" cfg.referer req1
      else req1)

abbrev pub lookup_token : String → List (String × TokenEntry) → Option TokenEntry
lookup_token key [] = none
lookup_token key ((k, e) ∷ cache) = if str_eq k key then some e else lookup_token key cache

-- `vqdCache[key] = entry`.
abbrev pub store_token :
    String → TokenEntry → List (String × TokenEntry) → List (String × TokenEntry)
store_token key e [] = (key, e) ∷ []
store_token key e ((k, f) ∷ cache) =
    if str_eq k key then (k, e) ∷ cache else (k, f) ∷ store_token key e cache

abbrev pub cache_key : String → String → String
cache_key query ua = concat (query ∷ "|" ∷ ua ∷ [])

-- A cached token that may still be used.
abbrev pub valid_token : ℕ → Option TokenEntry → Option String
valid_token now none = none
valid_token now (some e) =
    if not (str_eq e.value "") && ltb now e.expires_at then some e.value else none

abbrev plain_request : String → String → String → HttpRequest
plain_request method url body = record { method = method; url = url; headers = []; body = body }

module _ {W : Type 0} (io : Io W) (cfg : Settings) (lib : Library) where
  -- A `buildReq` whose request is fixed but for the headers of the client.
  unfoldable pub fixed_request :
      HttpRequest → (HttpRequest → HttpRequest) → State W → Built × State W
  unfolding apply_headers
  fixed_request req more st = (
    if is_nil (lib.new_request req)
        then request (more (apply_headers lib cfg st.ua req))
        else no_request (lib.new_request req),
    st,
  )

  -- `buildReq` of `getVQD`.
  unfoldable pub build_vqd : String → State W → Built × State W
  unfolding fixed_request
  build_vqd query =
      fixed_request
        (plain_request "POST" (concat (cfg.ddg_base ∷ "/" ∷ [])) (lib.encode (("q", query) ∷ [])))
        form_header

  -- The end of `getVQD`, with the key and the time from its beginning.
  keep_token : String → ℕ → String → State W → Outcome × State W
  keep_token key now body st =
      let vqd = extract_vqd lib body in
      if str_eq vqd "" then (gave_up (sentinel err_no_vqd), st) else (
        got vqd,
        record st {
          vqd_cache =
              store_token key (record { value = vqd; expires_at = now + cfg.vqd_ttl }) st.vqd_cache;
        },
      )

  -- `getVQD`; `none` when the fuel of its loop is used up.
  unfoldable pub get_vqd : ℕ → String → State W → Option Outcome × State W
  unfolding build_vqd keep_token
  get_vqd fuel query st =
      let key = cache_key query st.ua in
      let (now, w1) = io.now st.world in
      let st1 = record st { world = w1 } in
      elim (valid_token now (lookup_token key st.vqd_cache)) [
        | some vqd ↦ (some (got vqd), st1)
        | none ↦
            let (out, st2) = do_with_retry io cfg (build_vqd query) fuel st1 in
            elim out [
              | none ↦ (none, st2)
              | some answer ↦
                  let (body, err) = returned answer in
                  let (token, st3) = keep_token key now body st2 in
                  if is_nil err then (some token, st3) else (some (gave_up err), st2)
            ]
      ]

  -- The request of `searchDJS` with its token.
  djs_request : String → SearchOptions → String → HttpRequest
  djs_request query opts vqd =
      plain_request "GET"
        (concat (
          cfg.links_base
          ∷ "/d.js?"
          ∷ lib.encode (
              ("q", query)
              ∷ ("vqd", vqd)
              ∷ ("l", opts.region)
              ∷ ("p", "1")
              ∷ ("s", itoa opts.offset)
              ∷ ("df", opts.time_range)
              ∷ ("ex", "-1")
              ∷ ("kp", ddg_param opts.safe_search)
              ∷ [])
          ∷ []))
        ""

  -- `buildReq` of `searchDJS`, which fetches a token for each attempt.
  unfoldable pub build_djs : ℕ → String → SearchOptions → State W → Built × State W
  unfolding djs_request fixed_request itoa
  build_djs fuel query opts st =
      let (out, st1) = get_vqd fuel query st in
      elim out [
        | none ↦ (starved, st1)
        | some (gave_up err) ↦ (no_request err, st1)
        | some (got vqd) ↦ fixed_request (djs_request query opts vqd) djs_headers st1
      ]

  -- The request of `searchHTML`, and the headers that it sets on top.
  html_request : String → SearchOptions → HttpRequest
  html_request query opts = plain_request "POST" (concat (cfg.html_base ∷ "/html/" ∷ [])) (
      lib.encode (
        ("q", query)
        ∷ ("s", itoa opts.offset)
        ∷ ("kl", opts.region)
        ∷ ("kp", ddg_param opts.safe_search)
        ∷ (if str_eq opts.time_range "" then [] else ("df", opts.time_range) ∷ [])))

  abbrev pub html_headers : HttpRequest → HttpRequest
  html_headers req = with_header "Referer" (concat (cfg.html_base ∷ "/" ∷ [])) (form_header req)

  -- `buildReq` of `searchHTML`.
  unfoldable pub build_html : String → SearchOptions → State W → Built × State W
  unfolding fixed_request html_request itoa
  build_html query opts = fixed_request (html_request query opts) html_headers

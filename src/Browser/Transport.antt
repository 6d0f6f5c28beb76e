-- ===== src/Browser/Transport.antt =====
-- transport.go: what `RoundTrip` makes of a request and of its response. The handshake and the
-- connection are those of the libraries; the choice of a proxy is `ProxyPool.Next`.
pub mod Bodies
pub mod Requests
pub mod Routes
use text.Mathlib.Text.{◌==◌ as str_eq}
use goddgs.Prelude.{
  ℕ, ◌⊎◌, inl, inr, String, Bool, true, false, ◌&&◌, ◌||◌, not, Option, none, some, List, [], ◌∷◌,
  if◌then◌else◌,
}
use goddgs.Prelude.Int.{ℤ, negsuc}
use goddgs.Prelude.Text.{trim_space, has_prefix, contains}
use goddgs.Prelude.Split.{split_comma}
use goddgs.Failure.{GoError, Header}
use goddgs.Net.{get, put, HttpRequest}
use goddgs.Proxy.{ProxyPool, Picked, picked, nobody, panics, next}
use goddgs.Browser.{UserAgentPool, UaEntry, Family, chrome, edge, default_user_agent, pick}
use goddgs.Browser.Headers.{
  Pairs, build_profile, apply_profile, sec_fetch_navigation, sec_fetch_script,
}

-- The parts of a request's URL, `strings.ToLower`, and `strings.HasSuffix`.
pub record UrlParts : Type 0 where
  pub host_of : String → String
  pub path_of : String → String
  pub lower : String → String
  pub has_suffix : String → String → Bool

abbrev priority_for : String → String
priority_for dest =
    if str_eq dest "document" then "u=0, i" else if str_eq dest "script" then "u=2" else "u=1"

abbrev pub is_chromium : Family → Bool
is_chromium chrome = true
is_chromium edge = true
is_chromium _ = false

-- The user agent that step 3 of `RoundTrip` settles on; `drawn` is `PickUA` of the pool, where the
-- transport has one.
unfoldable pub agent_of : Option String → HttpRequest → String
agent_of (some drawn) req = drawn
agent_of none req =
    let ua = get req.headers "User-Agent" in if str_eq ua "" then default_user_agent else ua

module _ (url : UrlParts) where
  -- `inferSecFetch`.
  unfoldable pub infer_sec_fetch : HttpRequest → Pairs
  unfolding sec_fetch_navigation sec_fetch_script has_prefix contains
  infer_sec_fetch req =
      let host = url.lower (url.host_of req.url) in
      if has_prefix host "links." && url.has_suffix (url.path_of req.url) ".js"
      then sec_fetch_script
      else if str_eq req.method "POST"
      then sec_fetch_navigation
          (if contains host "duckduckgo.com" then "same-origin" else "cross-site")
      else sec_fetch_navigation "none"

  -- Steps 2 to 5 of `RoundTrip`: the request that goes out.
  unfoldable pub prepare : Option String → HttpRequest → HttpRequest
  unfolding agent_of infer_sec_fetch build_profile apply_profile
  prepare drawn req =
      let ua = agent_of drawn req in
      let profile = build_profile ua in
      let set_agent = put "User-Agent" ua req.headers in
      let hs = apply_profile set_agent profile (infer_sec_fetch req) in
      record req {
        headers =
            if is_chromium profile.family && str_eq (get hs "Priority") ""
            then put "Priority" (priority_for (get hs "Sec-Fetch-Dest")) hs
            else hs;
      }

-- A response with its body, of which `length` is `ContentLength`.
pub record Response (B : Type 0) : Type 0 where
  pub status_code : ℕ
  pub headers : Header
  pub body : Option B
  pub length : ℤ
  pub uncompressed : Bool

-- The readers of the three encodings. Two of them may refuse a body; they give the reader, where they
-- take the body, and what they leave of the body, of which they have read the beginning.
pub record Decoders (B : Type 0) : Type 0 where
  pub gzip : B → Option B × B
  pub brotli : B → B
  pub zstd : B → Option B × B

-- `Header.Del`.
unfoldable pub del : String → Header → Header
del key [] = []
del key ((k, vs) ∷ hs) = let rest = del key hs in if str_eq k key then rest else (k, vs) ∷ rest

abbrev pub first : List String → String
first [] = ""
first (s ∷ ss) = s

module _ {B : Type 0} (lower : String → String) (decoders : Decoders B) where
  -- `clearContentHeaders`, with the body that is read from there on.
  unfoldable pub clear_content_headers : B → Response B → Response B
  unfolding del
  clear_content_headers body resp = record resp {
    headers = del "Content-Length" (del "Content-Encoding" resp.headers);
    body = some body;
    length = negsuc 0;
    uncompressed = true;
  }

  -- The encoding that `decompressResponse` reads: the text before the first comma.
  unfoldable pub encoding_of : Header → String
  unfolding split_comma trim_space
  encoding_of hs = trim_space (first (split_comma (lower (trim_space (get hs "Content-Encoding")))))

  -- The body behind an encoding, where there is a reader that takes it, and what is left of the body.
  unfoldable pub decode : String → B → Option B × B
  decode enc body =
      if str_eq enc "gzip"
      then decoders.gzip body
      else if str_eq enc "br"
      then (some (decoders.brotli body), body)
      else if str_eq enc "zstd"
      then decoders.zstd body
      else (none, body)

  -- `decompressResponse`.
  unfoldable pub decompress_response : Response B → Response B
  unfolding encoding_of decode clear_content_headers
  decompress_response resp = elim resp.uncompressed [
    | true ↦ resp
    | false ↦ elim resp.body [
      | none ↦ resp
      | some body ↦
          let (reader, left) = decode (encoding_of resp.headers) body in
          elim reader [
            | none ↦ record resp { body = some left }
            | some plain ↦ clear_content_headers plain resp
          ]
    ]
  ]

-- The fields of `antiBotTransport` that its requests read or change; a proxy is its position in the
-- pool, and `LastProxy` reads `last_proxy`.
pub record AntiBotTransport : Type 0 where
  pub ua_pool : Option UserAgentPool
  pub proxy_pool : Option ProxyPool
  pub active_proxy : Option ℕ
  pub last_proxy : Option ℕ

-- The transport after a choice; `none` is a panic of `rand.Intn`.
abbrev pub stored : AntiBotTransport → Picked × ProxyPool → Option AntiBotTransport
stored t (picked i, p) =
    some (record t { proxy_pool = some p; active_proxy = some i; last_proxy = some i })
stored t (nobody, p) =
    some (record t { proxy_pool = some p; active_proxy = none; last_proxy = none })
stored t (panics, p) = none

-- `pickAndStoreProxy`.
unfoldable pub pick_and_store_proxy : (ℕ → ℕ) → (ℕ → ℕ) → AntiBotTransport → Option AntiBotTransport
unfolding next
pick_and_store_proxy intn clock t = elim t.proxy_pool [
  | none ↦ some t
  | some p ↦ stored t (next intn p clock)
]

-- `proxyFunc`: the URL of the active proxy is for the connection to parse.
unfoldable pub proxy_func : AntiBotTransport → Option ℕ
proxy_func t = elim t.proxy_pool [ none ↦ none | some p ↦ t.active_proxy ]

-- `PickUA`, with the number from `rand.Intn`.
abbrev pub drawn_agent : ℕ → AntiBotTransport → Option String
drawn_agent n t = elim t.ua_pool [
  | none ↦ none
  | some pool ↦ elim (pick n pool) [ none ↦ none | some e ↦ some e.ua ]
]

-- `RoundTrip`, over the round trip of the underlying transport by way of a proxy; `none` is a panic.
module _ {B W : Type 0} (url : UrlParts) (decoders : Decoders B)
    (base : Option ℕ → HttpRequest → W → (Response B ⊎ GoError) × W) where
  unfoldable pub round_trip :
      (ℕ → ℕ)
      → (ℕ → ℕ)
      → ℕ
      → HttpRequest
      → AntiBotTransport
      → W
      → Option (((Response B ⊎ GoError) × AntiBotTransport) × W)
  unfolding pick_and_store_proxy prepare proxy_func decompress_response pick
  round_trip intn clock n req t w = elim (pick_and_store_proxy intn clock t) [
    | none ↦ none
    | some t1 ↦
        let (reply, w1) = base (proxy_func t1) (prepare url (drawn_agent n t1) req) w in
        elim reply [
          | inl resp ↦ some ((inl (decompress_response url.lower decoders resp), t1), w1)
          | inr err ↦ some ((inr err, t1), w1)
        ]
  ]

-- ===== src/Browser/Transport/Bodies.antt =====
-- transport.go: what `decompressResponse` makes of a response.
use text.Mathlib.Text.{◌==◌ as str_eq}
use text.Mathlib.TextEquality.{eq_iff}
use goddgs.Prelude.{
  String, ◌≡◌, ◌≢◌, refl, sym, ap, ◌∙◌, ◌⊎◌, inl, inr, true, false, Option, none, some, List, [],
  ◌∷◌, ◌||◌, arith, All, Bool-cases, Option-cases, if◌then◌else◌,
}
use goddgs.Prelude.Int.{negsuc}
use goddgs.Prelude.Text.{trim_space}
use goddgs.Prelude.Format.{join}
use goddgs.Prelude.Split.{split_comma}
use goddgs.Prelude.Split.Joined.{no_comma, split_comma-join}
use goddgs.Failure.{Header}
use goddgs.Net.{get}
use goddgs.Browser.Transport.{
  Response, Decoders, del, first, clear_content_headers, encoding_of, decode, decompress_response,
}

get-del-same : (key : String) (hs : Header) → get (del key hs) key ≡ ""
unfolding get del
get-del-same key [] = refl
get-del-same key ((k, []) ∷ hs) = ground (arith, get-del-same key hs)
get-del-same key ((k, v ∷ vs) ∷ hs) = ground (arith, get-del-same key hs)

get-del-other :
    (key other : String) (hs : Header)
    → str_eq key other ≡ false
    → get (del key hs) other ≡ get hs other
unfolding get del
get-del-other key other [] ne = refl
get-del-other key other ((k, []) ∷ hs) ne =
    ground (arith, eq_iff k key, eq_iff k other, eq_iff key other, get-del-other key other hs ne)
get-del-other key other ((k, v ∷ vs) ∷ hs) ne =
    ground (arith, eq_iff k key, eq_iff k other, eq_iff key other, get-del-other key other hs ne)

-- Which reader takes which encoding, and what it gives and leaves of a body.
pub data Reads {B : Type 0} (decoders : Decoders B) (enc : String) (body : B) (out : Option B × B)
    : Type 0 where
  by_gzip : enc ≡ "gzip" → decoders.gzip body ≡ out → Reads decoders enc body out
  by_brotli : enc ≡ "br" → (some (decoders.brotli body), body) ≡ out → Reads decoders enc body out
  by_zstd : enc ≡ "zstd" → decoders.zstd body ≡ out → Reads decoders enc body out

-- A response whose body is read through a reader: of its headers the encoding and the length are gone,
-- and its length is -1.
pub record Opened {B : Type 0} (plain : B) (resp out : Response B) : Type 0 where
  pub has : out.body ≡ some plain
  pub marked : out.uncompressed ≡ true
  pub length : out.length ≡ negsuc 0
  pub status : out.status_code ≡ resp.status_code
  pub header :
      (key : String)
      → get out.headers key ≡ (
          if str_eq "Content-Encoding" key || str_eq "Content-Length" key
          then ""
          else get resp.headers key)

-- What may become of a response with the encoding `enc`.
pub data Outcome {B : Type 0} (decoders : Decoders B) (enc : String) (resp out : Response B)
    : Type 0 where
  left_alone :
      (resp.uncompressed ≡ true) ⊎ (resp.body ≡ none) → out ≡ resp → Outcome decoders enc resp out
  unknown : enc ≢ "gzip" → enc ≢ "br" → enc ≢ "zstd" → out ≡ resp → Outcome decoders enc resp out
  refused :
      (body rest : B)
      → resp.uncompressed ≡ false
      → resp.body ≡ some body
      → Reads decoders enc body (none, rest)
      → out ≡ record resp { body = some rest }
      → Outcome decoders enc resp out
  opened :
      (body plain rest : B)
      → resp.uncompressed ≡ false
      → resp.body ≡ some body
      → Reads decoders enc body (some plain, rest)
      → Opened plain resp out
      → Outcome decoders enc resp out

module _ {B : Type 0} (lower : String → String) (decoders : Decoders B) where
  decode-cases :
      (enc : String) (body : B)
      → Reads decoders enc body (decode lower decoders enc body)
        ⊎ ((enc ≢ "gzip")
            × (enc ≢ "br")
            × (enc ≢ "zstd")
            × (decode lower decoders enc body ≡ (none, body)))
  unfolding decode
  decode-cases enc body = elim (Bool-cases (str_eq enc "gzip")) [
    | inl hit ↦ rw (hit, decode) (inl (by_gzip (ground (arith, eq_iff enc "gzip")) refl))
    | inr a ↦ elim (Bool-cases (str_eq enc "br")) [
      | inl hit ↦ rw (a, hit, decode) (inl (by_brotli (ground (arith, eq_iff enc "br")) refl))
      | inr b ↦ elim (Bool-cases (str_eq enc "zstd")) [
        | inl hit ↦ rw (a, b, hit, decode) (inl (by_zstd (ground (arith, eq_iff enc "zstd")) refl))
        | inr c ↦
            rw (a, b, c, decode)
              (inr (
                ground (arith, a, eq_iff enc "gzip"),
                ground (arith, b, eq_iff enc "br"),
                ground (arith, c, eq_iff enc "zstd"),
                refl,
              ))
      ]
    ]
  ]

  clear_content_headers-Opened :
      (plain : B) (resp : Response B)
      → Opened plain resp (clear_content_headers lower decoders plain resp)
  unfolding clear_content_headers
  clear_content_headers-Opened plain resp = record {
    has = refl;
    marked = refl;
    length = refl;
    status = refl;
    header = λ key. ground (
      arith,
      eq_iff "Content-Encoding" key,
      eq_iff "Content-Length" key,
      get-del-same key resp.headers,
      get-del-same key (del "Content-Encoding" resp.headers),
      get-del-other "Content-Encoding" key resp.headers,
      get-del-other "Content-Length" key (del "Content-Encoding" resp.headers),
    );
  }

  -- What follows the attempt to read a body through a reader.
  abbrev followed : Response B → Option B × B → Response B
  followed resp (none, rest) = record resp { body = some rest }
  followed resp (some plain, rest) = clear_content_headers lower decoders plain resp

  module _ (resp : Response B) (body : B) (raw : resp.uncompressed ≡ false)
      (has : resp.body ≡ some body) (enc : String)
      (named : encoding_of lower decoders resp.headers ≡ enc) where
    decompress_response-followed :
        decompress_response lower decoders resp ≡ followed resp (decode lower decoders enc body)
    unfolding decompress_response
    decompress_response-followed = ground (arith, raw, has, named)

    decoded-Outcome :
        (out : Option B × B)
        → Reads decoders enc body out
        → Outcome decoders enc resp (followed resp out)
    decoded-Outcome (none, rest) reads = refused body rest raw has reads refl
    decoded-Outcome (some plain, rest) reads =
        opened body plain rest raw has reads (clear_content_headers-Opened plain resp)

    raw-Outcome : Outcome decoders enc resp (decompress_response lower decoders resp)
    raw-Outcome = elim (decode-cases enc body) [
      | inl reads ↦ rw decompress_response-followed (decoded-Outcome _ reads)
      | inr (a, b, c, e) ↦ unknown a b c (
          decompress_response-followed
          ∙ ap (followed resp) e
          ∙ ap (λ (x : Option B). record resp { body = x }) (sym has))
    ]

  encoding_of-join :
      (hs : Header) (s : String) (ss : List String)
      → lower (trim_space (get hs "Content-Encoding")) ≡ join "," (s ∷ ss)
      → All (λ x. no_comma x ≡ true) (s ∷ ss)
      → encoding_of lower decoders hs ≡ trim_space s
  unfolding encoding_of
  encoding_of-join hs s ss listed plain =
      ap (λ (x : String). trim_space (first (split_comma x))) listed
      ∙ ap (λ (xs : List String). trim_space (first xs)) (split_comma-join s ss plain)

  -- `decompressResponse` goes by the first of the encodings that the header lists, in lower case and
  -- trimmed. A response that is uncompressed already or has no body, or whose first encoding is none of
  -- `gzip`, `br` and `zstd`, stays as it is; a body that its reader refuses loses only what was read of
  -- it; and a body that its reader takes is read through it, with the encoding and the length gone from
  -- the headers, all other headers and the status kept, and the response marked as uncompressed.
  pub decompress_response-Outcome :
      (resp : Response B) (s : String) (ss : List String)
      → lower (trim_space (get resp.headers "Content-Encoding")) ≡ join "," (s ∷ ss)
      → All (λ x. no_comma x ≡ true) (s ∷ ss)
      → Outcome decoders (trim_space s) resp (decompress_response lower decoders resp)
  unfolding decompress_response
  decompress_response-Outcome resp s ss listed plain = elim (Bool-cases resp.uncompressed) [
    | inl done ↦ left_alone (inl done) (ground (arith, done))
    | inr raw ↦ elim (Option-cases resp.body) [
      | inl bare ↦ left_alone (inr bare) (ground (arith, raw, bare))
      | inr (body, has) ↦
          raw-Outcome resp body raw has (trim_space s)
            (encoding_of-join resp.headers s ss listed plain)
    ]
  ]

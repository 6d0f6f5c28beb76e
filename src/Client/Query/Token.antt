-- ===== src/Client/Query/Token.antt =====
-- client.go: the cache of tokens of `getVQD`.
use text.Mathlib.Text.{◌==◌ as str_eq}
use text.Mathlib.TextEquality.{eq_iff}
use goddgs.Prelude.{
  ℕ, ◌+◌, ◌<◌, String, ◌≡◌, refl, sym, inl, inr, false, none, some, List, [], ◌∷◌, arith,
  Bool-cases, Option-cases,
}
use goddgs.Failure.{is_nil}
use goddgs.Client.{TokenEntry, State, Settings, Io}
use goddgs.Client.Loop.{returned, got, do_with_retry}
use goddgs.Client.Parse.{Library, extract_vqd}
use goddgs.Client.Query.{
  lookup_token, store_token, cache_key, valid_token, build_vqd, keep_token, get_vqd,
}

-- The entry that was stored last under a key is the one that is found there.
lookup_token-store_token :
    (key : String) (e : TokenEntry) (cache : List (String × TokenEntry))
    → lookup_token key (store_token key e cache) ≡ some e
lookup_token-store_token key e [] = ground (arith, eq_iff key key)
lookup_token-store_token key e ((k, f) ∷ cache) =
    ground (arith, eq_iff k key, eq_iff key key, lookup_token-store_token key e cache)

module _ {W : Type 0} (io : Io W) (cfg : Settings) (lib : Library) where
  get_vqd-hit :
      (fuel : ℕ) (query vqd : String) (st : State W)
      → valid_token (io.now st.world).0 (lookup_token (cache_key query st.ua) st.vqd_cache)
        ≡ some vqd
      → get_vqd io cfg lib fuel query st
        ≡ (some (got vqd), record st { world = (io.now st.world).1 })
  unfolding get_vqd
  get_vqd-hit fuel query vqd st h = rw (h, get_vqd) refl

  -- What a token that was not in the cache leaves there.
  get_vqd-stored :
      (fuel : ℕ) (query vqd : String) (st : State W)
      → valid_token (io.now st.world).0 (lookup_token (cache_key query st.ua) st.vqd_cache) ≡ none
      → (get_vqd io cfg lib fuel query st).0 ≡ some (got vqd)
      → (cache : List (String × TokenEntry)) × (str_eq vqd "" ≡ false)
        × ((get_vqd io cfg lib fuel query st).1.vqd_cache
            ≡ store_token
                (cache_key query st.ua)
                (record { value = vqd; expires_at = (io.now st.world).0 + cfg.vqd_ttl })
                cache)
  unfolding get_vqd keep_token
  get_vqd-stored fuel query vqd st missing h =
      let (now, w1) = io.now st.world in
      let st1 : State W = record st { world = w1 } in
      let (out, st2) = do_with_retry io cfg (build_vqd io cfg lib query) fuel st1 in
      elim (Option-cases out) [
        | inl dry ↦ cc (rw (missing, dry, get_vqd) at h)
        | inr (answer, e) ↦ elim (Bool-cases (is_nil (returned answer).1)) [
          | inr bad ↦ cc (rw (missing, e, bad, get_vqd) at h)
          | inl ok ↦ elim (Bool-cases (str_eq (extract_vqd lib (returned answer).0) "")) [
            | inl absent ↦ cc (rw (missing, e, ok, absent, get_vqd, keep_token) at h)
            | inr present ↦
                let same : extract_vqd lib (returned answer).0 ≡ vqd =
                  cc (rw (missing, e, ok, present, get_vqd, keep_token) at h) in
                (
                  st2.vqd_cache,
                  rw (sym same) present,
                  rw (missing, e, ok, present, same, get_vqd, keep_token) refl,
                )
          ]
        ]
      ]

  -- A token that `getVQD` had to fetch is in the cache afterwards: until its time has passed, a call
  -- of `getVQD` for the same query and with the same user agent returns it, in whatever state the
  -- rest of the client is, sends no request and changes nothing.
  pub get_vqd-reused :
      (fuel again : ℕ) (query vqd : String) (st later : State W)
      → valid_token (io.now st.world).0 (lookup_token (cache_key query st.ua) st.vqd_cache) ≡ none
      → (get_vqd io cfg lib fuel query st).0 ≡ some (got vqd)
      → later.vqd_cache ≡ (get_vqd io cfg lib fuel query st).1.vqd_cache
      → later.ua ≡ st.ua
      → (io.now later.world).0 < (io.now st.world).0 + cfg.vqd_ttl
      → get_vqd io cfg lib again query later
        ≡ (some (got vqd), record later { world = (io.now later.world).1 })
  get_vqd-reused fuel again query vqd st later missing h kept same fresh =
      let (cache, present, stored) = get_vqd-stored fuel query vqd st missing h in
      let found =
        lookup_token-store_token (cache_key query st.ua)
          (record { value = vqd; expires_at = (io.now st.world).0 + cfg.vqd_ttl }) cache in
      get_vqd-hit again query vqd later
        (rw (kept, stored, same, found) (ground (arith, present, fresh)))

-- ===== src/Detect/Rules.antt =====
-- What a detection stands for, by the rules without their order.
use goddgs.Prelude.{
  ℕ, String, ◌≡◌, refl, ◌⊎◌, inl, inr, Bool, true, false, ◌&&◌, ◌||◌, All, get_elem?, zero, suc,
  some, List, [], ◌∷◌, arith, ◌==◌, Bool-cases,
}
use goddgs.Prelude.Text.{contains}
use goddgs.Failure.{Header}
use goddgs.Net.{get}
use goddgs.Signal.{
  generic, cloudflare, akamai, data_dome, perimeter_x, BlockInfo, is_detected, is_signal,
}
use goddgs.Detect.{
  BodyPattern, body_patterns, found_by, has, detect_by_headers, first_match, detect_by_body,
  detect_block_signal,
}
use goddgs.Detect.Chain.{chain-some, chain-none, both, both-not, ray, ray-not}

module _ (lower : String → String) (status : ℕ) (h : Header) where
  -- A rule on the headers that holds.
  pub data HeaderRule : BlockInfo → Type 0 where
    cf_mitigated : has h "Cf-Mitigated" ≡ true → HeaderRule (found_by cloudflare "cf_mitigated")
    cf_ray :
        has h "Cf-Ray" ≡ true
        → (status ≡ 403) ⊎ (status ≡ 503)
        → HeaderRule (found_by cloudflare "cf_ray")
    akamai_server :
        contains (get h "Server") "AkamaiGHost" ≡ true
        → HeaderRule (found_by akamai "akamai_server")
    akamai_403 :
        has h "X-Check-Cacheable" ≡ true → status ≡ 403 → HeaderRule (found_by akamai "akamai_403")
    datadome_header :
        contains (lower (get h "X-Datadome")) "blocked" ≡ true
        → HeaderRule (found_by data_dome "datadome_header")
    px_header : has h "X-Px-Client-Uuid" ≡ true → HeaderRule (found_by perimeter_x "px_header")
    http_429 : status ≡ 429 → HeaderRule (found_by generic "http_429")

  headers-HeaderRule :
      is_detected (detect_by_headers lower status h) ≡ true
      → HeaderRule (detect_by_headers lower status h)
  unfolding detect_by_headers
  headers-HeaderRule =
      chain-some HeaderRule (has h "Cf-Mitigated")
        (has h "Cf-Ray" && (status == 403 || status == 503))
        (contains (get h "Server") "AkamaiGHost") (has h "X-Check-Cacheable" && status == 403)
        (contains (lower (get h "X-Datadome")) "blocked") (has h "X-Px-Client-Uuid") (status == 429)
        cf_mitigated (λ e. let (a, b) = ray _ status e in cf_ray a b) akamai_server
        (λ e. let (a, b) = both _ status e in akamai_403 a b) datadome_header px_header
        (λ e. http_429 (ground arith))

  headers-none :
      is_detected (detect_by_headers lower status h) ≡ false
      → (info : BlockInfo) → ¬ HeaderRule info
  unfolding detect_by_headers
  headers-none d info rule = refute info rule
    where
      quiet :
          (has h "Cf-Mitigated" ≡ false)
          × ((has h "Cf-Ray" && (status == 403 || status == 503)) ≡ false)
          × (contains (get h "Server") "AkamaiGHost" ≡ false)
          × ((has h "X-Check-Cacheable" && status == 403) ≡ false)
          × (contains (lower (get h "X-Datadome")) "blocked" ≡ false)
          × (has h "X-Px-Client-Uuid" ≡ false)
          × ((status == 429) ≡ false)
      quiet =
          chain-none (has h "Cf-Mitigated") (has h "Cf-Ray" && (status == 403 || status == 503))
            (contains (get h "Server") "AkamaiGHost") (has h "X-Check-Cacheable" && status == 403)
            (contains (lower (get h "X-Datadome")) "blocked") (has h "X-Px-Client-Uuid")
            (status == 429) d

      refute : (info : BlockInfo) → ¬ HeaderRule info
      refute info (cf_mitigated t) = cc quiet.0
      refute info (cf_ray t u) = ray-not (has h "Cf-Ray") status t u quiet.1
      refute info (akamai_server t) = cc quiet.2
      refute info (akamai_403 t u) = both-not (has h "X-Check-Cacheable") status t u quiet.3
      refute info (datadome_header t) = cc quiet.4
      refute info (px_header t) = cc quiet.5
      refute info (http_429 t) = ground (arith, quiet)

module _ (matches : String → String → Bool) (body : String) where
  -- A row of the table whose pattern the body matches.
  pub record BodyRule (ps : List BodyPattern) (info : BlockInfo) : Type 0 where
    pub at : ℕ
    pub pattern : BodyPattern
    pub listed : get_elem? ps at ≡ some pattern
    pub matched : matches pattern.re body ≡ true
    pub shown : info ≡ found_by pattern.signal pattern.key

  later :
      {q : BodyPattern} {ps : List BodyPattern} {info : BlockInfo}
      → BodyRule ps info
      → BodyRule (q ∷ ps) info
  later r = record {
    at = suc r.at;
    pattern = r.pattern;
    listed = r.listed;
    matched = r.matched;
    shown = r.shown;
  }

  first_match-BodyRule :
      (ps : List BodyPattern)
      → is_detected (first_match matches body ps) ≡ true
      → BodyRule ps (first_match matches body ps)
  unfolding first_match
  first_match-BodyRule [] d = unfold is_detected in cc d
  first_match-BodyRule (p ∷ ps) d = elim (Bool-cases (matches p.re body)) [
    | inl hit ↦ rw hit (record { at = 0; pattern = p; listed = refl; matched = hit; shown = refl })
    | inr miss ↦ rw miss (later (first_match-BodyRule ps (rw miss at d)))
  ]

  head-miss :
      (p : BodyPattern) (ps : List BodyPattern)
      → is_signal p.signal ≡ true
      → is_detected (first_match matches body (p ∷ ps)) ≡ false
      → (matches p.re body ≡ false) × (is_detected (first_match matches body ps) ≡ false)
  unfolding first_match
  head-miss p ps s d = elim (Bool-cases (matches p.re body)) [
    | inl hit ↦ unfold is_detected in cc (s, rw hit at d)
    | inr miss ↦ (miss, rw miss at d)
  ]

  first_match-none :
      (ps : List BodyPattern) (at : ℕ) (q : BodyPattern)
      → All (λ (p : BodyPattern). is_signal p.signal ≡ true) ps
      → is_detected (first_match matches body ps) ≡ false
      → get_elem? ps at ≡ some q
      → matches q.re body ≡ false
  first_match-none [] at q s d h = cc h
  first_match-none (p ∷ ps) zero q (s, ss) d h = cc (h, (head-miss p ps s d).0)
  first_match-none (p ∷ ps) (suc at) q (s, ss) d h =
      first_match-none ps at q ss (head-miss p ps s d).1 h

module _ (lower : String → String) (matches : String → String → Bool) (status : ℕ) (h : Header)
    (body : String) where
  -- A detection names a rule on the headers that holds, or a row of the table that the body matches.
  pub detect_block_signal-rule :
      is_detected (detect_block_signal lower matches status h body) ≡ true
      → HeaderRule lower status h (detect_block_signal lower matches status h body)
        ⊎ BodyRule matches body body_patterns (detect_block_signal lower matches status h body)
  unfolding detect_block_signal detect_by_body
  detect_block_signal-rule d = elim (Bool-cases (is_detected (detect_by_headers lower status h))) [
    | inl by_header ↦ rw by_header (inl (headers-HeaderRule lower status h by_header))
    | inr quiet ↦ rw quiet (inr (first_match-BodyRule matches body body_patterns (rw quiet at d)))
  ]

  -- Where nothing is detected, no rule on the headers holds and the body matches no row of the table.
  pub detect_block_signal-none :
      is_detected (detect_block_signal lower matches status h body) ≡ false
      → (info : BlockInfo)
      → (¬ HeaderRule lower status h info) × (¬ BodyRule matches body body_patterns info)
  unfolding detect_block_signal detect_by_body
  detect_block_signal-none d info =
      elim (Bool-cases (is_detected (detect_by_headers lower status h))) [
        | inl by_header ↦ cc (rw by_header at d)
        | inr quiet ↦ (
          headers-none lower status h quiet info,
          λ r. cc (
            r.matched,
            first_match-none matches body body_patterns r.at r.pattern (ground arith)
                (rw quiet at d) r.listed,
          ),
        )
      ]

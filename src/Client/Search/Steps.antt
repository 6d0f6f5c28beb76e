-- ===== src/Client/Search/Steps.antt =====
-- What `Search` and `SearchPages` do to the anti-bot state, as steps.
use text.Mathlib.Text.{◌==◌ as str_eq}
use goddgs.Prelude.{
  ℕ, zero, suc, ◌+◌, ◌*◌, String, ◌≡◌, sym, ap, ◌∙◌, ◌⊎◌, inl, inr, Bool, true, false, ◌&&◌, some,
  List, [], ◌++◌, arith, ltb, length, Bool-cases, Option-cases,
}
use goddgs.Prelude.Int.{ℤ, pos, ◌+ℤ◌, positive_or}
use goddgs.Prelude.Text.{trim_space}
use goddgs.Failure.{GoError, is_nil}
use goddgs.Api.{SearchOptions, SearchResult}
use goddgs.Session.{SessionManager, needs_warmup, mark_warmed, warm_up}
use goddgs.Client.{AntiBotState, State, Settings, Io}
use goddgs.Client.Retry.Changes.{warmed, here, once, Reach, Reach-trans, Reach-eq, Moves}
use goddgs.Client.Loop.{do_with_retry}
use goddgs.Client.Loop.Steps.{do_with_retry-Moves}
use goddgs.Client.Parse.{Library}
use goddgs.Client.Query.{
  fixed_request, build_vqd, get_vqd, build_djs, build_html, cache_key, lookup_token, valid_token,
}
use goddgs.Client.Search.{
  ensure_warm, warmup_get, search_djs, search_html, search_both, with_region, client_search,
  pages_from, search_pages,
}

-- A warm-up marks its session or leaves it.
warm_up-session :
    {W : Type 0} (now : W → ℕ × W) (visit : Bool → W → GoError × W) (s : SessionManager) (w : W)
    → ((at : ℕ) × ((warm_up now visit s w).0.1 ≡ mark_warmed at s))
      ⊎ ((warm_up now visit s w).0.1 ≡ s)
unfolding warm_up
warm_up-session now visit s w =
    let (tested, w1) = now w in
    let (err, w2) = visit true w1 in
    elim (Bool-cases (needs_warmup tested s)) [
      | inr warm ↦ inr (ground arith)
      | inl cold ↦ elim (Bool-cases (is_nil err)) [
        | inl ok ↦ inl ((now (visit false w2).1).0, ground arith)
        | inr bad ↦ inr (ground arith)
      ]
    ]

module _ {scale : ℕ → ℕ → ℤ} (a : AntiBotState) (s s' : SessionManager)
    (has : a.session ≡ some s) where
  session-Reach :
      ((at : ℕ) × (s' ≡ mark_warmed at s)) ⊎ (s' ≡ s)
      → Reach scale (some a) (some (record a { session = some s' }))
  session-Reach (inl (at, e)) = rw e (once (warmed s at has))
  session-Reach (inr e) = Reach-eq (ap (λ o. some (record a { session = o })) (ap some e ∙ sym has))

module _ {W : Type 0} (io : Io W) (cfg : Settings) (lib : Library) where
  get_vqd-Moves :
      (fuel : ℕ) (query : String) (st : State W)
      → Moves io.scale st (get_vqd io cfg lib fuel query st).1
  unfolding get_vqd
  get_vqd-Moves fuel query st =
      let (now, w1) = io.now st.world in
      let st1 = record st { world = w1 } in
      let looped = do_with_retry io cfg (build_vqd io cfg lib query) fuel st1 in
      elim (Option-cases (valid_token now (lookup_token (cache_key query st.ua) st.vqd_cache))) [
        | inr (vqd, e) ↦ rw (e, get_vqd) here
        | inl missing ↦
            let same : (get_vqd io cfg lib fuel query st).1.anti_bot ≡ looped.1.anti_bot =
              ground arith in
            rw same (
              do_with_retry-Moves io cfg (build_vqd io cfg lib query)
                (λ st'. unfold build_vqd fixed_request in here) fuel st1)
      ]

  build_djs-Moves :
      (fuel : ℕ) (query : String) (opts : SearchOptions) (st : State W)
      → Moves io.scale st (build_djs io cfg lib fuel query opts st).1
  unfolding build_djs
  build_djs-Moves fuel query opts st =
      let same : (build_djs io cfg lib fuel query opts st).1.anti_bot
          ≡ (get_vqd io cfg lib fuel query st).1.anti_bot =
        unfold fixed_request in ground arith in
      rw same (get_vqd-Moves fuel query st)

  search_djs-Moves :
      (fuel : ℕ) (query : String) (opts : SearchOptions) (st : State W)
      → Moves io.scale st (search_djs io cfg lib fuel query opts st).1
  unfolding search_djs
  search_djs-Moves fuel query opts st =
      do_with_retry-Moves io cfg (build_djs io cfg lib fuel query opts)
        (build_djs-Moves fuel query opts) fuel st

  search_html-Moves :
      (fuel : ℕ) (query : String) (opts : SearchOptions) (st : State W)
      → Moves io.scale st (search_html io cfg lib fuel query opts st).1
  unfolding search_html
  search_html-Moves fuel query opts st =
      do_with_retry-Moves io cfg (build_html io cfg lib query opts)
        (λ st'. unfold build_html fixed_request in here) fuel st

  ensure_warm-Moves : (st : State W) → Moves io.scale st (ensure_warm io cfg lib st)
  unfolding ensure_warm
  ensure_warm-Moves st = elim (Option-cases st.anti_bot) [
    | inl nothing ↦ Reach-eq (ground arith)
    | inr (a, e) ↦ elim (Option-cases a.session) [
      | inl none_kept ↦ Reach-eq (ground arith)
      | inr (s, has) ↦
          let (now, w1) = io.now st.world in
          let out = warm_up io.now (warmup_get io cfg lib st.ua) s w1 in
          elim (Bool-cases (needs_warmup now s)) [
            | inr warm ↦ Reach-eq (ground arith)
            | inl cold ↦
                let same : (ensure_warm io cfg lib st).anti_bot
                    ≡ some (record a { session = some out.0.1 }) =
                  ground arith in
                rw same (
                  Reach-trans (Reach-eq (sym e)) (
                    session-Reach a s out.0.1 has
                      (warm_up-session io.now (warmup_get io cfg lib st.ua) s w1)))
          ]
    ]
  ]

  search_both-Moves :
      (fuel : ℕ) (query : String) (opts : SearchOptions) (max : ℕ) (st : State W)
      → Moves io.scale st (search_both io cfg lib fuel query opts max st).1
  unfolding search_both
  search_both-Moves fuel query opts max st =
      let (first, st1) = search_djs io cfg lib fuel query opts st in
      let to1 = search_djs-Moves fuel query opts st in
      let to2 = Reach-trans to1 (search_html-Moves fuel query opts st1) in
      elim (Option-cases first) [
        | inl nothing ↦ rw (nothing, search_both) to1
        | inr ((rs, err), e) ↦ elim (Bool-cases (is_nil err && ltb 0 (length rs))) [
          | inl good ↦ rw (e, good, search_both) to1
          | inr bad ↦ elim (Bool-cases cfg.no_fallback) [
            | inl alone ↦
                let same : (search_both io cfg lib fuel query opts max st).1.anti_bot
                    ≡ st1.anti_bot =
                  ground (arith, e, bad, alone) in
                rw same to1
            | inr both ↦
                let same : (search_both io cfg lib fuel query opts max st).1.anti_bot
                    ≡ (search_html io cfg lib fuel query opts st1).1.anti_bot =
                  ground (arith, e, bad, both) in
                rw same to2
          ]
        ]
      ]

  -- Whatever the world does, `Search` changes the anti-bot state only by calls of the methods of its
  -- parts.
  pub client_search-Moves :
      (fuel : ℕ) (query : String) (opts : SearchOptions) (st : State W)
      → Moves io.scale st (client_search io cfg lib fuel query opts st).1
  unfolding client_search
  client_search-Moves fuel query opts st = elim (Bool-cases (str_eq (trim_space query) "")) [
    | inl blank ↦ rw (blank, client_search) here
    | inr asked ↦
        rw (asked, client_search)
          (Reach-trans (ensure_warm-Moves st) (
            search_both-Moves fuel (trim_space query) (with_region opts)
              (positive_or opts.max_results 10) (ensure_warm io cfg lib st)))
  ]

  pages_from-Moves :
      (left fuel i : ℕ) (query : String) (per_page : ℕ) (opts : SearchOptions)
      (all : List SearchResult) (st : State W)
      → Moves io.scale st (pages_from io cfg lib left fuel i query per_page opts all st).1
  unfolding pages_from
  pages_from-Moves zero fuel i query per_page opts all st = here
  pages_from-Moves (suc left) fuel i query per_page opts all st =
      let curr = record opts { max_results = pos per_page; offset = opts.offset +ℤ pos (i * 30) } in
      let (page, st1) = client_search io cfg lib fuel query curr st in
      let to1 = client_search-Moves fuel query curr st in
      elim (Option-cases page) [
        | inl nothing ↦ rw (nothing, pages_from) to1
        | inr ((rs, err), e) ↦ elim (Bool-cases (is_nil err)) [
          | inr bad ↦ rw (e, bad, pages_from) to1
          | inl ok ↦ elim (Bool-cases (ltb (length rs) per_page)) [
            | inl short ↦ rw (e, ok, short, pages_from) to1
            | inr full ↦
                rw (e, ok, full, pages_from)
                  (Reach-trans to1
                    (pages_from-Moves left fuel (i + 1) query per_page opts (all ++ rs) st1))
          ]
        ]
      ]

  -- Whatever the world does, `SearchPages` changes the anti-bot state only by calls of the methods of
  -- its parts.
  pub search_pages-Moves :
      (fuel : ℕ) (query : String) (per_page pages : ℤ) (opts : SearchOptions) (st : State W)
      → Moves io.scale st (search_pages io cfg lib fuel query per_page pages opts st).1
  unfolding search_pages
  search_pages-Moves fuel query per_page pages opts st =
      pages_from-Moves (positive_or pages 1) fuel 0 query (positive_or per_page 30) opts [] st

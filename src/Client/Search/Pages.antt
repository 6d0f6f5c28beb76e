-- ===== src/Client/Search/Pages.antt =====
-- client.go: what `SearchPages` collects.
use goddgs.Prelude.{
  ℕ, zero, suc, ◌+◌, ◌*◌, ◌≤◌, ◌<◌, String, ◌≡◌, refl, inl, inr, false, some, List, [], ◌++◌,
  length, length-++, All, All-++, arith, ltb, if◌then◌else◌, subst, Bool-cases, Option-cases,
}
use goddgs.Prelude.Int.{ℤ, pos, ◌+ℤ◌, positive_or, positive_or-pos, positive_or-of_pos}
use goddgs.Failure.{GoError, nil, is_nil, is, err_no_results}
use goddgs.Api.{SearchResult, SearchOptions}
use goddgs.Backend.{Found}
use goddgs.Backend.Results.{HasAddress}
use goddgs.Client.{State, Settings, Io}
use goddgs.Client.Parse.{Library}
use goddgs.Client.Search.{client_search, pages_from, search_pages}
use goddgs.Client.Search.Served.{Served, client_search-Served}

-- At most `room` results, each with an address, and never the error that says that there were none.
pub record Collected (room : ℕ) (out : Found) : Type 0 where
  pub few : length out.0 ≤ room
  pub addresses : All HasAddress out.0
  pub not_empty_error : is err_no_results out.1 ≡ false

stopped-Collected :
    (room : ℕ) (all : List SearchResult) (err : GoError)
    → length all ≤ room
    → All HasAddress all
    → Collected room (if is err_no_results err then (all, nil) else (all, err))
unfolding is
stopped-Collected room all err few h = elim (Bool-cases (is err_no_results err)) [
  | inl none_left ↦ rw none_left (record { few = few; addresses = h; not_empty_error = refl })
  | inr other ↦ rw other (record { few = few; addresses = h; not_empty_error = other })
]

carried :
    (room : ℕ) (given out : Found)
    → some given ≡ some out
    → Collected room given
    → Collected room out
carried room given out h ok = subst (Collected room) (cc h) ok

module _ {W : Type 0} (io : Io W) (cfg : Settings) (lib : Library) where
  pages_from-Collected :
      (left fuel i : ℕ) (query : String) (per_page : ℕ) (opts : SearchOptions)
      (all : List SearchResult) (st : State W) (out : Found)
      → 0 < per_page
      → All HasAddress all
      → (pages_from io cfg lib left fuel i query per_page opts all st).0 ≡ some out
      → Collected (length all + left * per_page) out
  unfolding pages_from is
  pages_from-Collected zero fuel i query per_page opts all st out room h e =
      carried _ (all, nil) out e
        (record { few = omega arith; addresses = h; not_empty_error = refl })
  pages_from-Collected (suc left) fuel i query per_page opts all st out room h e =
      let curr : SearchOptions = record opts {
        max_results = pos per_page;
        offset = opts.offset +ℤ pos (i * 30);
      } in
      elim (Option-cases (client_search io cfg lib fuel query curr st).0) [
        | inl dry ↦ cc (rw (dry, pages_from) at e)
        | inr ((rs, err), page) ↦
            let ok : Served per_page (rs, err) =
              subst (λ n. Served n (rs, err)) (positive_or-of_pos per_page 10 room)
                (client_search-Served io cfg lib fuel query curr st (rs, err) page) in
            let both = All-++ HasAddress all rs h ok.addresses in
            elim (Bool-cases (is_nil err)) [
              | inr bad ↦
                  carried _ _ out (rw (page, bad, pages_from) at e)
                    (stopped-Collected _ all err (omega arith) h)
              | inl good ↦ elim (Bool-cases (ltb (length rs) per_page)) [
                | inl short ↦
                    carried _ (all ++ rs, nil) out (rw (page, good, short, pages_from) at e)
                      (record {
                        few = omega (arith, ok.few, length-++ all rs);
                        addresses = both;
                        not_empty_error = refl;
                      })
                | inr full ↦
                    let rest =
                      pages_from-Collected left fuel (i + 1) query per_page opts (all ++ rs) _ out
                        room both (rw (page, good, full, pages_from) at e) in
                    record {
                      few = omega (arith, ok.few, rest.few, length-++ all rs);
                      addresses = rest.addresses;
                      not_empty_error = rest.not_empty_error;
                    }
              ]
            ]
      ]

  -- Whatever the world does, `SearchPages` returns at most as many results as the pages that were
  -- asked for hold (1 page and 30 results where the numbers are not positive), each with an address,
  -- and never the error that says that there were none; it may return results with another error.
  pub search_pages-Collected :
      (fuel : ℕ) (query : String) (per_page pages : ℤ) (opts : SearchOptions) (st : State W)
      (out : Found)
      → (search_pages io cfg lib fuel query per_page pages opts st).0 ≡ some out
      → Collected (positive_or pages 1 * positive_or per_page 30) out
  unfolding search_pages
  search_pages-Collected fuel query per_page pages opts st out e =
      let ok =
        pages_from-Collected (positive_or pages 1) fuel 0 query (positive_or per_page 30) opts [] st
          out (positive_or-pos per_page 30 (omega arith)) tt e in
      record {
        few = omega (arith, ok.few);
        addresses = ok.addresses;
        not_empty_error = ok.not_empty_error;
      }

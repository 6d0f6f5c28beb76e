-- ===== src/Client/Search/Ways.antt =====
-- client.go: what each of the two ways of searching finds.
use text.Mathlib.TextEquality.{eq_iff}
use goddgs.Prelude.{
  ◌⊎◌, String, ◌≡◌, ◌≢◌, refl, ap, inl, inr, false, List, [], ◌∷◌, All, arith, Bool-cases,
  Option-cases,
}
use goddgs.Failure.{GoError, nil, is_nil}
use goddgs.Api.{SearchResult}
use goddgs.Backend.{Found}
use goddgs.Backend.Results.{HasAddress, collect-HasAddress}
use goddgs.Client.Loop.{Outcome, returned}
use goddgs.Client.Parse.{Library, payload_of, keep_titled, cleaned, parse_djs, parse_html}
use goddgs.Client.Search.{or_none_found, read_djs, read_html}

-- Some results or an error, never both.
abbrev pub OneOf : Found → Type 0
OneOf out = ((out.1 ≡ nil) × (out.0 ≢ [])) ⊎ ((out.1 ≢ nil) × (out.0 ≡ []))

-- One of the two, and each result has an address.
pub record Usable (out : Found) : Type 0 where
  pub outcome : OneOf out
  pub addresses : All HasAddress out.0

or_none_found-Usable : (rs : List SearchResult) → All HasAddress rs → Usable (or_none_found rs)
unfolding or_none_found
or_none_found-Usable [] h = record { outcome = inr (λ e. cc, refl); addresses = tt }
or_none_found-Usable (r ∷ rs) h = record { outcome = inl (refl, λ e. cc); addresses = h }

pub failed-Usable : (err : GoError) → is_nil err ≡ false → Usable ([], err)
failed-Usable err bad = record { outcome = inr (λ e. cc (ap is_nil e), refl); addresses = tt }

keep_titled-HasAddress : (ms : List (String × String)) → All HasAddress (keep_titled ms)
unfolding keep_titled
keep_titled-HasAddress [] = tt
keep_titled-HasAddress ((href, title) ∷ ms) =
    ground (arith, eq_iff href "", eq_iff title "", keep_titled-HasAddress ms)

module _ (lib : Library) where
  parse_djs-HasAddress : (body : String) → All HasAddress (parse_djs lib body).0
  unfolding parse_djs
  parse_djs-HasAddress body = elim (Option-cases (payload_of body)) [
    | inl odd ↦ rw (odd, parse_djs) tt
    | inr (payload, e) ↦ elim (Bool-cases (is_nil (lib.unmarshal payload).1)) [
      | inl parsed ↦ rw (e, parsed, parse_djs) (collect-HasAddress _)
      | inr broken ↦ rw (e, broken, parse_djs) tt
    ]
  ]

  pub read_djs-Usable : (out : Outcome) → Usable (read_djs lib out)
  unfolding read_djs
  read_djs-Usable out = elim (Bool-cases (is_nil (returned out).1)) [
    | inr failed ↦ rw (failed, read_djs) (failed-Usable _ failed)
    | inl ok ↦ elim (Bool-cases (is_nil (parse_djs lib (returned out).0).1)) [
      | inl parsed ↦ rw (ok, parsed, read_djs) (or_none_found-Usable _ (parse_djs-HasAddress _))
      | inr broken ↦ rw (ok, broken, read_djs) (failed-Usable _ broken)
    ]
  ]

  parse_html-HasAddress : (body : String) → All HasAddress (parse_html lib body)
  unfolding parse_html
  parse_html-HasAddress body = keep_titled-HasAddress (cleaned lib (lib.find_results body))

  pub read_html-Usable : (out : Outcome) → Usable (read_html lib out)
  unfolding read_html
  read_html-Usable out = elim (Bool-cases (is_nil (returned out).1)) [
    | inr failed ↦ rw (failed, read_html) (failed-Usable _ failed)
    | inl ok ↦ rw (ok, read_html) (or_none_found-Usable _ (parse_html-HasAddress _))
  ]

-- ===== src/Client/Search/Served.antt =====
-- client.go: what `Search` serves.
use text.Mathlib.Text.{◌==◌ as str_eq}
use goddgs.Prelude.{
  ℕ, ◌≤◌, ◌<◌, String, ◌≡◌, ◌≢◌, refl, sym, ◌∙◌, inl, inr, true, false, ◌&&◌, Option, none, some,
  [], length, take, take-ne-[], All, All-take, length-take, arith, ltb, Bool-cases, Option-cases,
  subst,
}
use goddgs.Prelude.Int.{positive_or, positive_or-pos}
use goddgs.Prelude.Text.{trim_space}
use goddgs.Failure.{GoError, nil, is_nil, is_nil-nil, sentinel, err_no_results}
use goddgs.Api.{SearchOptions}
use goddgs.Backend.{Found}
use goddgs.Backend.Results.{HasAddress}
use goddgs.Client.{State, Settings, Io}
use goddgs.Client.Parse.{Library}
use goddgs.Client.Search.Ways.{OneOf, Usable, failed-Usable, read_djs-Usable, read_html-Usable}
use goddgs.Client.Search.{
  read_djs, read_html, map_result, from_html, without_fallback, search_djs, search_html,
  search_both, client_search, with_region, ensure_warm,
}

-- What `Search` promises of its answer, for a limit of `max` results.
pub record Served (max : ℕ) (out : Found) : Type 0 where
  pub outcome : OneOf out
  pub addresses : All HasAddress out.0
  pub few : length out.0 ≤ max

pub refused-Served : (max : ℕ) (err : GoError) → is_nil err ≡ false → Served max ([], err)
refused-Served max err bad = record {
  outcome = (failed-Usable err bad).outcome;
  addresses = tt;
  few = omega arith;
}

some_result : (out : Found) → Usable out → is_nil out.1 ≡ true → out.0 ≢ []
some_result out ok good = elim ok.outcome [
  | inl (quiet, some_one) ↦ some_one
  | inr (loud, nothing) ↦ absurd (loud (is_nil-nil out.1 good))
]

take-Served :
    (max : ℕ) (out : Found)
    → 0 < max
    → Usable out
    → is_nil out.1 ≡ true
    → Served max (take max out.0, nil)
take-Served max out some_room ok good = record {
  outcome = inl (refl, take-ne-[] max out.0 some_room (some_result out ok good));
  addresses = All-take HasAddress max out.0 ok.addresses;
  few = length-take max out.0;
}

from_html-Served :
    (max : ℕ) (err : GoError) (out : Found)
    → 0 < max
    → Usable out
    → Served max (from_html max err out)
unfolding from_html
from_html-Served max err (rs, fb_err) room ok = elim (Bool-cases (is_nil fb_err)) [
  | inl good ↦ rw (good, from_html) (take-Served max (rs, fb_err) room ok good)
  | inr bad ↦ elim (Bool-cases (is_nil err)) [
    | inl quiet ↦ rw (bad, quiet, from_html) (refused-Served max fb_err bad)
    | inr loud ↦ rw (bad, loud, from_html) (refused-Served max _ refl)
  ]
]

without_fallback-Served : (max : ℕ) (err : GoError) → Served max (without_fallback err)
without_fallback-Served max err = elim (Bool-cases (is_nil err)) [
  | inl quiet ↦ rw quiet (refused-Served max (sentinel err_no_results) refl)
  | inr loud ↦ rw loud (refused-Served max err loud)
]

carried : (max : ℕ) (given out : Found) → some given ≡ some out → Served max given → Served max out
carried max given out h ok = subst (Served max) (cc h) ok

map_result-some :
    {A B : Type 0} (f : A → B) (out : Option A) (b : B)
    → map_result f out ≡ some b
    → (a : A) × (out ≡ some a) × (f a ≡ b)
map_result-some f none b h = cc
map_result-some f (some a) b h = (a, refl, cc h)

module _ {W : Type 0} (io : Io W) (cfg : Settings) (lib : Library) where
  search_djs-Usable :
      (fuel : ℕ) (query : String) (opts : SearchOptions) (st : State W) (out : Found)
      → (search_djs io cfg lib fuel query opts st).0 ≡ some out
      → Usable out
  unfolding search_djs
  search_djs-Usable fuel query opts st out h =
      let (answer, _, e) = map_result-some (read_djs lib) _ out h in
      subst Usable e (read_djs-Usable lib answer)

  search_html-Usable :
      (fuel : ℕ) (query : String) (opts : SearchOptions) (st : State W) (out : Found)
      → (search_html io cfg lib fuel query opts st).0 ≡ some out
      → Usable out
  unfolding search_html
  search_html-Usable fuel query opts st out h =
      let (answer, _, e) = map_result-some (read_html lib) _ out h in
      subst Usable e (read_html-Usable lib answer)

  search_both-html :
      (fuel : ℕ) (query : String) (opts : SearchOptions) (max : ℕ) (st : State W) (first : Found)
      → (search_djs io cfg lib fuel query opts st).0 ≡ some first
      → is_nil first.1 && ltb 0 (length first.0) ≡ false
      → cfg.no_fallback ≡ false
      → (search_both io cfg lib fuel query opts max st).0
        ≡ map_result
            (from_html max first.1)
            (search_html io cfg lib fuel query opts (search_djs io cfg lib fuel query opts st).1).0
  unfolding search_both
  search_both-html fuel query opts max st first e bad both = ground (arith, e, bad, both)

  search_both-Served :
      (fuel : ℕ) (query : String) (opts : SearchOptions) (max : ℕ) (st : State W) (out : Found)
      → 0 < max
      → (search_both io cfg lib fuel query opts max st).0 ≡ some out
      → Served max out
  unfolding search_both
  search_both-Served fuel query opts max st out room h =
      elim (Option-cases (search_djs io cfg lib fuel query opts st).0) [
        | inl dry ↦ cc (rw (dry, search_both) at h)
        | inr (first, e) ↦ elim (Bool-cases (is_nil first.1 && ltb 0 (length first.0))) [
          | inl good ↦ carried max _ out (rw (e, good, search_both) at h) (
              take-Served max first room (search_djs-Usable fuel query opts st first e)
                (ground (arith, good)))
          | inr bad ↦ elim (Bool-cases cfg.no_fallback) [
            | inl alone ↦
                carried max _ out (rw (e, bad, alone, search_both) at h)
                  (without_fallback-Served max first.1)
            | inr both ↦
                let (second, g, f) =
                  map_result-some (from_html max first.1)
                    (search_html io cfg lib fuel query opts
                      (search_djs io cfg lib fuel query opts st).1).0
                    out (sym (search_both-html fuel query opts max st first e bad both) ∙ h) in
                subst (Served max) f (
                  from_html-Served max first.1 second room
                    (search_html-Usable fuel query opts _ second g))
          ]
        ]
      ]

  -- Whatever the world does, an answer of `Search` without an error holds at least one result and at
  -- most as many as were asked for (10 where that is not positive), each with an address; an answer
  -- with an error holds none.
  pub client_search-Served :
      (fuel : ℕ) (query : String) (opts : SearchOptions) (st : State W) (out : Found)
      → (client_search io cfg lib fuel query opts st).0 ≡ some out
      → Served (positive_or opts.max_results 10) out
  unfolding client_search
  client_search-Served fuel query opts st out h = elim (Bool-cases (str_eq (trim_space query) "")) [
    | inl blank ↦ carried _ _ out (rw (blank, client_search) at h) (refused-Served _ _ refl)
    | inr asked ↦
        search_both-Served fuel (trim_space query) (with_region opts) _ (ensure_warm io cfg lib st)
          out (positive_or-pos opts.max_results 10 (omega arith)) (rw (asked, client_search) at h)
  ]

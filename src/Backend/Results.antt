-- ===== src/Backend/Results.antt =====
-- What the search services return.
use text.Mathlib.Text.{◌==◌ as str_eq}
use text.Mathlib.TextEquality.{eq_iff}
use goddgs.Prelude.{
  ◌≤◌, ◌<◌, String, ◌≡◌, refl, ap, ◌≢◌, inl, inr, Bool, true, false, List, [], ◌∷◌, arith, All,
  Bool-cases, leb, ◌==◌,
}
use goddgs.Prelude.Text.{trim_space}
use goddgs.Failure.{
  ErrorKind, rate_limited, provider_unavailable, parse, no_results, GoError, nil, search_error,
  is_nil, is_nil-nil, sentinel, err_no_results,
}
use goddgs.Api.{SearchResult}
use goddgs.Net.{HttpResponse}
use goddgs.Backend.{Found, RawItem, collect, or_no_results, interpret}

-- Every result has an address, trimmed and not blank.
abbrev pub HasAddress : SearchResult → Type 0
HasAddress r = r.url ≢ ""

pub collect-HasAddress : (items : List RawItem) → All HasAddress (collect items)
unfolding collect
collect-HasAddress [] = tt
collect-HasAddress (i ∷ is) = ground (arith, eq_iff (trim_space i.url) "", collect-HasAddress is)

-- What the items of a body become: an item whose address is blank is passed over, and of each other
-- one the three texts are kept, trimmed.
pub data Kept : List RawItem → List SearchResult → Type 0 where
  none_left : Kept [] []
  passed_over :
      (i : RawItem) (is : List RawItem) (rs : List SearchResult)
      → trim_space i.url ≡ ""
      → Kept is rs
      → Kept (i ∷ is) rs
  taken :
      (i : RawItem) (is : List RawItem) (r : SearchResult) (rs : List SearchResult)
      → r.url ≢ ""
      → r.url ≡ trim_space i.url
      → r.title ≡ trim_space i.title
      → r.snippet ≡ trim_space i.text
      → Kept is rs
      → Kept (i ∷ is) (r ∷ rs)

collect-Kept : (items : List RawItem) → Kept items (collect items)
unfolding collect
collect-Kept [] = none_left
collect-Kept (i ∷ is) = elim (Bool-cases (str_eq (trim_space i.url) "")) [
  | inl blank ↦
      rw (blank, collect)
        (passed_over i is _ (ground (arith, eq_iff (trim_space i.url) "")) (collect-Kept is))
  | inr full ↦
      rw (full, collect)
        (taken i is _ _ (ground (arith, eq_iff (trim_space i.url) "")) refl refl refl
          (collect-Kept is))
]

pub Kept-HasAddress :
    {items : List RawItem} (rs : List SearchResult) → Kept items rs → All HasAddress rs
Kept-HasAddress _ none_left = tt
Kept-HasAddress rs (passed_over _ _ _ _ more) = Kept-HasAddress rs more
Kept-HasAddress _ (taken _ _ _ rs full _ _ _ more) = (full, Kept-HasAddress rs more)

-- No result, and an error of a category in the provider's name.
abbrev Fails : String → ErrorKind → Bool → Found → Type 0
Fails name kind temporary out =
    (out.0 ≡ []) × ((cause : GoError) × (out.1 ≡ search_error kind name temporary cause []))

-- What a service's response comes to, by its status and its JSON.
pub data Outcome (name : String) (unmarshal : String → List RawItem × GoError) (resp : HttpResponse)
    (out : Found) : Type 0 where
  limited :
      resp.status_code ≡ 429 → Fails name rate_limited true out → Outcome name unmarshal resp out
  down :
      500 ≤ resp.status_code
      → Fails name provider_unavailable true out
      → Outcome name unmarshal resp out
  refused :
      400 ≤ resp.status_code
      → resp.status_code < 500
      → resp.status_code ≢ 429
      → Fails name provider_unavailable false out
      → Outcome name unmarshal resp out
  unread :
      resp.status_code < 400
      → (unmarshal resp.body).1 ≢ nil
      → out ≡ ([], search_error parse name true (unmarshal resp.body).1 [])
      → Outcome name unmarshal resp out
  nothing :
      resp.status_code < 400
      → (unmarshal resp.body).1 ≡ nil
      → Kept (unmarshal resp.body).0 []
      → out ≡ ([], search_error no_results name false (sentinel err_no_results) [])
      → Outcome name unmarshal resp out
  found :
      (r : SearchResult) (rs : List SearchResult)
      → resp.status_code < 400
      → (unmarshal resp.body).1 ≡ nil
      → Kept (unmarshal resp.body).0 (r ∷ rs)
      → out ≡ (r ∷ rs, nil)
      → Outcome name unmarshal resp out

module _ (name : String) (unmarshal : String → List RawItem × GoError) (resp : HttpResponse) where
  or_no_results-Outcome :
      (rs : List SearchResult)
      → resp.status_code < 400
      → (unmarshal resp.body).1 ≡ nil
      → Kept (unmarshal resp.body).0 rs
      → Outcome name unmarshal resp (or_no_results name rs)
  unfolding or_no_results
  or_no_results-Outcome [] low read kept = nothing low read kept refl
  or_no_results-Outcome (r ∷ rs) low read kept = found r rs low read kept refl

  -- Whatever status and body a service sends: a status of 429 gives an error that is rate limited, one
  -- from 500 on an unavailable provider for a time, and any other from 400 on an unavailable provider.
  -- Below 400 the JSON decides: one that does not parse gives a parse error with that cause; one that
  -- parses gives its items with an address, trimmed and in their order, or `ErrNoResults` where it has
  -- none. Every error is a `*SearchError` in the provider's name, and comes without a result.
  pub interpret-outcome : Outcome name unmarshal resp (interpret name unmarshal resp)
  unfolding interpret
  interpret-outcome = elim (Bool-cases (resp.status_code == 429)) [
    | inl hit ↦ rw (hit, interpret) (limited (ground arith) (refl, (_, refl)))
    | inr a ↦ elim (Bool-cases (leb 500 resp.status_code)) [
      | inl high ↦ rw (a, high, interpret) (down (ground arith) (refl, (_, refl)))
      | inr b ↦ elim (Bool-cases (leb 400 resp.status_code)) [
        | inl wrong ↦
            rw (a, b, wrong, interpret)
              (refused (ground arith) (ground arith) (ground arith) (refl, (_, refl)))
        | inr c ↦ elim (Bool-cases (is_nil (unmarshal resp.body).1)) [
          | inl parsed ↦
              rw (a, b, c, parsed, interpret)
                (or_no_results-Outcome _ (ground arith) (is_nil-nil _ parsed) (collect-Kept _))
          | inr broken ↦
              rw (a, b, c, broken, interpret) (unread (ground arith) (λ e. cc (ap is_nil e)) refl)
        ]
      ]
    ]
  ]

-- ===== src/Backend/Addresses.antt =====
-- What the providers of the search services hand on.
use goddgs.Prelude.{String, inl, inr, Bool, true, false, List, ◌∷◌, All, Bool-cases}
use goddgs.Failure.{GoError, is_nil}
use goddgs.Api.{SearchRequest}
use goddgs.Net.{Net, HttpResponse, HttpRequest, Reply, response, do_error}
use goddgs.Engine.{Provider}
use goddgs.Backend.{
  Found, RawItem, of_reply, sent, ask, brave_provider, serpapi_provider, tavily_provider,
}
use goddgs.Backend.Results.{
  HasAddress, Kept-HasAddress, Outcome, limited, down, refused, unread, nothing, found,
  interpret-outcome,
}

-- Every result that the provider hands on has an address.
abbrev pub IsHonest : {W : Type 0} → Provider W → Type 0
IsHonest {W} p = (req : SearchRequest) (w : W) → All HasAddress (p.search req w).0.0

module _ {W : Type 0} (net : Net W) (unmarshal : String → List RawItem × GoError) where
  Outcome-HasAddress :
      {name : String} {resp : HttpResponse} {out : Found}
      → Outcome name unmarshal resp out
      → All HasAddress out.0
  Outcome-HasAddress (limited _ (empty, _)) = rw empty tt
  Outcome-HasAddress (down _ (empty, _)) = rw empty tt
  Outcome-HasAddress (refused _ _ _ (empty, _)) = rw empty tt
  Outcome-HasAddress (unread _ _ e) = rw e tt
  Outcome-HasAddress (nothing _ _ _ e) = rw e tt
  Outcome-HasAddress (found r rs _ _ kept e) = rw e (Kept-HasAddress (r ∷ rs) kept)

  of_reply-addresses :
      (name : String) (reply : Reply) → All HasAddress (of_reply name unmarshal reply).0
  of_reply-addresses name (do_error err) = tt
  of_reply-addresses name (response resp read_err) =
      Outcome-HasAddress (interpret-outcome name unmarshal resp)

  sent-addresses :
      (name : String) (hreq : HttpRequest) (w : W)
      → All HasAddress (sent net unmarshal name hreq w).0.0
  unfolding sent
  sent-addresses name hreq w = elim (Bool-cases (is_nil (net.new_request hreq))) [
    | inl fine ↦ rw (fine, sent) (of_reply-addresses name (net.send hreq w).0)
    | inr broken ↦ rw (broken, sent) tt
  ]

  ask-addresses :
      (name : String) (enabled : Bool) (hreq : HttpRequest) (w : W)
      → All HasAddress (ask net unmarshal name enabled hreq w).0.0
  ask-addresses name true hreq w = sent-addresses name hreq w
  ask-addresses name false hreq w = tt

  -- Brave, SerpAPI and Tavily hand on results with an address only, whatever they are sent.
  pub services-IsHonest :
      (quote : String → String) (key : String)
      → IsHonest (brave_provider net unmarshal key)
        × IsHonest (serpapi_provider net unmarshal key)
        × IsHonest (tavily_provider net unmarshal quote key)
  unfolding brave_provider serpapi_provider tavily_provider
  services-IsHonest quote key = (
    λ req w. ask-addresses "brave" _ _ w,
    λ req w. ask-addresses "serpapi" _ _ w,
    λ req w. ask-addresses "tavily" _ _ w,
  )

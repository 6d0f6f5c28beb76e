-- ===== src/Browser/Transport/Requests.antt =====
-- transport.go: the headers of a request that `RoundTrip` sends.
use text.Mathlib.Text.{◌==◌ as str_eq}
use text.Mathlib.TextEquality.{eq_iff}
use goddgs.Prelude.{
  String, ◌≡◌, ◌≢◌, refl, ◌∙◌, inl, inr, false, ◌&&◌, Option, none, some, arith, if◌then◌else◌,
  Bool-cases,
}
use goddgs.Failure.{Header}
use goddgs.Net.{get, put, HttpRequest}
use goddgs.Browser.{default_user_agent}
use goddgs.Browser.Hints.{sec_ch_ua, ua_family}
use goddgs.Browser.Headers.{
  build_profile, chrome_profile, firefox_profile, safari_profile, apply_profile,
  sec_fetch_navigation, sec_fetch_script,
}
use goddgs.Browser.Headers.Profile.{first_value, last_value, get-put-either, get-apply_profile}
use goddgs.Browser.Transport.{
  UrlParts, is_chromium, priority_for, infer_sec_fetch, agent_of, prepare,
}

same_value : (ua : String) → (if str_eq ua "" then ua else ua) ≡ ua
same_value ua = ground arith

-- The user agent that a request is to name: the drawn one where there is one, else its own, and the
-- default where it has none.
pub data AgentOf (drawn : Option String) (req : HttpRequest) (ua : String) : Type 0 where
  from_pool : drawn ≡ some ua → AgentOf drawn req ua
  own : drawn ≡ none → get req.headers "User-Agent" ≡ ua → ua ≢ "" → AgentOf drawn req ua
  default :
      drawn ≡ none
      → get req.headers "User-Agent" ≡ ""
      → ua ≡ default_user_agent
      → AgentOf drawn req ua

agent_of-AgentOf :
    (drawn : Option String) (req : HttpRequest) → AgentOf drawn req (agent_of drawn req)
unfolding agent_of
agent_of-AgentOf (some ua) req = from_pool refl
agent_of-AgentOf none req = elim (Bool-cases (str_eq (get req.headers "User-Agent") "")) [
  | inl bare ↦
      rw (bare, agent_of)
        (default refl (ground (arith, eq_iff (get req.headers "User-Agent") "")) refl)
  | inr named ↦
      rw (named, agent_of)
        (own refl refl (ground (arith, eq_iff (get req.headers "User-Agent") "")))
]

module _ (url : UrlParts) where
  -- The headers that `inferSecFetch` does not set.
  infer_sec_fetch-agent :
      (req : HttpRequest) (old : String)
      → last_value "User-Agent" (infer_sec_fetch url req) old ≡ old
  unfolding infer_sec_fetch sec_fetch_navigation sec_fetch_script
  infer_sec_fetch-agent req old = ground arith

  infer_sec_fetch-hint :
      (req : HttpRequest) (old : String)
      → last_value "Sec-Ch-Ua" (infer_sec_fetch url req) old ≡ old
  unfolding infer_sec_fetch sec_fetch_navigation sec_fetch_script
  infer_sec_fetch-hint req old = ground arith

  -- The headers before the priority is set.
  abbrev profiled : String → HttpRequest → Header
  profiled ua req =
      apply_profile (put "User-Agent" ua req.headers) (build_profile ua) (infer_sec_fetch url req)

  get-prepare :
      (drawn : Option String) (req : HttpRequest) (key : String)
      → str_eq "Priority" key ≡ false
      → get (prepare url drawn req).headers key ≡ get (profiled (agent_of drawn req) req) key
  unfolding prepare
  get-prepare drawn req key other =
      let ua = agent_of drawn req in
      let hs = profiled ua req in
      elim (Bool-cases (is_chromium (build_profile ua).family && str_eq (get hs "Priority") "")) [
        | inr none_set ↦ rw (none_set, prepare) refl
        | inl set ↦
            rw (set, prepare)
              (get-put-either "Priority" (priority_for (get hs "Sec-Fetch-Dest")) key hs
                ∙ rw other refl)
      ]

  profile_agent : (ua : String) → first_value "User-Agent" (build_profile ua).headers ≡ ua
  unfolding build_profile chrome_profile firefox_profile safari_profile
  profile_agent ua = ground (arith, eq_iff ua "", eq_iff (sec_ch_ua ua) "")

  profile_hint :
      (ua : String)
      → first_value "Sec-Ch-Ua" (build_profile ua).headers
        ≡ (if is_chromium (ua_family ua) then sec_ch_ua ua else "")
  unfolding build_profile chrome_profile firefox_profile safari_profile
  profile_hint ua = ground (arith, eq_iff (sec_ch_ua ua) "")

  -- For a request that has no hint of its own, the request that `RoundTrip` sends names the user agent
  -- that was drawn, or the one of the request, or the default where neither is there; and its `Sec-CH-UA`
  -- is the hint of that same user agent, or missing where that is no Chromium browser.
  pub prepare-agent :
      (drawn : Option String) (req : HttpRequest)
      → get req.headers "Sec-Ch-Ua" ≡ ""
      → (ua : String) × AgentOf drawn req ua
        × (get (prepare url drawn req).headers "User-Agent" ≡ ua)
        × (get (prepare url drawn req).headers "Sec-Ch-Ua"
            ≡ (if is_chromium (ua_family ua) then sec_ch_ua ua else ""))
  prepare-agent drawn req bare =
      let ua = agent_of drawn req in
      let set = put "User-Agent" ua req.headers in
      (
        ua,
        agent_of-AgentOf drawn req,
        get-prepare drawn req "User-Agent" refl
            ∙ get-apply_profile "User-Agent" set (build_profile ua) (infer_sec_fetch url req)
            ∙ infer_sec_fetch-agent req _
            ∙ rw (get-put-either "User-Agent" ua "User-Agent" req.headers, profile_agent ua)
                (same_value ua),
        get-prepare drawn req "Sec-Ch-Ua" refl
            ∙ get-apply_profile "Sec-Ch-Ua" set (build_profile ua) (infer_sec_fetch url req)
            ∙ infer_sec_fetch-hint req _
            ∙ rw (get-put-either "User-Agent" ua "Sec-Ch-Ua" req.headers, bare) (profile_hint ua),
      )

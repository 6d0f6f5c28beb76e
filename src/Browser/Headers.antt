-- ===== src/Browser/Headers.antt =====
-- headers.go. A key of a header is in its canonical form, and a map is the list of its entries.
pub mod Profile
use text.Mathlib.Text.{◌==◌ as str_eq}
use goddgs.Prelude.{String, List, [], ◌∷◌, ◌++◌, if◌then◌else◌}
use goddgs.Net.{get, put, HttpRequest}
use goddgs.Failure.{Header}
use goddgs.Browser.{Family, chrome, edge, firefox, safari}
use goddgs.Browser.Hints.{ua_family, sec_ch_ua, sec_ch_ua_mobile, sec_ch_ua_platform}

abbrev pub Pairs : Type 0
Pairs = List (String × String)

-- `browserProfile`.
pub record BrowserProfile : Type 0 where
  pub family : Family
  pub headers : Pairs

abbrev hints : String → Pairs
hints ua =
    ("Sec-Ch-Ua", sec_ch_ua ua)
    ∷ ("Sec-Ch-Ua-Mobile", sec_ch_ua_mobile ua)
    ∷ ("Sec-Ch-Ua-Platform", sec_ch_ua_platform ua)
    ∷ []

-- `chromeProfile`.
unfoldable pub chrome_profile : String → BrowserProfile
chrome_profile ua = record {
  family = chrome;
  headers =
      ("User-Agent", ua)
      ∷ (
        "Accept",
        "text/html,application/xhtml+xml,application/xml;q=0.9,image/avif,image/webp,image/apng,*/*;q=0.8,application/signed-exchange;v=b3;q=0.7",
      )
      ∷ ("Accept-Language", "en-US,en;q=0.9")
      ∷ ("Accept-Encoding", "gzip, deflate, br, zstd")
      ∷ ("Connection", "keep-alive")
      ∷ (if str_eq (sec_ch_ua ua) "" then [] else hints ua);
}

-- `firefoxProfile`.
unfoldable pub firefox_profile : String → BrowserProfile
firefox_profile ua = record {
  family = firefox;
  headers =
      ("User-Agent", ua)
      ∷ (
        "Accept",
        "text/html,application/xhtml+xml,application/xml;q=0.9,image/avif,image/webp,*/*;q=0.8",
      )
      ∷ ("Accept-Language", "en-US,en;q=0.5")
      ∷ ("Accept-Encoding", "gzip, deflate, br")
      ∷ ("Connection", "keep-alive")
      ∷ ("Te", "trailers")
      ∷ [];
}

-- `safariProfile`.
unfoldable pub safari_profile : String → BrowserProfile
safari_profile ua = record {
  family = safari;
  headers =
      ("User-Agent", ua)
      ∷ ("Accept", "text/html,application/xhtml+xml,application/xml;q=0.9,*/*;q=0.8")
      ∷ ("Accept-Language", "en-US,en;q=0.9")
      ∷ ("Accept-Encoding", "gzip, deflate, br")
      ∷ ("Connection", "keep-alive")
      ∷ [];
}

abbrev profile_of : Family → String → BrowserProfile
profile_of firefox ua = firefox_profile ua
profile_of safari ua = safari_profile ua
profile_of _ ua = chrome_profile ua

-- `buildProfile`.
unfoldable pub build_profile : String → BrowserProfile
unfolding chrome_profile firefox_profile safari_profile
build_profile ua = profile_of (ua_family ua) ua

-- The two loops of `applyProfile`, on the headers of the request.
unfoldable pub fill_missing : Pairs → Header → Header
fill_missing [] hs = hs
fill_missing ((k, v) ∷ kvs) hs = fill_missing kvs (if str_eq (get hs k) "" then put k v hs else hs)

unfoldable pub override : Pairs → Header → Header
override [] hs = hs
override ((k, v) ∷ kvs) hs = override kvs (put k v hs)

-- `applyProfile`.
unfoldable pub apply_profile : Header → BrowserProfile → Pairs → Header
unfolding fill_missing override
apply_profile hs profile extra = override extra (fill_missing profile.headers hs)

-- `secFetchNavigation`, `secFetchScript` and `secFetchXHR`.
unfoldable pub sec_fetch_navigation : String → Pairs
sec_fetch_navigation site =
    ("Sec-Fetch-Dest", "document")
    ∷ ("Sec-Fetch-Mode", "navigate")
    ∷ ("Sec-Fetch-Site", site)
    ∷ ("Sec-Fetch-User", "?1")
    ∷ ("Upgrade-Insecure-Requests", "1")
    ∷ []

unfoldable pub sec_fetch_script : Pairs
sec_fetch_script =
    ("Sec-Fetch-Dest", "script")
    ∷ ("Sec-Fetch-Mode", "no-cors")
    ∷ ("Sec-Fetch-Site", "same-site")
    ∷ []

unfoldable sec_fetch_xhr : String → Pairs
sec_fetch_xhr site =
    ("Sec-Fetch-Dest", "empty") ∷ ("Sec-Fetch-Mode", "cors") ∷ ("Sec-Fetch-Site", site) ∷ []

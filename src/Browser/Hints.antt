-- ===== src/Browser/Hints.antt =====
-- ua.go: what the client hints tell of a user agent.
use Prim.Native.Char.{Char, code}
use Prim.Native.String.{[], ◌∷◌}
use mathlib.Core.List
use text.Mathlib.Text.{◌==◌ as str_eq}
use goddgs.Prelude.{
  ℕ, ◌-◌, String, Bool, ◌&&◌, ◌||◌, not, Option, none, some, leb, ◌==◌, if◌then◌else◌,
}
use goddgs.Prelude.Text.{has_prefix, contains}
use goddgs.Prelude.Format.{concat}
use goddgs.Browser.{Family, chrome, edge, firefox, safari}

abbrev is_digit : Char → Bool
is_digit c = leb 48 (code c) && leb (code c) 57

-- The digits before a full stop, where there are any.
unfoldable pub digits_to_dot : String → String → Option String
digits_to_dot seen [] = none
digits_to_dot seen (c ∷ s) =
    let more = digits_to_dot (concat (List.◌∷◌ seen (List.◌∷◌ (c ∷ []) List.[]))) s in
    if is_digit c then more else if code c == 46 && not (str_eq seen "") then some seen else none

abbrev drop : ℕ → String → String
drop n [] = []
drop n (c ∷ s) = let rest = drop (n - 1) s in if n == 0 then c ∷ s else rest

-- `chromeMajorRe`: the first group of `Chrome/(\d+)\.` where it matches first.
unfoldable pub chrome_major : String → Option String
unfolding digits_to_dot has_prefix concat
chrome_major [] = none
chrome_major (c ∷ s) =
    let later = chrome_major s in
    if has_prefix (c ∷ s) "Chrome/"
    then elim (digits_to_dot "" (drop 7 (c ∷ s))) [ some v ↦ some v | none ↦ later ]
    else later

-- `SecCHUA`.
unfoldable pub sec_ch_ua : String → String
unfolding chrome_major contains
sec_ch_ua ua = elim (chrome_major ua) [
  | none ↦ ""
  | some v ↦
      let brand = if contains ua "Edg/" then "Microsoft Edge" else "Google Chrome" in
      concat (
        List.◌∷◌ "\"Chromium\";v=\"" (
          List.◌∷◌ v (
            List.◌∷◌ "\", \"Not A(Brand\";v=\"24\", \""
              (List.◌∷◌ brand (List.◌∷◌ "\";v=\"" (List.◌∷◌ v (List.◌∷◌ "\"" List.[])))))))
]

-- `SecCHUAMobile`.
unfoldable pub sec_ch_ua_mobile : String → String
unfolding contains
sec_ch_ua_mobile ua = if contains ua "Mobile" then "?1" else "?0"

-- `SecCHUAPlatform`.
unfoldable pub sec_ch_ua_platform : String → String
unfolding contains
sec_ch_ua_platform ua =
    if contains ua "Windows"
    then "\"Windows\""
    else if contains ua "iPhone" || contains ua "iPad"
    then "\"iOS\""
    else if contains ua "Android"
    then "\"Android\""
    else if contains ua "Macintosh" || contains ua "Mac OS X"
    then "\"macOS\""
    else if contains ua "Linux"
    then "\"Linux\""
    else "\"Unknown\""

-- `uaFamily`.
unfoldable pub ua_family : String → Family
unfolding contains
ua_family ua =
    if contains ua "Firefox"
    then firefox
    else if contains ua "Edg/"
    then edge
    else if contains ua "Safari" && not (contains ua "Chrome")
    then safari
    else chrome

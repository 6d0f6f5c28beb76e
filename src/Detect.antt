-- ===== src/Detect.antt =====
-- detect.go: the rules of block detection. `matches pattern s` stands for `MatchString` of the
-- compiled pattern, `lower` for `strings.ToLower`, `scan_int` for `fmt.Sscanf` with `%d`, and
-- `parse_time` for `http.ParseTime`. Header names are written in the canonical form in which
-- `Header.Get` looks them up.
pub mod Chain
pub mod Delay
pub mod Rules
use text.Mathlib.Text.{◌==◌ as str_eq}
use goddgs.Prelude.{
  ℕ, ◌+◌, ◌-◌, ◌/◌, String, Bool, true, false, ◌&&◌, ◌||◌, not, Option, none, some, List, [], ◌∷◌,
  ltb, leb, ◌==◌, if◌then◌else◌,
}
use goddgs.Prelude.Int.{ℤ, pos, pos_part, ltb_ℤ}
use goddgs.Prelude.Text.{trim_space, contains}
use goddgs.Failure.{Header}
use goddgs.Net.{get}
use goddgs.Signal.{
  BlockSignal, generic, cloudflare, recaptcha, akamai, data_dome, perimeter_x, BlockInfo,
  is_detected, no_block,
}

-- `bodyPattern`: the text of the regular expression stands for it.
pub record BodyPattern : Type 0 where
  pub re : String
  pub signal : BlockSignal
  pub key : String

abbrev row : String → BlockSignal → String → BodyPattern
row re signal key = record { re = re; signal = signal; key = key }

-- `bodyPatterns`.
abbrev pub body_patterns : List BodyPattern
body_patterns =
    row "(?i)just a moment" cloudflare "cf_iuam"
    ∷ row "(?i)checking your browser" cloudflare "cf_browser_check"
    ∷ row "(?i)enable javascript and cookies" cloudflare "cf_js_required"
    ∷ row "(?i)cloudflare\\s+ray\\s+id" cloudflare "cf_ray_id_body"
    ∷ row "(?i)__cf_bm" cloudflare "cf_bm_cookie"
    ∷ row "(?i)www\\.google\\.com/recaptcha" recaptcha "recaptcha"
    ∷ row "(?i)hcaptcha\\.com" recaptcha "hcaptcha"
    ∷ row "(?i)g-recaptcha" recaptcha "g_recaptcha"
    ∷ row "(?i)ak_bmsc" akamai "akamai_bmsc"
    ∷ row "(?i)_abck" akamai "akamai_abck"
    ∷ row "(?i)perimeterx" perimeter_x "perimeterx"
    ∷ row "(?i)px_captcha" perimeter_x "px_captcha"
    ∷ row "(?i)_pxde" perimeter_x "px_de"
    ∷ row "(?i)human\\.security" perimeter_x "human_security"
    ∷ row "(?i)datadome\\.co" data_dome "datadome"
    ∷ row "(?i)__dd_s" data_dome "datadome_session"
    ∷ row "(?i)access denied" generic "access_denied"
    ∷ row "(?i)automated traffic" generic "automated_traffic"
    ∷ row "(?i)verify you are human" generic "verify_human"
    ∷ row "(?i)rate.?limit" generic "rate_limit"
    ∷ row "(?i)too many requests" generic "too_many_requests"
    ∷ row "(?i)\\bcaptcha\\b" generic "captcha"
    ∷ row "(?i)unusual traffic" generic "unusual_traffic"
    ∷ row "(?i)suspicious activity" generic "suspicious_activity"
    ∷ row "(?i)please complete the security check" generic "security_check"
    ∷ []

abbrev pub found_by : BlockSignal → String → BlockInfo
found_by signal key = record { signal = signal; detector_key = key }

-- Whether a header has a value that is not empty.
abbrev pub has : Header → String → Bool
has h key = not (str_eq (get h key) "")

-- `detectByHeaders`.
unfoldable pub detect_by_headers : (String → String) → ℕ → Header → BlockInfo
detect_by_headers lower status h =
    if has h "Cf-Mitigated"
    then found_by cloudflare "cf_mitigated"
    else if has h "Cf-Ray" && (status == 403 || status == 503)
    then found_by cloudflare "cf_ray"
    else if contains (get h "Server") "AkamaiGHost"
    then found_by akamai "akamai_server"
    else if has h "X-Check-Cacheable" && status == 403
    then found_by akamai "akamai_403"
    else if contains (lower (get h "X-Datadome")) "blocked"
    then found_by data_dome "datadome_header"
    else if has h "X-Px-Client-Uuid"
    then found_by perimeter_x "px_header"
    else if status == 429
    then found_by generic "http_429"
    else no_block

-- The loop of `detectByBody`.
unfoldable pub first_match : (String → String → Bool) → String → List BodyPattern → BlockInfo
first_match matches s [] = no_block
first_match matches s (p ∷ ps) =
    let rest = first_match matches s ps in if matches p.re s then found_by p.signal p.key else rest

-- `detectByBody`.
unfoldable pub detect_by_body : (String → String → Bool) → String → BlockInfo
unfolding first_match
detect_by_body matches body = first_match matches body body_patterns

-- `DetectBlockSignal`.
unfoldable pub detect_block_signal :
    (String → String) → (String → String → Bool) → ℕ → Header → String → BlockInfo
unfolding detect_by_headers detect_by_body is_detected
detect_block_signal lower matches status h body =
    let info = detect_by_headers lower status h in
    if is_detected info then info else detect_by_body matches body

-- `d.Round(time.Second).Seconds()` of a positive duration, as a number of seconds.
abbrev rounded_seconds : ℕ → ℕ
rounded_seconds d = (d + 500_000_000) / 1_000_000_000

-- `RetryAfterSeconds` at the time `now`.
unfoldable pub retry_after_seconds : (String → Option ℤ) → (String → Option ℕ) → ℕ → Header → ℕ
retry_after_seconds scan_int parse_time now h =
    let v = trim_space (get h "Retry-After") in
    let by_date : ℕ = elim (parse_time v) [
      | none ↦ 0
      | some t ↦ if leb t now then 0 else rounded_seconds (t - now)
    ] in
    if str_eq v "" then 0 else elim (scan_int v) [
      | none ↦ by_date
      | some secs ↦ if ltb_ℤ (pos 0) secs then pos_part secs else by_date
    ]

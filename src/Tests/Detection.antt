-- ===== src/Tests/Detection.antt =====
-- Block detection on a page of hCaptcha, on a plain page, and on a Retry-After date.
use text.Mathlib.Text.{◌==◌ as str_eq}
use text.Mathlib.TextEquality.{eq_iff}
use goddgs.Prelude.{
  ℕ, String, refl, ◌≢◌, ◌⊎◌, Bool, true, false, Option, none, some, [], ◌∷◌, arith,
}
use goddgs.Prelude.Int.{ℤ}
use goddgs.Prelude.Text.{contains}
use goddgs.Failure.{Header}
use goddgs.Net.{get}
use goddgs.Signal.{is_detected}
use goddgs.Detect.{body_patterns, detect_block_signal}
use goddgs.Detect.Rules.{HeaderRule, BodyRule, detect_block_signal-rule}

-- A matcher that knows one pattern of the table.
abbrev matches : String → String → Bool
matches re s = if_pattern (str_eq re "(?i)hcaptcha\\.com") s
  where
    if_pattern : Bool → String → Bool
    if_pattern true s = contains s "hcaptcha.com"
    if_pattern false s = false

abbrev same : String → String
same s = s

abbrev page : String
page = "see hcaptcha.com"

abbrev no_header : Header
no_header = []

detect_block_signal-rule_example :
    HeaderRule same 200 no_header (detect_block_signal same matches 200 no_header page)
    ⊎ BodyRule matches page body_patterns (detect_block_signal same matches 200 no_header page)
unfolding detect_block_signal contains get is_detected
detect_block_signal-rule_example = detect_block_signal-rule same matches 200 no_header page refl

abbrev dated : Header
dated = ("Retry-After", "Wed, 21 Oct 2015 07:28:00 GMT" ∷ []) ∷ []

abbrev no_number : String → Option ℤ
no_number s = none

abbrev date : String → Option ℕ
date s = some 4_600_000_000

date_full : ◌≢◌ {A = String} "Wed, 21 Oct 2015 07:28:00 GMT" ""
date_full = ground (arith, eq_iff "Wed, 21 Oct 2015 07:28:00 GMT" "")

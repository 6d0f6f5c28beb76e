-- ===== src/Tests/Browsers.antt =====
-- The headers of a browser, and a compressed body.
use text.Mathlib.Text.{◌==◌ as str_eq}
use goddgs.Prelude.{◌≡◌, refl, String, true, false, none, some, [], ◌∷◌, arith, if◌then◌else◌}
use goddgs.Prelude.Int.{pos}
use goddgs.Prelude.Text.{trim_space}
use goddgs.Prelude.Format.{concat, join}
use goddgs.Net.{get, HttpRequest}
use goddgs.Failure.{Header}
use goddgs.Browser.{UaEntry, new_user_agent_pool, pick}
use goddgs.Browser.Agents.{Consistent, pick-Consistent}
use goddgs.Browser.Hints.{ua_family, sec_ch_ua}
use goddgs.Browser.Headers.{build_profile, apply_profile, sec_fetch_script}
use goddgs.Browser.Headers.Profile.{first_value, last_value, get-apply_profile}
use goddgs.Browser.Transport.{
  UrlParts, Response, Decoders, is_chromium, prepare, decompress_response,
}
use goddgs.Browser.Transport.Bodies.{Outcome, decompress_response-Outcome}
use goddgs.Browser.Transport.Requests.{AgentOf, prepare-agent}

pick-Consistent_example : (e : UaEntry) × (pick 99 new_user_agent_pool ≡ some e) × Consistent e
unfolding new_user_agent_pool
pick-Consistent_example = pick-Consistent 99 (omega arith)

abbrev headers : Header
headers = ("Accept", "*/*" ∷ []) ∷ []

get-apply_profile_example :
    get (apply_profile headers (build_profile "Firefox/125.0") sec_fetch_script) "Accept"
    ≡ last_value "Accept" sec_fetch_script (
        if str_eq (get headers "Accept") ""
        then first_value "Accept" (build_profile "Firefox/125.0").headers
        else get headers "Accept")
get-apply_profile_example =
    get-apply_profile "Accept" headers (build_profile "Firefox/125.0") sec_fetch_script

abbrev parts : UrlParts
parts = record {
  host_of = λ s. "links.duckduckgo.com";
  path_of = λ s. "/d.js";
  lower = λ s. s;
  has_suffix = λ s t. true;
}

abbrev asked : HttpRequest
asked = record {
  method = "GET";
  url = "https://links.duckduckgo.com/d.js";
  headers = headers;
  body = "";
}

abbrev ua : String
ua = "Mozilla/5.0 AppleWebKit/537.36 (KHTML, like Gecko) Chrome/124.0.0.0 Safari/537.36"

prepare-agent_example :
    (named : String) × AgentOf (some ua) asked named
    × (get (prepare parts (some ua) asked).headers "User-Agent" ≡ named)
    × (get (prepare parts (some ua) asked).headers "Sec-Ch-Ua"
        ≡ (if is_chromium (ua_family named) then sec_ch_ua named else ""))
unfolding get
prepare-agent_example = prepare-agent parts (some ua) asked refl

abbrev zipped : Response String
zipped = record {
  status_code = 200;
  headers = ("Content-Encoding", "gzip" ∷ []) ∷ ("Content-Length", "9" ∷ []) ∷ [];
  body = some "packed";
  length = pos 9;
  uncompressed = false;
}

abbrev readers : Decoders String
readers = record { gzip = λ b. (some "plain", ""); brotli = λ b. "plain"; zstd = λ b. (none, "ed") }

decompress_response-Outcome_example :
    Outcome readers (trim_space "gzip") zipped (decompress_response (λ s. s) readers zipped)
unfolding get trim_space join concat
decompress_response-Outcome_example =
    decompress_response-Outcome (λ s. s) readers zipped "gzip" [] refl (refl, tt)

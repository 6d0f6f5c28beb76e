-- ===== src/Signal.antt =====
-- detect.go, the types: `BlockSignal` with its `String` method, and `BlockInfo`.
use goddgs.Prelude.{String, Bool, true, false}

pub data BlockSignal : Type 0 where
  no_signal cloudflare recaptcha akamai perimeter_x data_dome generic : BlockSignal

-- `BlockSignal.String`.
unfoldable pub signal_text : BlockSignal → String
signal_text cloudflare = "cloudflare"
signal_text recaptcha = "recaptcha"
signal_text akamai = "akamai"
signal_text perimeter_x = "perimeterx"
signal_text data_dome = "datadome"
signal_text generic = "generic"
signal_text no_signal = "none"

pub record BlockInfo : Type 0 where
  pub signal : BlockSignal
  pub detector_key : String

abbrev pub is_signal : BlockSignal → Bool
is_signal no_signal = false
is_signal _ = true

-- `BlockInfo.IsDetected`.
unfoldable pub is_detected : BlockInfo → Bool
is_detected info = is_signal info.signal

-- The zero value, `BlockInfo{}`.
abbrev pub no_block : BlockInfo
no_block = record { signal = no_signal; detector_key = "" }

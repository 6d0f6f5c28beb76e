-- ===== src/Metrics.antt =====
-- observability_prometheus.go. A counter or a gauge of the Prometheus library is the value under its
-- name and labels; a value that was never set is 0, and the buckets of the histogram are the
-- durations that were observed.
pub mod Counts
pub mod Searches
pub mod Orders
use text.Mathlib.Text.{◌==◌ as str_eq}
use goddgs.Prelude.{
  ℕ, ◌+◌, String, Bool, true, false, ◌&&◌, Option, none, some, List, [], ◌∷◌, if◌then◌else◌,
}
use goddgs.Failure.{ErrorKind, kind_text}
use goddgs.Signal.{signal_text, BlockInfo}
use goddgs.Api.{Event, EventType, provider_end, blocked_seen, fallback}
use goddgs.Client.{CircuitEvent, Trigger, fail_fast, threshold_reached, success_reset}

abbrev pub Key : Type 0
Key = List String

abbrev pub same_key : Key → Key → Bool
same_key [] [] = true
same_key (k ∷ ks) (j ∷ js) = str_eq k j && same_key ks js
same_key _ _ = false

abbrev pub Values : Type 0
Values = List (Key × ℕ)

unfoldable pub value_of : Key → Values → ℕ
value_of key [] = 0
value_of key ((k, n) ∷ vs) = if same_key k key then n else value_of key vs

unfoldable pub set_value : Key → ℕ → Values → Values
set_value key n [] = (key, n) ∷ []
set_value key n ((k, m) ∷ vs) = if same_key k key then (k, n) ∷ vs else (k, m) ∷ set_value key n vs

-- `PrometheusCollector`.
pub record PrometheusCollector : Type 0 where
  pub counters : Values
  pub gauges : Values
  pub durations : List (String × ℕ)

-- `Inc` and `Set`.
unfoldable pub inc : Key → PrometheusCollector → PrometheusCollector
unfolding value_of set_value
inc key c = record c { counters = set_value key (value_of key c.counters + 1) c.counters }

abbrev set_gauge : Key → ℕ → PrometheusCollector → PrometheusCollector
set_gauge key n c = record c { gauges = set_value key n c.gauges }

abbrev pub requests_key : String → Bool → Key
requests_key provider success =
    "goddgs_requests_total" ∷ provider ∷ (if success then "success" else "error") ∷ []

abbrev pub signal_label : Option BlockInfo → String
signal_label none = "generic"
signal_label (some info) =
    let text = signal_text info.signal in if str_eq text "" then "generic" else text

abbrev pub kind_label : Option ErrorKind → String
kind_label none = "unknown"
kind_label (some kind) = kind_text kind

abbrev pub on_event : EventType → Event → PrometheusCollector → PrometheusCollector
on_event provider_end ev c =
    let counted = inc (requests_key ev.provider ev.success) c in
    record counted { durations = (ev.provider, ev.duration) ∷ counted.durations }
on_event blocked_seen ev c =
    inc ("goddgs_block_events_total" ∷ ev.provider ∷ signal_label ev.block ∷ []) c
on_event fallback ev c =
    inc ("goddgs_fallback_transitions_total" ∷ ev.provider ∷ kind_label ev.err_kind ∷ []) c
on_event _ ev c = c

-- `Hook`.
unfoldable pub hook : Event → PrometheusCollector → PrometheusCollector
unfolding inc signal_text kind_text
hook ev c = on_event ev.event_type ev c

-- `SetProviderEnabled`.
unfoldable pub set_provider_enabled : String → Bool → PrometheusCollector → PrometheusCollector
unfolding set_value
set_provider_enabled provider enabled c =
    set_gauge ("goddgs_provider_enabled" ∷ provider ∷ []) (if enabled then 1 else 0) c

abbrev trigger_text : Trigger → String
trigger_text fail_fast = "fail_fast"
trigger_text threshold_reached = "threshold_reached"
trigger_text success_reset = "success_reset"

-- `ObserveCircuitEvent` for the events of the client, of which each has a state and a trigger.
unfoldable pub observe_circuit_event :
    String → CircuitEvent → PrometheusCollector → PrometheusCollector
unfolding inc set_value
observe_circuit_event provider ev c =
    let name = if str_eq provider "" then "ddg" else provider in
    let state = if ev.opens then "open" else "closed" in
    set_gauge ("goddgs_circuit_open" ∷ name ∷ []) (if ev.opens then 1 else 0)
      (inc ("goddgs_circuit_events_total" ∷ name ∷ state ∷ trigger_text ev.trigger ∷ []) c)

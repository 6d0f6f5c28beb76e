-- ===== src/Metrics/Counts.antt =====
-- observability_prometheus.go: what the collector has counted after a sequence of events.
use text.Mathlib.Text.{◌==◌ as str_eq}
use text.Mathlib.TextEquality.{eq_iff}
use goddgs.Prelude.{
  ℕ, ◌+◌, String, ◌≡◌, refl, sym, ap, ◌∙◌, inl, inr, Bool, true, false, ◌&&◌, not, List, [], ◌∷◌,
  arith, if◌then◌else◌, Bool-cases,
}
use goddgs.Api.{
  Event, EventType, search_start, search_finish, provider_start, provider_end, blocked_seen,
  fallback,
}
use goddgs.Metrics.{
  Key, same_key, Values, value_of, set_value, PrometheusCollector, inc, requests_key, signal_label,
  kind_label, on_event, hook,
}

same_key_eq : (k j : Key) → same_key k j ≡ true → k ≡ j
same_key_eq [] [] h = refl
same_key_eq [] (j ∷ js) h = cc
same_key_eq (k ∷ ks) [] h = cc
same_key_eq (k ∷ ks) (j ∷ js) h = ground (arith, eq_iff k j, same_key_eq ks js)

pub same_key_refl : (k : Key) → same_key k k ≡ true
same_key_refl [] = refl
same_key_refl (k ∷ ks) = ground (arith, eq_iff k k, same_key_refl ks)

pub value_of-set_value :
    (key other : Key) (n : ℕ) (vs : Values)
    → value_of other (set_value key n vs) ≡ (if same_key key other then n else value_of other vs)
unfolding value_of set_value
value_of-set_value key other n [] = refl
value_of-set_value key other n ((k, m) ∷ vs) = elim (Bool-cases (same_key k key)) [
  | inl here ↦ rw (here, set_value, value_of) (rw (same_key_eq k key here) (ground arith))
  | inr later ↦ elim (Bool-cases (same_key k other)) [
    | inr far ↦ rw (later, far, set_value, value_of) (value_of-set_value key other n vs)
    | inl near ↦ elim (Bool-cases (same_key key other)) [
      | inr apart ↦ rw (later, near, apart, set_value, value_of) refl
      | inl joined ↦
          let same : k ≡ key = same_key_eq k other near ∙ sym (same_key_eq key other joined) in
          cc (sym later ∙ ap (λ (j : Key). same_key j key) same ∙ same_key_refl key)
    ]
  ]
]

pub value_of-inc :
    (key other : Key) (c : PrometheusCollector)
    → value_of other (inc key c).counters
      ≡ value_of other c.counters + (if same_key key other then 1 else 0)
unfolding inc
value_of-inc key other c =
    value_of-set_value key other (value_of key c.counters + 1) c.counters
    ∙ elim (Bool-cases (same_key key other)) [
      | inl here ↦
          rw here (ap (λ (k : Key). value_of k c.counters + 1) (same_key_eq key other here))
      | inr apart ↦ rw apart (omega arith)
    ]

-- Events given to the hook one after another.
abbrev pub hook_all : List Event → PrometheusCollector → PrometheusCollector
hook_all [] c = c
hook_all (ev ∷ evs) c = hook_all evs (hook ev c)

abbrev pub is_end : EventType → Bool
is_end provider_end = true
is_end _ = false

abbrev same_bool : Bool → Bool → Bool
same_bool true b = b
same_bool false b = not b

-- The attempts of a provider that ended in success, or those that did not.
abbrev pub ended : String → Bool → List Event → ℕ
ended provider success [] = 0
ended provider success (ev ∷ evs) =
    let rest = ended provider success evs in
    if is_end ev.event_type && str_eq ev.provider provider && same_bool ev.success success
    then rest + 1
    else rest

same_requests :
    (p q : String) (s t : Bool)
    → same_key (requests_key p s) (requests_key q t) ≡ str_eq p q && same_bool s t
same_requests p q true true = ground arith
same_requests p q true false = ground arith
same_requests p q false true = ground arith
same_requests p q false false = ground arith

on_event-requests :
    (t : EventType) (ev : Event) (provider : String) (success : Bool) (c : PrometheusCollector)
    → value_of (requests_key provider success) (on_event t ev c).counters
      ≡ value_of (requests_key provider success) c.counters
        + (if is_end t && str_eq ev.provider provider && same_bool ev.success success then 1 else 0)
on_event-requests provider_end ev provider success c =
    value_of-inc (requests_key ev.provider ev.success) (requests_key provider success) c
    ∙ rw (same_requests ev.provider provider ev.success success) refl
on_event-requests blocked_seen ev provider success c =
    value_of-inc ("goddgs_block_events_total" ∷ ev.provider ∷ signal_label ev.block ∷ [])
      (requests_key provider success) c
on_event-requests fallback ev provider success c =
    value_of-inc ("goddgs_fallback_transitions_total" ∷ ev.provider ∷ kind_label ev.err_kind ∷ [])
      (requests_key provider success) c
on_event-requests search_start ev provider success c = omega arith
on_event-requests search_finish ev provider success c = omega arith
on_event-requests provider_start ev provider success c = omega arith

hook-requests :
    (ev : Event) (provider : String) (success : Bool) (c : PrometheusCollector)
    → value_of (requests_key provider success) (hook ev c).counters
      ≡ value_of (requests_key provider success) c.counters
        + (if is_end ev.event_type && str_eq ev.provider provider && same_bool ev.success success
            then 1
            else 0)
unfolding hook
hook-requests ev = on_event-requests ev.event_type ev

-- After any sequence of events, the counter of a provider's requests has grown by the number of its
-- attempts that ended in that way: successes and errors are counted apart, and no other event counts.
pub hook_all-requests :
    (evs : List Event) (provider : String) (success : Bool) (c : PrometheusCollector)
    → value_of (requests_key provider success) (hook_all evs c).counters
      ≡ value_of (requests_key provider success) c.counters + ended provider success evs
hook_all-requests [] provider success c = omega arith
hook_all-requests (ev ∷ evs) provider success c =
    ground (
      arith,
      hook_all-requests evs provider success (hook ev c),
      hook-requests ev provider success c,
    )

-- ===== src/Metrics/Orders.antt =====
-- observability_prometheus.go: the collector where searches run side by side, so that their events mix.
use mathlib.Core.Logic.{∥∥₁_elim, ∥∥₁_prop}
use mathlib.Core.List.{Perm, Permᴰ}
use mathlib.Core.List.Perm
use native.Mathlib.Nat.{ℕ_set}
use goddgs.Prelude.{
  ℕ, ◌+◌, ◌≡◌, refl, sym, ap, subst, ◌∙◌, List, [], ◌∷◌, arith, if◌then◌else◌, String, Bool-cases,
  inl, inr,
}
use goddgs.Api.{
  Event, EventType, search_start, search_finish, provider_start, provider_end, blocked_seen,
  fallback,
}
use goddgs.Metrics.{
  Key, same_key, value_of, PrometheusCollector, inc, requests_key, signal_label, kind_label,
  on_event, hook,
}
use goddgs.Metrics.Counts.{value_of-inc, hook_all, is_end}

-- What an event adds to the counter of a key.
abbrev share : Key → EventType → Event → ℕ
share key provider_end ev = if same_key (requests_key ev.provider ev.success) key then 1 else 0
share key blocked_seen ev =
    if same_key ("goddgs_block_events_total" ∷ ev.provider ∷ signal_label ev.block ∷ []) key
    then 1
    else 0
share key fallback ev =
    if same_key ("goddgs_fallback_transitions_total" ∷ ev.provider ∷ kind_label ev.err_kind ∷ [])
      key
    then 1
    else 0
share key _ ev = 0

abbrev one_share : Key → Event → ℕ
one_share key ev = share key ev.event_type ev

abbrev shares : Key → List Event → ℕ
shares key [] = 0
shares key (ev ∷ evs) = share key ev.event_type ev + shares key evs

on_event-counter :
    (key : Key) (t : EventType) (ev : Event) (c : PrometheusCollector)
    → value_of key (on_event t ev c).counters ≡ value_of key c.counters + share key t ev
on_event-counter key provider_end ev c = value_of-inc (requests_key ev.provider ev.success) key c
on_event-counter key blocked_seen ev c =
    value_of-inc ("goddgs_block_events_total" ∷ ev.provider ∷ signal_label ev.block ∷ []) key c
on_event-counter key fallback ev c =
    value_of-inc ("goddgs_fallback_transitions_total" ∷ ev.provider ∷ kind_label ev.err_kind ∷ [])
      key c
on_event-counter key search_start ev c = omega arith
on_event-counter key search_finish ev c = omega arith
on_event-counter key provider_start ev c = omega arith

hook_all-counter :
    (key : Key) (evs : List Event) (c : PrometheusCollector)
    → value_of key (hook_all evs c).counters ≡ value_of key c.counters + shares key evs
unfolding hook
hook_all-counter key [] c = omega arith
hook_all-counter key (ev ∷ evs) c =
    omega (arith, hook_all-counter key evs (hook ev c), on_event-counter key ev.event_type ev c)

shares-Perm :
    (key : Key) {evs others : List Event} → Permᴰ evs others → shares key evs ≡ shares key others
shares-Perm key Permᴰ.nil = refl
shares-Perm key (Permᴰ.cons e p) = omega (arith, ap (one_share key) e, shares-Perm key p)
shares-Perm key (Permᴰ.swap e f) = omega (arith, ap (one_share key) e, ap (one_share key) f)
shares-Perm key (Permᴰ.trans p q) = shares-Perm key p ∙ shares-Perm key q

-- The durations with the one that an event brings, and with those of all events.
abbrev noted : Event → List (String × ℕ) → List (String × ℕ)
noted ev ds = if is_end ev.event_type then (ev.provider, ev.duration) ∷ ds else ds

abbrev all_noted : List Event → List (String × ℕ) → List (String × ℕ)
all_noted [] ds = ds
all_noted (ev ∷ evs) ds = all_noted evs (noted ev ds)

on_event-durations :
    (t : EventType) (ev : Event) (c : PrometheusCollector)
    → ((on_event t ev c).durations
        ≡ (if is_end t then (ev.provider, ev.duration) ∷ c.durations else c.durations))
      × ((on_event t ev c).gauges ≡ c.gauges)
unfolding inc
on_event-durations provider_end ev c = (refl, refl)
on_event-durations blocked_seen ev c = (refl, refl)
on_event-durations fallback ev c = (refl, refl)
on_event-durations search_start ev c = (refl, refl)
on_event-durations search_finish ev c = (refl, refl)
on_event-durations provider_start ev c = (refl, refl)

hook_all-durations :
    (evs : List Event) (c : PrometheusCollector)
    → ((hook_all evs c).durations ≡ all_noted evs c.durations)
      × ((hook_all evs c).gauges ≡ c.gauges)
unfolding hook
hook_all-durations [] c = (refl, refl)
hook_all-durations (ev ∷ evs) c =
    let one = on_event-durations ev.event_type ev c in
    let rest = hook_all-durations evs (hook ev c) in
    (rest.0 ∙ ap (all_noted evs) one.0, rest.1 ∙ one.1)

noted-Perm :
    (ev : Event) {ds es : List (String × ℕ)} → Perm ds es → Perm (noted ev ds) (noted ev es)
noted-Perm ev p = elim (Bool-cases (is_end ev.event_type)) [
  | inl ends ↦ rw ends (Perm.cons _ p)
  | inr other ↦ rw other p
]

noted-swap :
    (a b : Event) (ds : List (String × ℕ)) → Perm (noted b (noted a ds)) (noted a (noted b ds))
noted-swap a b ds = elim (Bool-cases (is_end a.event_type)) [
  | inr other ↦ rw other (Perm.refl _)
  | inl ends ↦ elim (Bool-cases (is_end b.event_type)) [
    | inl both ↦ rw (ends, both) (Perm.swap _ _ _)
    | inr one ↦ rw (ends, one) (Perm.refl _)
  ]
]

same_events-Perm :
    (evs : List Event) {ds es : List (String × ℕ)}
    → Perm ds es
    → Perm (all_noted evs ds) (all_noted evs es)
same_events-Perm [] q = q
same_events-Perm (ev ∷ evs) q = same_events-Perm evs (noted-Perm ev q)

all_noted-Perm :
    {evs others : List Event} {ds es : List (String × ℕ)}
    → Permᴰ evs others
    → Perm ds es
    → Perm (all_noted evs ds) (all_noted others es)
all_noted-Perm Permᴰ.nil q = q
all_noted-Perm {ds = ds} {es = es} (Permᴰ.cons {a = a} e p) q =
    all_noted-Perm p (subst (λ b. Perm (noted a ds) (noted b es)) e (noted-Perm a q))
all_noted-Perm {ds = ds} {es = es} (Permᴰ.swap {a = a} {b = b} {a' = first} {l = l} e f) q =
    let other_way = noted-Perm a (noted-Perm b q) in
    same_events-Perm l (
      Perm.trans (noted-swap a b ds) (
        subst (λ x. Perm (noted a (noted b ds)) (noted x (noted first es))) e
          (subst (λ x. Perm (noted a (noted b ds)) (noted a (noted x es))) f other_way)))
all_noted-Perm (Permᴰ.trans p p') q =
    Perm.trans (all_noted-Perm p q) (all_noted-Perm p' (Perm.refl _))

-- The order in which events reach the collector does not matter: when the events of several searches
-- come mixed in any way, every counter ends at the same value, the same durations have been observed,
-- and no gauge has changed.
pub hook_all-Perm :
    (evs others : List Event) (c : PrometheusCollector)
    → Perm evs others
    → ((key : Key)
        → value_of key (hook_all evs c).counters ≡ value_of key (hook_all others c).counters)
      × Perm (hook_all evs c).durations (hook_all others c).durations
      × ((hook_all evs c).gauges ≡ c.gauges)
hook_all-Perm evs others c p = (
  λ key.
      hook_all-counter key evs c
      ∙ ap (◌+◌ (value_of key c.counters)) (∥∥₁_elim p (ℕ_set _ _) (shares-Perm key))
      ∙ sym (hook_all-counter key others c),
  rw ((hook_all-durations evs c).0, (hook_all-durations others c).0)
      (∥∥₁_elim p ∥∥₁_prop (λ d. all_noted-Perm d (Perm.refl _))),
  (hook_all-durations evs c).1,
)

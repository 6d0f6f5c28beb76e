-- ===== src/Tests/Traces.antt =====
-- The events of searches, and what the collector makes of them.
use goddgs.Prelude.{ℕ, ◌+◌, ◌≡◌, refl, false, true, List, [], ◌∷◌, ◌++◌, some}
use mathlib.Core.List.{Perm, perm_append_comm}
use goddgs.Prelude.Text.{trim_space}
use goddgs.Failure.{classify_error, nil, message}
use goddgs.Api.{Event}
use goddgs.Engine.{Provider, Hook, search}
use goddgs.Engine.Trace.{winner_of}
use goddgs.Engine.Trace.Whole.{Narrated, search-Narrated}
use goddgs.Metrics.{Key, PrometheusCollector, hook, requests_key, value_of}
use goddgs.Metrics.Counts.{hook_all}
use goddgs.Metrics.Searches.{outcomes, search-collected}
use goddgs.Metrics.Orders.{hook_all-Perm}
use goddgs.Tests.Engine.{tick, chain, alone, ask, begin, hit}

abbrev fresh : PrometheusCollector
fresh = record { counters = []; gauges = []; durations = [] }

search-Narrated_example : Narrated chain ask begin (search tick chain ask begin)
search-Narrated_example = search-Narrated chain ask begin tick

-- A world with a clock and a collector, which only its hook changes.
abbrev World : Type 0
World = ℕ × PrometheusCollector

abbrev collected : World → PrometheusCollector
collected w = w.1

abbrev collect : Hook World
collect ev w = (w.0, hook ev w.1)

abbrev tock : World → ℕ × World
tock w = (w.0, (w.0 + 1, w.1))

abbrev broken : Provider World
broken = record {
  name = "ddg";
  enabled = true;
  search = λ req w. (([], message "timeout"), (w.0 + 5, w.1));
}

abbrev sound : Provider World
sound = record { name = "tavily"; enabled = true; search = λ req w. ((hit ∷ [], nil), w) }

search-collected_example :
    value_of
      (requests_key "ddg" false)
      (search tock
        (record { providers = some broken ∷ some sound ∷ []; hooks = some collect ∷ [] })
        ask
        (record { world = (100, fresh); emitted = [] })).1.world.1.counters
    ≡ value_of (requests_key "ddg" false) fresh.counters
      + outcomes "ddg" false
          (search tock
            (record { providers = some broken ∷ some sound ∷ []; hooks = some collect ∷ [] })
            ask
            (record { world = (100, fresh); emitted = [] })).0.0.diagnostics.errors
          (winner_of
            (search tock
              (record { providers = some broken ∷ some sound ∷ []; hooks = some collect ∷ [] })
              ask
              (record { world = (100, fresh); emitted = [] })).0)
search-collected_example =
    search-collected collected collect tock (some broken ∷ some sound ∷ []) ask (100, fresh) "ddg"
      false (λ ev w. refl) (λ w. refl) ((λ req w. refl), ((λ req w. refl), tt))

one_failed :
    value_of
      (requests_key "ddg" false)
      (hook_all (search tick chain ask begin).1.emitted fresh).counters
    ≡ 1
unfolding search trim_space classify_error value_of hook
one_failed = refl

one_answered :
    value_of
      (requests_key "tavily" true)
      (hook_all (search tick chain ask begin).1.emitted fresh).counters
    ≡ 1
unfolding search trim_space classify_error value_of hook
one_answered = refl

-- The events of two searches, one after the other, and the other way round.
abbrev mixed : List Event
mixed = (search tick chain ask begin).1.emitted ++ (search tick alone ask begin).1.emitted

abbrev turned : List Event
turned = (search tick alone ask begin).1.emitted ++ (search tick chain ask begin).1.emitted

hook_all-Perm_example :
    ((key : Key)
      → value_of key (hook_all mixed fresh).counters
        ≡ value_of key (hook_all turned fresh).counters)
    × Perm (hook_all mixed fresh).durations (hook_all turned fresh).durations
    × ((hook_all mixed fresh).gauges ≡ fresh.gauges)
hook_all-Perm_example = hook_all-Perm mixed turned fresh (
    perm_append_comm (search tick chain ask begin).1.emitted
      (search tick alone ask begin).1.emitted)

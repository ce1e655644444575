-- ===== src/Tests/Metrics.antt =====
-- The sink of events at concrete events.
use go_memoize.Base.{none, List, [], ◌∷◌, ◌≡◌, ◌≢◌}
use go_memoize.Base.Int.{pos}
use go_memoize.Base.Strings.{string_discrete}
use go_memoize.World.{MetricEventKind, hit, refresh_start, refresh_success, MetricEvent}
use go_memoize.Metrics.{new_in_memory_metrics, entry_of, record_all}
use go_memoize.Metrics.Counts.{tally, occurrences, latest, record_all-exact}
use go_memoize.Metrics.Latencies.{IsLatest}

abbrev seen : List MetricEvent
seen =
    record { kind = hit; key = "users"; duration = pos 0; error = none }
    ∷ record { kind = refresh_start; key = "users"; duration = pos 0; error = none }
    ∷ record { kind = refresh_success; key = "users"; duration = pos 7000000; error = none }
    ∷ record { kind = hit; key = "posts"; duration = pos 0; error = none }
    ∷ []

record_all-exact_example :
    ((kind : MetricEventKind)
      → kind ≢ refresh_start
      → tally kind (entry_of (record_all string_discrete seen new_in_memory_metrics) "users")
        ≡ occurrences string_discrete kind "users" seen)
    × IsLatest
        (latest string_discrete "users" seen [])
        (entry_of (record_all string_discrete seen new_in_memory_metrics) "users")
record_all-exact_example = record_all-exact string_discrete "users" seen

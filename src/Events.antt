-- ===== src/Events.antt =====
-- The `emit` methods of cache.go: what a cache reports to its metrics sink, when it has one.
pub mod Noted
use go_memoize.Base.{
  ℕ, suc, ◌+◌, Bool, true, false, not, ◌&&◌, ◌||◌, Option, none, some, is_some, List, [], ◌∷◌, ◌==◌,
  if◌then◌else◌, update, ℕ_discrete,
}
use go_memoize.Base.Int.{pos, is_pos}
use go_memoize.Time.{Time, Duration, add, sub}
use go_memoize.Stored.{Stored, EntryState, expired, fresh, stale, state}
use go_memoize.Store.{
  Store, Ctx, background, with_timeout, Found, Error, missing_store, zero_stored,
}
use go_memoize.Cache.{Cache, is_zero_duration}
use go_memoize.World.{
  MetricEventKind, hit, miss, stale_hit, refresh_start, refresh_success, refresh_error, set_event,
  delete_event, MetricEvent, Flight, Ran, gives, throws, Compute, Task, World, Outcome, returned,
  panics, waits, GoTypes, M, pure, ◌>>=◌, ◌>>◌, when, ask, clock_now, run_compute,
}

-- An event with no duration and no error; `metricKey` is `fmt.Sprint` of the key.
abbrev pub event : {K V : Type 0} → GoTypes K V → MetricEventKind → K → MetricEvent
event go kind key = record { kind = kind; key = go.sprint key; duration = pos 0; error = none }

module _ {K V S : Type 0} (go : GoTypes K V) where
  unfoldable pub emit : Cache K V S → MetricEvent → M (World K V S) (Unit {0})
  emit c e w =
      if c.metrics_enabled
      then (returned tt, record w { events = e ∷ w.events })
      else (returned tt, w)

  unfoldable pub emit_hit : Cache K V S → K → M (World K V S) (Unit {0})
  emit_hit c key = emit c (event go hit key)

  unfoldable pub emit_miss : Cache K V S → K → M (World K V S) (Unit {0})
  emit_miss c key = emit c (event go miss key)

  unfoldable pub emit_stale_hit : Cache K V S → K → M (World K V S) (Unit {0})
  emit_stale_hit c key = emit c (event go stale_hit key)

  unfoldable pub emit_refresh_start : Cache K V S → K → M (World K V S) (Unit {0})
  emit_refresh_start c key = emit c (event go refresh_start key)

  unfoldable pub emit_refresh_success : Cache K V S → K → Duration → M (World K V S) (Unit {0})
  emit_refresh_success c key duration =
      emit c (record (event go refresh_success key) { duration = duration })

  unfoldable pub emit_refresh_error : Cache K V S → K → Error → M (World K V S) (Unit {0})
  emit_refresh_error c key err = emit c (record (event go refresh_error key) { error = some err })

  unfoldable pub emit_set : Cache K V S → K → M (World K V S) (Unit {0})
  emit_set c key = emit c (event go set_event key)

  unfoldable pub emit_delete : Cache K V S → K → M (World K V S) (Unit {0})
  emit_delete c key = emit c (event go delete_event key)

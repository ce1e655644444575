-- ===== src/Tests/Engine.antt =====
-- The engine's theorems at concrete worlds.
use go_memoize.Base.{ℕ, ◌+◌, ◌≤◌, ◌<◌, true, none, some, [], ◌≡◌, ◌↔◌, inl, inr, refl}
use go_memoize.Stored.{state, fresh, stale}
use go_memoize.Store.{external, background}
use go_memoize.Store.Laws.{Keeps, Shrinks}
use go_memoize.Direct.Laws.{AnyState, entries, direct_store-StoreLaws}
use go_memoize.World.{
  World, Task, Compute, returned, panics, waits, gives, throws, hit, miss, set_event, stale_hit,
}
use go_memoize.Events.Noted.{noted}
use go_memoize.Engine.{entry_at, run_refresh, get_or_compute}
use go_memoize.Engine.Hits.{after_read, get_or_compute-fresh}
use go_memoize.Engine.Computes.{
  unusable-NotFresh, Landed, get_or_compute-gives, get_or_compute-fails, get_or_compute-throws,
}
use go_memoize.Engine.Refresh.{
  launched, get_or_compute-stale, Replaced, run_refresh-gives, run_refresh-fails,
}
use go_memoize.Flights.{finish_flight, finish_panicked_flight}
use go_memoize.Engine.Waits.{get_or_compute-waits, Finished, wait-finish_flight}
use go_memoize.Engine.Deadlines.{WithinTtl, entry_at-state}
use go_memoize.Tests.Setting.{
  go, DirectState, direct, cache, stale_cache, cache-Uses, stale_cache-Uses, empty, entry, holding,
  flying, aged, gone, seven,
}

get_or_compute-fresh_example :
    (s : DirectState) × (get_or_compute go cache background 3 seven holding
      ≡ (returned (7, none), after_read go cache hit 3 holding s))
    × Keeps AnyState entries holding.store s
unfolding state
get_or_compute-fresh_example =
    get_or_compute-fresh go cache direct (direct_store-StoreLaws 0) cache-Uses background 3 seven
      holding entry tt refl refl

get_or_compute-gives_example :
    (w' : World ℕ ℕ DirectState) × (get_or_compute go cache background 3 seven empty
      ≡ (returned (7, none), w'))
    × (w'.store.entries 3 ≡ some (entry_at go cache 7 3))
    × AnyState w'.store
    × Shrinks entries 3 empty.store w'.store
    × Landed go cache direct (direct_store-StoreLaws 0) cache-Uses background 3 seven empty w' 3
    × (w'.events ≡ noted go cache set_event 3 (noted go cache miss 3 empty.events))
unfolding state
get_or_compute-gives_example =
    get_or_compute-gives go cache direct (direct_store-StoreLaws 0) cache-Uses background 3 seven
      empty tt tt (λ e p f. cc) refl refl

-- a computation that fails, and one that panics
abbrev failing : Compute ℕ
failing ctx n = gives 5 (some (external 1))

abbrev crashing : Compute ℕ
crashing ctx n = throws 9

get_or_compute-waits_example :
    (w' : World ℕ ℕ DirectState) × (get_or_compute go cache background 3 seven flying
      ≡ (waits 0, w'))
    × Keeps AnyState entries flying.store w'.store
    × (w'.calls ≡ flying.calls)
    × (w'.flights ≡ flying.flights)
    × (w'.tasks ≡ flying.tasks)
get_or_compute-waits_example =
    get_or_compute-waits go cache direct (direct_store-StoreLaws 0) cache-Uses background 3 seven
      flying tt tt refl refl

get_or_compute-stale_example :
    (s : DirectState) × (get_or_compute go stale_cache background 3 seven aged ≡ (
      returned (7, none),
      launched go 3 seven
          (record aged { store = s; tick = 31; events = noted go stale_cache stale_hit 3 [] }),
    ))
    × Keeps AnyState entries aged.store s
unfolding state
get_or_compute-stale_example =
    get_or_compute-stale go stale_cache direct (direct_store-StoreLaws 0) stale_cache-Uses
      background 3 seven aged entry tt refl refl (inr (inl refl))

get_or_compute-fails_example :
    (w' : World ℕ ℕ DirectState) × (get_or_compute go stale_cache background 3 failing gone
      ≡ (returned (7, none), w'))
    × Keeps AnyState entries gone.store w'.store
    × Landed go stale_cache direct
        (direct_store-StoreLaws 0)
        stale_cache-Uses
        background
        3
        failing
        gone
        w'
        2
unfolding state
get_or_compute-fails_example =
    get_or_compute-fails go stale_cache direct (direct_store-StoreLaws 0) stale_cache-Uses
      background 3 failing gone {v = 5} {x = external 1} tt refl
      (unusable-NotFresh (some entry) 51 refl) refl refl

get_or_compute-throws_example :
    (w' : World ℕ ℕ DirectState) × (get_or_compute go cache background 3 crashing empty
      ≡ (panics 9, w'))
    × Keeps AnyState entries empty.store w'.store
    × Landed go cache direct (direct_store-StoreLaws 0) cache-Uses background 3 crashing empty w' 2
    × ((w'.heap 0).panic_value ≡ 9)
    × ((w'.heap 0).panicked ≡ true)
get_or_compute-throws_example =
    get_or_compute-throws go cache direct (direct_store-StoreLaws 0) cache-Uses background 3
      crashing empty {p = 9} tt tt (λ e p f. cc) refl refl

-- a goroutine that replaces the entry of key 3
abbrev task : Task ℕ ℕ
task = record { key = 3; flight = 0; compute = seven }

abbrev failing_task : Task ℕ ℕ
failing_task = record task { compute = failing }

run_refresh-gives_example :
    (w' : World ℕ ℕ DirectState) × (run_refresh go stale_cache task flying ≡ (returned tt, w'))
    × (w'.store.entries 3 ≡ some (entry_at go stale_cache 7 2))
    × AnyState w'.store
    × Shrinks entries 3 flying.store w'.store
    × Replaced go stale_cache direct
        (direct_store-StoreLaws 0)
        stale_cache-Uses
        task
        flying
        w'
        7
        none
run_refresh-gives_example =
    run_refresh-gives go stale_cache direct (direct_store-StoreLaws 0) stale_cache-Uses task flying
      {v = 7} tt refl

run_refresh-fails_example :
    (w' : World ℕ ℕ DirectState) × (run_refresh go stale_cache failing_task flying
      ≡ (returned tt, w'))
    × (w'.store ≡ flying.store)
    × Replaced go stale_cache direct
        (direct_store-StoreLaws 0)
        stale_cache-Uses
        failing_task
        flying
        w'
        5
        (some (external 1))
run_refresh-fails_example =
    run_refresh-fails go stale_cache direct (direct_store-StoreLaws 0) stale_cache-Uses failing_task
      flying {v = 5} {x = external 1} refl

wait-finish_flight_example :
    Finished go flying 0 3 (finish_flight go 3 0 7 none flying).1 (returned (7, none))
    × Finished go flying 0 3 (finish_panicked_flight go 3 0 9 flying).1 (panics 9)
wait-finish_flight_example = wait-finish_flight go flying 0 3 7 none 9 refl

entry_at-state_example :
    ((state (entry_at go stale_cache 7 1) 12 ≡ fresh) ↔ WithinTtl stale_cache 1 12)
    × ((state (entry_at go stale_cache 7 1) 12 ≡ stale)
        ↔ ((¬ WithinTtl stale_cache 1 12) × (0 < 5) × (12 ≤ 1 + 10 + 5)))
entry_at-state_example = entry_at-state go stale_cache 7 1 12 refl refl

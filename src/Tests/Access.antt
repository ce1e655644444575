-- ===== src/Tests/Access.antt =====
-- `Get`, `Set` and `Delete` at concrete worlds.
use go_memoize.Base.{ℕ, true, none, [], ◌≡◌, inr, arith}
use go_memoize.Store.{background}
use go_memoize.Store.Laws.{Keeps, Shrinks}
use go_memoize.Direct.Laws.{AnyState, entries, direct_store-StoreLaws}
use go_memoize.World.{World, returned, hit, set_event}
use go_memoize.Events.Noted.{noted}
use go_memoize.Engine.{set, get}
use go_memoize.Engine.Access.{get-set}
use go_memoize.Tests.Setting.{go, DirectState, direct, stale_cache, stale_cache-Uses, empty}

get-set_example :
    (w' w'' : World ℕ ℕ DirectState) × (set go stale_cache background 3 8 empty
      ≡ (returned none, w'))
    × (get go stale_cache background 3 w' ≡ (returned (8, true, none), w''))
    × (w''.events ≡ noted go stale_cache hit 3 (noted go stale_cache set_event 3 []))
    × Shrinks entries 3 empty.store w'.store
    × Keeps AnyState entries w'.store w''.store
get-set_example =
    get-set go stale_cache direct (direct_store-StoreLaws 0) stale_cache-Uses background 3 8 empty
      tt (inr (omega arith))

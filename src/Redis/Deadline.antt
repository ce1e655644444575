-- ===== src/Redis/Deadline.antt =====
-- `storageTTL` of adapters/redis/store.go against the states of an entry in stored.go.
use go_memoize.Base.{◌≤◌, ◌<◌, ◌≡◌, ◌≢◌, ◌⊎◌, arith}
use go_memoize.Base.Int.{pos}
use go_memoize.Time.{Time, add}
use go_memoize.Stored.{Stored, state, expired, fresh}
use go_memoize.Redis.{storage_ttl}

-- For an entry that is stored at `now`: while the cache can still use it, fresh or stale, the time
-- to live has no bound or is not over. Once a bound is over, the entry is expired. And there is no
-- bound only for an entry that stays fresh or has no deadline at all.
pub storage_ttl-state :
    {V : Type 0} (e : Stored V) (now t : Time)
    → now ≤ t
    → (state e t ≢ expired → (storage_ttl e now ≡ pos 0) ⊎ (t ≤ add now (storage_ttl e now)))
      × (storage_ttl e now ≢ pos 0 → add now (storage_ttl e now) < t → state e t ≡ expired)
      × (storage_ttl e now ≡ pos 0
          → (state e t ≡ fresh) ⊎ ((e.fresh_until ≡ 0) × (e.stale_until ≡ 0)))
unfolding storage_ttl state
storage_ttl-state e now t h =
    (λ usable. ground arith, λ bounded past. ground arith, λ unbounded. ground arith)

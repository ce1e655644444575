-- ===== src/Engine/Deadlines.antt =====
-- The deadlines that `Set` gives an entry, read back by the state of the entry.
use go_memoize.Base.{◌+◌, ◌≤◌, ◌<◌, true, ◌≡◌, ◌⊎◌, ◌↔◌, arith}
use go_memoize.Base.Int.{pos_part, neg_part}
use go_memoize.Time.{Time, add}
use go_memoize.Stored.{fresh, stale, state}
use go_memoize.Cache.{Cache}
use go_memoize.World.{GoTypes}
use go_memoize.Engine.{entry_at}

-- Still fresh: the cache has no expiration, or its ttl has not run out.
abbrev pub WithinTtl : {K V S : Type 0} → Cache K V S → Time → Time → Type 0
WithinTtl c now later = (c.no_expiration ≡ true) ⊎ (later ≤ add now c.ttl)

pub entry_at-value :
    {K V S : Type 0} (go : GoTypes K V) (c : Cache K V S) (v : V) (now : Time)
    → (entry_at go c v now).value ≡ v
entry_at-value go c v now = ground arith

module _ {K V S : Type 0} (go : GoTypes K V) (c : Cache K V S) (v : V) (now later : Time) where
  -- With a ttl and a stale ttl that are not negative, the entry that `Set` stores is fresh exactly
  -- while the cache has no expiration or its ttl has not run out, and stale exactly when that is
  -- over and a positive stale ttl has not run out.
  pub entry_at-state :
      neg_part c.ttl ≡ 0
      → neg_part c.stale_ttl ≡ 0
      → ((state (entry_at go c v now) later ≡ fresh) ↔ WithinTtl c now later)
        × ((state (entry_at go c v now) later ≡ stale) ↔ (
            (¬ WithinTtl c now later)
            × (0 < pos_part c.stale_ttl)
            × (later ≤ now + pos_part c.ttl + pos_part c.stale_ttl)))
  unfolding state
  entry_at-state n m = ground arith

  pub entry_at-fresh : WithinTtl c now later → state (entry_at go c v now) later ≡ fresh
  unfolding state
  entry_at-fresh h = ground arith

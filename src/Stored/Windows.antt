-- ===== src/Stored/Windows.antt =====
-- The three states of an entry as time windows.
use go_memoize.Base.{ℕ, ◌≤◌, ◌<◌, true, ◌≡◌, ◌⊎◌, ◌↔◌, arith}
use go_memoize.Time.{Time}
use go_memoize.Stored.{Stored, EntryState, expired, fresh, stale, state}

-- An entry is fresh when it never expires, and else up to and including the fresh deadline.
abbrev pub IsFresh : {V : Type 0} → Stored V → Time → Type 0
IsFresh s now = (s.no_expire ≡ true) ⊎ (now ≤ s.fresh_until)

-- An entry is within its stale window up to and including a stale deadline that is set.
abbrev pub InStaleWindow : {V : Type 0} → Stored V → Time → Type 0
InStaleWindow s now = (0 < s.stale_until) × (now ≤ s.stale_until)

pub fresh_of_IsFresh :
    {V : Type 0} (s : Stored V) (now : Time) → IsFresh s now → state s now ≡ fresh
unfolding state
fresh_of_IsFresh s now h = ground arith

pub IsFresh-of_fresh :
    {V : Type 0} (s : Stored V) (now : Time) → state s now ≡ fresh → IsFresh s now
unfolding state
IsFresh-of_fresh s now h = ground arith

-- The state of an entry at an instant, exactly: fresh if it never expires or the fresh deadline
-- has not passed, stale if not fresh and within a stale window that is set, else expired.
state_iff :
    {V : Type 0} (s : Stored V) (now : Time)
    → ((state s now ≡ fresh) ↔ IsFresh s now)
      × ((state s now ≡ stale) ↔ ((¬ IsFresh s now) × InStaleWindow s now))
      × ((state s now ≡ expired) ↔ ((¬ IsFresh s now) × (¬ InStaleWindow s now)))
unfolding state
state_iff s now = ground arith

abbrev pub rank : EntryState → ℕ
rank fresh = 0
rank stale = 1
rank expired = 2

-- An entry only ages: as time passes its state moves from fresh over stale to expired and never
-- back.
pub state_monotone :
    {V : Type 0} (s : Stored V) (now later : Time)
    → now ≤ later
    → rank (state s now) ≤ rank (state s later)
unfolding state
state_monotone s now later h = ground arith

-- ===== src/Stored.antt =====
-- stored.go: an entry of a store, and the state of an entry at an instant.
pub mod Windows
use Prim.Native.String.{String}
use go_memoize.Base.{ℕ, Bool, true, false, not, ◌&&◌, ◌||◌, List, [], if◌then◌else◌}
use go_memoize.Time.{Time, before, equal, is_zero}

pub record Stored (V : Type 0) : Type 0 where
  pub value : V
  pub created_at : Time
  pub fresh_until : Time
  pub stale_until : Time
  pub no_expire : Bool
  pub version : String
  pub tags : List String

pub data EntryState : Type 0 where
  expired fresh stale : EntryState

unfoldable pub state : {V : Type 0} → Stored V → Time → EntryState
state s now =
    if s.no_expire
    then fresh
    else if before now s.fresh_until || equal now s.fresh_until
    then fresh
    else if not (is_zero s.stale_until) && (before now s.stale_until || equal now s.stale_until)
    then stale
    else expired

-- `== entryFresh`
abbrev pub is_fresh : EntryState → Bool
is_fresh fresh = true
is_fresh _ = false

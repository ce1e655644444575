-- ===== src/Stores/Single.antt =====
-- stores/memory/single.go: a store for one entry, behind an atomic pointer. The pointer is written
-- only under the mutex, and each method reads it once.
pub mod Laws
use Prim.Native.String.{String}
use go_memoize.Base.{ℕ, ◌+◌, Bool, true, false, ◌||◌, Option, none, some, if◌then◌else◌, ite}
use go_memoize.Time.{Time, before, equal}
use go_memoize.Stored.{Stored}
use go_memoize.Store.{Store, Ctx, Found, Error, zero_stored}
use go_memoize.Stores.Sizes.{Sizes}
use go_memoize.Stores.Tags.{has_tag}

pub record SingleEntry (K V : Type 0) : Type 0 where
  pub key : K
  pub value : Stored V
  pub cost : ℕ

-- `entry` is what the pointer points to, if it is not nil.
pub record SingleStore (K V : Type 0) : Type 0 where
  pub entry : Option (SingleEntry K V)

-- `NewSingle`
unfoldable pub new_single : {K V : Type 0} → SingleStore K V
new_single = record { entry = none }

-- `Len`, `UsedBytes`
unfoldable pub len : {K V : Type 0} → SingleStore K V → ℕ
len s = elim s.entry [ none ↦ 0 | some _ ↦ 1 ]

unfoldable pub used_bytes : {K V : Type 0} → SingleStore K V → ℕ
used_bytes s = elim s.entry [ none ↦ 0 | some e ↦ e.cost ]

-- `DeleteByTag`
unfoldable pub delete_by_tag :
    {K V : Type 0} → String → SingleStore K V → Option Error × SingleStore K V
delete_by_tag tag s = elim s.entry [
  | none ↦ (none, s)
  | some e ↦ if has_tag e.value.tags tag then (none, record { entry = none }) else (none, s)
]

module _ {K V : Type 0} (go : Sizes K V) where
  open go use {key_eq, zero, key_size, stored_size}

  unfoldable pub single_entry_bytes : K → Stored V → ℕ
  single_entry_bytes key value = key_size + stored_size

  unfoldable pub load : K → SingleStore K V → Found (Stored V)
  load key s = elim s.entry [
    | none ↦ (zero_stored zero, false, none)
    | some e ↦ ite (key_eq e.key key) (e.value, true, none) (zero_stored zero, false, none)
  ]

  -- `Get` and `Peek`
  unfoldable pub get : Ctx → K → SingleStore K V → Found (Stored V) × SingleStore K V
  unfolding load
  get ctx key s = (load key s, s)

  unfoldable pub peek_fresh_value : Ctx → K → Time → SingleStore K V → Found V × SingleStore K V
  peek_fresh_value ctx key now s = elim s.entry [
    | none ↦ ((zero, false, none), s)
    | some e ↦
        let entry = e.value in
        let fresh =
          entry.no_expire || (before now entry.fresh_until || equal now entry.fresh_until) in
        ite (key_eq e.key key)
          (if fresh then ((entry.value, true, none), s) else ((zero, false, none), s))
          ((zero, false, none), s)
  ]

  unfoldable pub set : Ctx → K → Stored V → SingleStore K V → Option Error × SingleStore K V
  unfolding single_entry_bytes
  set ctx key value s = (
    none,
    record {
      entry = some (record { key = key; value = value; cost = single_entry_bytes key value });
    },
  )

  unfoldable pub delete : Ctx → K → SingleStore K V → Option Error × SingleStore K V
  delete ctx key s = elim s.entry [
    | none ↦ (none, s)
    | some e ↦ ite (key_eq e.key key) (none, record { entry = none }) (none, s)
  ]

  unfoldable pub clear : Ctx → SingleStore K V → Option Error × SingleStore K V
  clear ctx s = (none, record { entry = none })

  -- a `SingleStore` as a `Store`, with both optional methods
  unfoldable pub single_store : Store K V (SingleStore K V)
  unfolding get peek_fresh_value set delete clear
  single_store = record {
    get = get;
    set = set;
    delete = delete;
    clear = clear;
    peek = some get;
    peek_fresh_value = some peek_fresh_value;
  }

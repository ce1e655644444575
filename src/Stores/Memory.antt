-- ===== src/Stores/Memory.antt =====
-- stores/memory/store.go: a bounded store that drops the least recently used entry. Its entries
-- stand without gaps in an array; indices in it link them to a ring, in the order of their use.
pub mod Methods
pub mod Ring
pub mod Links
pub mod Linked
pub mod Valid
pub mod Removal
pub mod Removes
pub mod Evict
pub mod Loops
pub mod Moves
pub mod Reads
pub mod Replaces
pub mod Inserts
pub mod Writes
pub mod ByTag
pub mod Laws
pub mod Reached
pub mod Recency
pub mod Capacity
use Prim.Native.String.{String}
use go_memoize.Base.{
  ℕ, zero, suc, ◌+◌, ◌-◌, ◌%◌, Bool, true, false, not, ◌&&◌, ◌||◌, Option, none, some, ◌==◌, ltb,
  leb, if◌then◌else◌, update, ℕ_discrete,
}
use go_memoize.Hash.{u64_mod}
use go_memoize.Time.{Time, before, equal}
use go_memoize.Stored.{Stored}
use go_memoize.Store.{Store, Ctx, Found, Error, external, zero_stored}
use go_memoize.Stores.Sizes.{Sizes}
use go_memoize.Stores.Tags.{has_tag}

-- 2 ^ 32, and `emptyIndex`
abbrev pub u32_mod : ℕ
u32_mod = 4294967296

abbrev pub empty_index : ℕ
empty_index = 4294967295

pub record Element (K V : Type 0) : Type 0 where
  pub key : K
  pub value : Stored V
  pub cost : ℕ
  pub next : ℕ
  pub prev : ℕ

-- `Store[K, V]`, with two of its options. The array is as long as `cap`, and `max_bytes` is zero
-- when there is no bound. The bytes in use are never negative, as the theorems show.
pub record MemoryStore (K V : Type 0) : Type 0 where
  pub index : K → Option ℕ
  pub elements : ℕ → Element K V
  pub head : ℕ
  pub len : ℕ
  pub cap : ℕ
  pub used_bytes : ℕ
  pub get_hits : ℕ
  pub get_recency_sample : ℕ
  pub max_bytes : ℕ

-- A run on a store; `none` is a panic, an index out of the range of the array, or a loop without
-- fuel left.
abbrev pub M : Type 0 → Type 0 → Type 0 → Type 0
M K V A = MemoryStore K V → Option (A × MemoryStore K V)

module _ {K V : Type 0} where
  abbrev pub pure : {A : Type 0} → A → M K V A
  pure a s = some (a, s)

  abbrev pub and_then :
      {A B : Type 0} → Option (A × MemoryStore K V) → (A → M K V B) → Option (B × MemoryStore K V)
  and_then none f = none
  and_then (some (a, s)) f = f a s

  infixl 5 ◌>>=◌ ◌>>◌
  abbrev pub ◌>>=◌ : {A B : Type 0} → M K V A → (A → M K V B) → M K V B
  ◌>>=◌ m f s = and_then (m s) f

  abbrev pub ◌>>◌ : {B : Type 0} → M K V (Unit {0}) → M K V B → M K V B
  m >> k = m >>= λ _. k

  abbrev pub this : M K V (MemoryStore K V)
  this s = some (s, s)

  -- a read of `s.elements[pos]`, and a change of it
  unfoldable pub load : ℕ → M K V (Element K V)
  load pos s = if ltb pos s.cap then some (s.elements pos, s) else none

  unfoldable pub modify : ℕ → (Element K V → Element K V) → M K V (Unit {0})
  modify pos f s =
      if ltb pos s.cap
      then some (tt, record s { elements = update ℕ_discrete s.elements pos (f (s.elements pos)) })
      else none

  abbrev pub set_next : ℕ → ℕ → M K V (Unit {0})
  set_next pos n = modify pos (λ e. record e { next = n })

  abbrev pub set_prev : ℕ → ℕ → M K V (Unit {0})
  set_prev pos n = modify pos (λ e. record e { prev = n })

  abbrev pub set_head : ℕ → M K V (Unit {0})
  set_head pos s = some (tt, record s { head = pos })

  unfoldable pub link_front : ℕ → M K V (Unit {0})
  link_front pos s =
      (if s.head == empty_index then (do set_head pos; set_next pos pos; set_prev pos pos) else (do
        h ← load s.head
        let tail = h.next
        set_next pos tail
        set_prev pos s.head
        set_prev tail pos
        set_next s.head pos
        set_head pos))
        s

  unfoldable pub unlink_lru : ℕ → M K V (Unit {0})
  unlink_lru pos = do
    e ← load pos
    if e.next == pos then set_head empty_index else (do
      set_prev e.next e.prev
      set_next e.prev e.next
      s ← this
      if s.head == pos then set_head e.prev else pure tt)

  unfoldable pub move_to_front : ℕ → M K V (Unit {0})
  move_to_front pos s =
      (if s.head == pos || s.head == empty_index
          then pure tt
          else (do unlink_lru pos; link_front pos))
        s

  -- `moved` is a pointer into the array: it sees what the first half writes.
  unfoldable pub repoint_moved : ℕ → ℕ → M K V (Unit {0})
  repoint_moved old_pos new_pos = do
    moved ← load new_pos
    if moved.next == old_pos then set_next new_pos new_pos else set_prev moved.next new_pos
    moved ← load new_pos
    if moved.prev == old_pos then set_prev new_pos new_pos else set_next moved.prev new_pos
    s ← this
    if s.head == old_pos then set_head new_pos else pure tt

  -- `refreshOnGet`
  unfoldable pub refresh_on_get : M K V Bool
  refresh_on_get s =
      if leb s.get_recency_sample 1
      then some (true, s)
      else (let hits = (s.get_hits + 1) % u64_mod in
          some (hits % s.get_recency_sample == 0, record s { get_hits = hits }))

module _ {K V : Type 0} (go : Sizes K V) where
  open go use {key_eq, zero_key, key_size, stored_size}

  -- `entryBytes`
  abbrev pub entry_bytes : K → Stored V → ℕ
  entry_bytes key value = key_size + stored_size

  -- `element[K, V]{}`
  abbrev pub zero_element : Element K V
  zero_element = record {
    key = zero_key;
    value = zero_stored go.zero;
    cost = 0;
    next = 0;
    prev = 0;
  }

  abbrev pub set_index : K → Option ℕ → M K V (Unit {0})
  set_index key o s = some (tt, record s { index = update key_eq s.index key o })

  unfoldable pub remove_at : ℕ → M K V (Unit {0})
  remove_at pos = do
    removed ← load pos
    (λ s. some (tt, record s { used_bytes = s.used_bytes - removed.cost }))
    unlink_lru pos
    set_index removed.key none
    s ← this
    let last = (s.len + u32_mod - 1) % u32_mod
    (λ s. some (tt, record s { len = last }))
    if pos == last then pure tt else (do
      moved ← load last
      modify pos (λ _. moved)
      set_index moved.key (some pos)
      repoint_moved last pos)
    modify last (λ _. zero_element)

  -- the removal of the least recently used entry
  unfoldable pub remove_tail : M K V (Unit {0})
  remove_tail s = (do h ← load s.head; remove_at h.next) s

  -- the loop that makes room for a new entry, on fuel: without fuel left it gives none
  unfoldable pub make_room : ℕ → ℕ → M K V (Unit {0})
  make_room zero cost s = none
  make_room (suc fuel) cost s =
      elim (s.len == s.cap
        || (ltb 0 s.max_bytes && (ltb s.max_bytes (s.used_bytes + cost) && ltb 0 s.len))) [
          | true ↦ (remove_tail >> make_room fuel cost) s
          | false ↦ some (tt, s)
        ]

  -- `enforceBytes`, on fuel
  unfoldable pub enforce_bytes : ℕ → M K V (Unit {0})
  enforce_bytes zero s = none
  enforce_bytes (suc fuel) s =
      elim (ltb 0 s.max_bytes && (ltb s.max_bytes s.used_bytes && ltb 1 s.len)) [
        | true ↦ (remove_tail >> enforce_bytes fuel) s
        | false ↦ some (tt, s)
      ]

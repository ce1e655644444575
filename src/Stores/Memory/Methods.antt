-- ===== src/Stores/Memory/Methods.antt =====
-- stores/memory/store.go: `New` and the exported methods. The mutex is held for a whole method.
use Prim.Native.String.{String}
use go_memoize.Base.{
  ℕ, zero, suc, ◌+◌, ◌-◌, ◌%◌, true, false, ◌||◌, Option, none, some, ◌==◌, ltb, if◌then◌else◌,
}
use go_memoize.Time.{Time, before, equal}
use go_memoize.Stored.{Stored}
use go_memoize.Store.{Store, Found, Error, external, zero_stored}
use go_memoize.Stores.Sizes.{Sizes}
use go_memoize.Stores.Tags.{has_tag}
use go_memoize.Stores.Memory.{
  u32_mod, empty_index, MemoryStore, M, pure, ◌>>=◌, ◌>>◌, this, load, modify, set_index,
  link_front, move_to_front, refresh_on_get, entry_bytes, zero_element, remove_at, make_room,
  enforce_bytes,
}

module _ {K V : Type 0} (go : Sizes K V) where
  -- `New`, by its capacity and its applied options; `none` is its panic.
  unfoldable pub new_memory : ℕ → ℕ → ℕ → Option (MemoryStore K V)
  new_memory capacity get_recency_sample max_bytes =
      if capacity == 0
      then none
      else some (record {
        index = λ _. none;
        elements = λ _. zero_element go;
        head = empty_index;
        len = 0;
        cap = capacity % u32_mod;
        used_bytes = 0;
        get_hits = 0;
        get_recency_sample = if get_recency_sample == 0 then 1 else get_recency_sample;
        max_bytes = max_bytes;
      })

  -- `if s.refreshOnGet() { s.moveToFront(pos) }`
  unfoldable pub touch : ℕ → M K V (Unit {0})
  touch pos = do refreshes ← refresh_on_get; if refreshes then move_to_front pos else pure tt

  unfoldable pub get : K → M K V (Found (Stored V))
  get key s = elim (s.index key) [
    | none ↦ some ((zero_stored go.zero, false, none), s)
    | some pos ↦ (do touch pos; e ← load pos; pure (e.value, true, none)) s
  ]

  unfoldable pub peek : K → M K V (Found (Stored V))
  peek key s = elim (s.index key) [
    | none ↦ some ((zero_stored go.zero, false, none), s)
    | some pos ↦ (do e ← load pos; pure (e.value, true, none)) s
  ]

  -- `entry` points into the array: its value is read after the ring has changed.
  unfoldable pub peek_fresh_value : K → Time → M K V (Found V)
  peek_fresh_value key now s = elim (s.index key) [
    | none ↦ some ((go.zero, false, none), s)
    | some pos ↦
        (do
          e ← load pos
          if e.value.no_expire || (before now e.value.fresh_until || equal now e.value.fresh_until)
              then (do touch pos; e ← load pos; pure (e.value.value, true, none))
              else pure (go.zero, false, none))
          s
  ]

  -- the first half of `Set`: the key has an entry
  unfoldable pub replace : K → Stored V → ℕ → M K V (Unit {0})
  replace key value pos = do
    let cost = entry_bytes go key value
    e ← load pos
    (λ s. some (tt, record s { used_bytes = s.used_bytes + cost - e.cost }))
    modify pos (λ e. record e { value = value; cost = cost })
    move_to_front pos
    s ← this
    enforce_bytes go (suc s.len)

  -- the second half: room is made, and the entry is appended
  unfoldable pub insert : K → Stored V → M K V (Unit {0})
  insert key value = do
    let cost = entry_bytes go key value
    s ← this
    make_room go (suc s.len) cost
    s ← this
    let pos = s.len
    (λ s. some (tt, record s { len = (s.len + 1) % u32_mod }))
    modify pos (λ _. record {
      key = key;
      value = value;
      cost = cost;
      next = empty_index;
      prev = empty_index;
    })
    set_index go key (some pos)
    link_front pos
    (λ s. some (tt, record s { used_bytes = s.used_bytes + cost }))

  unfoldable pub set : K → Stored V → M K V (Unit {0})
  set key value s = elim (s.index key) [
    | some pos ↦ replace key value pos s
    | none ↦ insert key value s
  ]

  unfoldable pub delete : K → M K V (Unit {0})
  delete key s = elim (s.index key) [ some pos ↦ remove_at go pos s | none ↦ some (tt, s) ]

  -- the loop of `Clear`, by the rounds that are left
  unfoldable pub wipe : ℕ → ℕ → M K V (Unit {0})
  wipe zero i s = some (tt, s)
  wipe (suc rounds) i s = (modify i (λ _. zero_element go) >> wipe rounds (i + 1)) s

  unfoldable pub clear : M K V (Unit {0})
  clear = do
    s ← this
    wipe s.len 0
    (λ s. some (tt, record s { index = λ _. none; head = empty_index; len = 0; used_bytes = 0 }))

  -- the loop of `DeleteByTag`, on fuel: the last entry moves to where one is removed
  unfoldable pub delete_from : ℕ → String → ℕ → M K V (Unit {0})
  delete_from zero tag pos s = none
  delete_from (suc fuel) tag pos s = elim (ltb pos s.len) [
    | false ↦ some (tt, s)
    | true ↦
        (do
          e ← load pos
          (λ s. elim (has_tag e.value.tags tag) [
            | true ↦ (remove_at go pos >> delete_from fuel tag pos) s
            | false ↦ delete_from fuel tag (pos + 1) s
          ]))
          s
  ]

  unfoldable pub delete_by_tag : String → M K V (Unit {0})
  delete_by_tag tag = do s ← this; delete_from (suc s.len) tag 0

  -- A method as a function of the store. A panic, which the theorems exclude for valid stores,
  -- shows as an error and leaves the store.
  abbrev pub total : {A : Type 0} → A → M K V A → MemoryStore K V → A × MemoryStore K V
  total fault m s = elim (m s) [ some r ↦ r | none ↦ (fault, s) ]

  abbrev pub written : M K V (Unit {0}) → M K V (Option Error)
  written m = m >> pure none

  -- a `*memory.Store` as a `Store`, with both optional methods
  unfoldable pub memory_store : Store K V (MemoryStore K V)
  memory_store =
      let panic : Error = external 0 in
      record {
        get = λ ctx key. total (zero_stored go.zero, false, some panic) (get key);
        set = λ ctx key value. total (some panic) (written (set key value));
        delete = λ ctx key. total (some panic) (written (delete key));
        clear = λ ctx. total (some panic) (written clear);
        peek = some (λ ctx key. total (zero_stored go.zero, false, some panic) (peek key));
        peek_fresh_value =
            some (λ ctx key now. total (go.zero, false, some panic) (peek_fresh_value key now));
      }

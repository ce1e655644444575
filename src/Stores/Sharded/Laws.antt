-- ===== src/Stores/Sharded/Laws.antt =====
-- The sharded store meets the contract of a store.
use mathlib.Core.Path.{subst}
use mathlib.Core.Option.{some-injective}
use go_memoize.Base.{ℕ, ◌≤◌, ◌<◌, Option, none, some, ◌≡◌, ◌⊎◌, inl, inr, ◌∙◌, refl, sym, ap, arith}
use go_memoize.Hash.{Key}
use go_memoize.Stored.{Stored}
use go_memoize.Store.Laws.{StoreLaws, Keeps, found, fresh_found}
use go_memoize.Stores.Sizes.{Sizes}
use go_memoize.Stores.Memory.{MemoryStore, M}
use go_memoize.Stores.Memory.Evict.{entries}
use go_memoize.Stores.Memory.Reads.{peek-ok, get-ok, peek_fresh_value-ok}
use go_memoize.Stores.Memory.Writes.{set-ok, delete-ok, clear-ok}
use go_memoize.Stores.Memory.Methods.{written}
use go_memoize.Stores.Memory.Methods as one
use go_memoize.Stores.Memory.Laws.{IsHeld, Looked-Keeps}
use go_memoize.Stores.Sharded.{ShardedStore}
use go_memoize.Stores.Sharded.Methods.{on_shard, clear, settled, sharded_store}
use go_memoize.Stores.Sharded.Shards.{
  IsSharded, IsSharded-replaced, replaced, Supported, slot, slot-lt, entries_in, on_shard-ok,
  entries_in-replaced, each_shard-ok,
}

module _ {K V : Type 0} (go : Sizes K V) (key_of : K → Key) (supported : Supported key_of) where
  abbrev view : ShardedStore K V → K → Option (Stored V)
  view = entries_in go key_of supported

  abbrev at : ShardedStore K V → K → ℕ
  at = slot go key_of supported

  module _ (s : ShardedStore K V) (v : IsSharded go s) (k : K) (t : MemoryStore K V)
      (h : IsHeld go t) where
    abbrev after : ShardedStore K V
    after = replaced (at s k) t s

    after-IsSharded : IsSharded go after
    after-IsSharded = IsSharded-replaced go s (at s k) t v h

    -- what a step on the shard of `k` leaves under `k`, and under the other keys
    after_self : view after k ≡ entries t k
    after_self = elim (entries_in-replaced go key_of supported s (at s k) t k) [
      | inl (_, e) ↦ e
      | inr (n, _) ↦ absurd (n refl)
    ]

    after_other :
        (j : K)
        → (view after j ≡ view s j)
          ⊎ ((view after j ≡ entries t j) × (entries (s.shards (at s k)) j ≡ view s j))
    after_other j = elim (entries_in-replaced go key_of supported s (at s k) t j) [
      | inl (same_slot, e) ↦ inr (e, ap (λ q. entries (s.shards q) j) (sym same_slot))
      | inr (_, e) ↦ inl e
    ]

    after_kept : (j : K) → entries t j ≡ entries (s.shards (at s k)) j → view after j ≡ view s j
    after_kept j same = elim (after_other j) [ inl e ↦ e | inr (e, there) ↦ e ∙ same ∙ there ]

    after-Keeps :
        Keeps (IsHeld go) entries (s.shards (at s k)) t → Keeps (IsSharded go) view s after
    after-Keeps keeps = record { valid = after-IsSharded; same = λ j. after_kept j (keeps.same j) }

  module _ {A : Type 0} (s : ShardedStore K V) (v : IsSharded go s) (k : K) (m : M K V A) (a : A)
      (t : MemoryStore K V) (run : m (s.shards (at s k)) ≡ some (a, t)) where
    settles : on_shard go key_of k m s ≡ some (a, replaced (at s k) t s)
    settles = on_shard-ok go key_of supported s k m a t v run

  abbrev held_at : (s : ShardedStore K V) → IsSharded go s → (k : K) → IsHeld go (s.shards (at s k))
  held_at s v k = v.held (at s k) (slot-lt go key_of supported s k v)

  writes :
      (m : M K V (Unit {0})) (s t : MemoryStore K V)
      → m s ≡ some (tt, t)
      → written go m s ≡ some (none, t)
  writes m s t run = rw (written, run) refl

  all_cleared :
      (s : ShardedStore K V) (v : IsSharded go s)
      → (u : ShardedStore K V) × (clear go key_of s ≡ some (none, u))
        × (IsSharded go u
            × (u.mask ≡ s.mask)
            × ((q : ℕ) → q < 0 → u.shards q ≡ s.shards q)
            × ((q : ℕ) → 0 ≤ q → q < s.count → (j : K) → entries (u.shards q) j ≡ none))
  unfolding clear
  all_cleared s v =
      each_shard-ok go (written go (one.clear go)) (λ s t. (j : K) → entries t j ≡ none)
        (λ s (stamp, now, h).
          let (t, run, valid, less, gone) = clear-ok go s h in
          (t, writes (one.clear go) s t run, (stamp, now, valid), gone))
        s.count 0 s v (omega arith)

  -- When all its keys are of a supported type, the sharded store implements the interface of a
  -- store over the entries that the shards hold under the keys that hash to them: lookups answer
  -- with the entry last set that was not evicted, `PeekFreshValue` exactly if it is fresh then,
  -- reads keep every entry, `Set` keeps or evicts the entries of other keys, `Delete` changes its
  -- key and no other, `Clear` all keys, no call of a valid store panics or returns an error, and
  -- all keep it valid.
  pub sharded_store-StoreLaws :
      StoreLaws go.zero (sharded_store go key_of) (IsSharded go) (entries_in go key_of supported)
  unfolding sharded_store clear
  sharded_store-StoreLaws = record {
    get-view = λ ctx k s v.
        let (stamp, now, h) = held_at s v k in
        let (t, run, same) = get-ok go h k in
        let keeps = Looked-Keeps go h k t same in
        rw (settled, settles s v k _ _ t run) (refl, after-Keeps s v k t keeps.valid keeps);
    peek-view = λ ask ctx k s e v.
        let (stamp, now, h) = held_at s v k in
        let keeps : Keeps (IsHeld go) entries (s.shards (at s k)) (s.shards (at s k)) = record {
          valid = held_at s v k;
          same = λ j. refl;
        } in
        subst
          (λ ask.
            ((ask ctx k s).0 ≡ found go.zero (view s k))
            × Keeps (IsSharded go) view s (ask ctx k s).1)
          (some-injective _ _ e)
          (rw (settled, settles s v k _ _ _ (peek-ok go h k))
            (refl, after-Keeps s v k _ keeps.valid keeps));
    peek_fresh_value-view = λ ask ctx k now s e v.
        let (stamp, last, h) = held_at s v k in
        let (t, run, same) = peek_fresh_value-ok go h k now in
        let keeps = Looked-Keeps go h k t same in
        subst
          (λ ask.
            ((ask ctx k now s).0 ≡ fresh_found go.zero (view s k) now)
            × Keeps (IsSharded go) view s (ask ctx k now s).1)
          (some-injective _ _ e)
          (rw (settled, settles s v k _ _ t run) (refl, after-Keeps s v k t keeps.valid keeps));
    set-view = λ ctx k e s v.
        let (stamp, now, h) = held_at s v k in
        let (t, run, valid, w) = set-ok go (s.shards (at s k)) h k e in
        let held : IsHeld go t = (_, _, valid) in
        rw (settled, settles s v k _ _ t (writes (one.set go k e) _ t run))
          (
            refl,
            after-IsSharded s v k t held,
            after_self s v k t held ∙ w.written,
            λ j n. elim (after_other s v k t held j) [
              | inl same ↦ inr same
              | inr (e', there) ↦ elim (w.entry j n) [
                | inl kept ↦ inr (e' ∙ kept ∙ there)
                | inr (gone, _) ↦ inl (e' ∙ gone)
              ]
            ],
          );
    delete-view = λ ctx k s v.
        let (stamp, now, h) = held_at s v k in
        let (t, run, valid, less, gone, kept) = delete-ok go (s.shards (at s k)) h k in
        let held : IsHeld go t = (_, _, valid) in
        rw (settled, settles s v k _ _ t (writes (one.delete go k) _ t run))
          (
            refl,
            after-IsSharded s v k t held,
            after_self s v k t held ∙ gone,
            λ j n. after_kept s v k t held j (kept j n),
          );
    clear-view = λ ctx s v.
        let (u, run, (valid, mask, before, cleared)) = all_cleared s v in
        rw (settled, run)
          (
            refl,
            valid,
            λ j.
                cleared (at u j) (omega arith)
                  (omega
                    (arith, valid.masked, v.masked, mask, slot-lt go key_of supported u j valid))
                  j,
          );
  }

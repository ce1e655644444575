-- ===== src/Direct.antt =====
-- direct_store.go: the unbounded map behind the memoized functions, keyed by hashes.
pub mod Laws
use go_memoize.Base.{
  ℕ, Bool, true, false, not, ◌||◌, Option, none, some, if◌then◌else◌, update, ℕ_discrete,
}
use go_memoize.Time.{Time}
use go_memoize.Stored.{Stored, state, is_fresh}
use go_memoize.Store.{Store, Ctx, Found, Error, zero_stored}

-- `map[uint64]Stored[V]`
pub record DirectStore (V : Type 0) : Type 0 where
  pub entries : ℕ → Option (Stored V)

module _ {V : Type 0} (zero : V) where
  unfoldable pub new_direct_store : DirectStore V
  new_direct_store = record { entries = λ _. none }

  unfoldable pub get : ℕ → DirectStore V → Found (Stored V) × DirectStore V
  get key s = elim (s.entries key) [
    | some value ↦ ((value, true, none), s)
    | none ↦ ((zero_stored zero, false, none), s)
  ]

  unfoldable pub peek_fresh_value : ℕ → Time → DirectStore V → Found V × DirectStore V
  peek_fresh_value key now s = elim (s.entries key) [
    | some entry ↦
        if not (is_fresh (state entry now))
        then ((zero, false, none), s)
        else ((entry.value, true, none), s)
    | none ↦ ((zero, false, none), s)
  ]

  unfoldable pub set : ℕ → Stored V → DirectStore V → Option Error × DirectStore V
  set key value s = (none, record { entries = update ℕ_discrete s.entries key (some value) })

  unfoldable pub delete : ℕ → DirectStore V → Option Error × DirectStore V
  delete key s = (none, record { entries = update ℕ_discrete s.entries key none })

  unfoldable pub clear : DirectStore V → Option Error × DirectStore V
  clear s = (none, record { entries = λ _. none })

  -- a `directStore` as a `Store[uint64, V]`; it has no `Peek`
  unfoldable pub direct_store : Store ℕ V (DirectStore V)
  unfolding get peek_fresh_value set delete clear
  direct_store = record {
    get = λ _. get;
    set = λ _. set;
    delete = λ _. delete;
    clear = λ _. clear;
    peek = none;
    peek_fresh_value = some (λ _. peek_fresh_value);
  }

-- ===== src/Tests/Memory.antt =====
-- The memory store at concrete entries.
use go_memoize.Base.{
  ℕ, true, none, some, [], ◌∷◌, List, ◌≡◌, ◌≢◌, ◌⊎◌, refl, arith, ite, ℕ_discrete,
}
use go_memoize.Stored.{Stored}
use go_memoize.Store.{zero_stored}
use go_memoize.Store.Laws.{StoreLaws}
use go_memoize.Stores.Sizes.{Sizes}
use go_memoize.Stores.Memory.{MemoryStore}
use go_memoize.Stores.Memory.Methods.{new_memory, get, set, delete_by_tag, memory_store}
use go_memoize.Stores.Memory.Valid.{IsValid, stamped}
use go_memoize.Stores.Memory.Evict.{entries, Shrunk}
use go_memoize.Stores.Memory.Replaces.{Written}
use go_memoize.Stores.Memory.Writes.{set-ok}
use go_memoize.Stores.Memory.ByTag.{untagged, delete_by_tag-ok}
use go_memoize.Stores.Memory.Laws.{IsHeld, memory_store-StoreLaws}
use go_memoize.Stores.Memory.Reached.{
  Call, got, wrote, deleted, run_calls, InBounds, run_calls-InBounds,
}
use go_memoize.Stores.Memory.Recency.{set-get_recent}

abbrev go : Sizes ℕ ℕ
go = record { key_eq = ℕ_discrete; zero_key = 0; zero = 0; key_size = 8; stored_size = 120 }

abbrev tagged : Stored ℕ
tagged = record (zero_stored 0) { value = 7; tags = "new" ∷ [] }

abbrev plain : Stored ℕ
plain = record (zero_stored 0) { value = 9 }

-- a full store of two entries: key 3, then key 4 was used
abbrev two : MemoryStore ℕ ℕ
two = record {
  index = λ k. ite (ℕ_discrete k 3) (some 0) (ite (ℕ_discrete k 4) (some 1) none);
  elements = λ q.
      ite (ℕ_discrete q 0) (record { key = 3; value = tagged; cost = 128; next = 1; prev = 1 })
        (record { key = 4; value = plain; cost = 128; next = 0; prev = 0 });
  head = 1;
  len = 2;
  cap = 2;
  used_bytes = 256;
  get_hits = 0;
  get_recency_sample = 1;
  max_bytes = 300;
}

abbrev order : ℕ → ℕ
order k = ite (ℕ_discrete k 4) 1 0

two-IsValid : IsValid go order 2 two
two-IsValid = record {
  cap_pos = omega arith;
  cap-lt = omega arith;
  len-le = omega arith;
  head_empty = λ e. absurd (omega arith);
  head_in = λ i. omega arith;
  ring = record {
    next_in = λ q i. ground arith;
    prev_in = λ q i. ground arith;
    next-prev = λ q i. ground arith;
    prev-next = λ q i. ground arith;
    older = λ q i n. ground arith;
  };
  recent = λ q i. ground arith;
  indexed = λ q i. ground arith;
  index_in = λ k q e. ground arith;
  index_key = λ k q e. ground arith;
  costs = λ q i. ground arith;
  used = refl;
}

memory_store-StoreLaws_example : StoreLaws {V = ℕ} 0 (memory_store go) (IsHeld go) entries
memory_store-StoreLaws_example = memory_store-StoreLaws go

set-ok_example :
    (t : MemoryStore ℕ ℕ) × (set go 5 plain two ≡ some (tt, t))
    × IsValid go (stamped go order 2 5) 3 t
    × Written order 5 plain two t
set-ok_example = set-ok go two two-IsValid 5 plain

set-get_recent_example :
    (u : MemoryStore ℕ ℕ) × (t : MemoryStore ℕ ℕ) × (get go 3 two ≡ some ((tagged, true, none), u))
    × (set go 5 plain u ≡ some (tt, t))
    × (entries t 5 ≡ some plain)
    × ((entries t 3 ≡ some tagged) ⊎ ((i : ℕ) → i ≢ 5 → entries t i ≡ none))
unfolding ℕ_discrete
set-get_recent_example = set-get_recent go two 5 3 plain tagged two-IsValid refl (omega arith) refl

delete_by_tag-ok_example :
    (t : MemoryStore ℕ ℕ) × (delete_by_tag go "new" two ≡ some (tt, t))
    × IsValid go order 2 t
    × Shrunk two t
    × ((k : ℕ) → entries t k ≡ untagged "new" (entries two k))
delete_by_tag-ok_example = delete_by_tag-ok go "new" two two-IsValid

abbrev some_calls : List (Call ℕ ℕ)
some_calls = wrote 3 tagged ∷ wrote 4 plain ∷ got 3 ∷ wrote 5 plain ∷ deleted 4 ∷ []

run_calls-InBounds_example :
    (s : MemoryStore ℕ ℕ) × (t : MemoryStore ℕ ℕ) × (new_memory go 2 0 300 ≡ some s)
    × (run_calls go some_calls s ≡ some (tt, t))
    × InBounds go 2 300 t
run_calls-InBounds_example = run_calls-InBounds go 2 0 300 some_calls (omega arith)

-- ===== src/Tests/Single.antt =====
-- The single-entry store at a concrete entry.
use go_memoize.Base.{ℕ, some, [], ◌∷◌, ℕ_discrete}
use go_memoize.Stored.{Stored}
use go_memoize.Store.{zero_stored}
use go_memoize.Store.Laws.{SlotLaws}
use go_memoize.Stores.Sizes.{Sizes}
use go_memoize.Stores.Single.{SingleStore, single_store}
use go_memoize.Stores.Single.Laws.{AnyState, entries, single_store-SlotLaws}

abbrev go : Sizes ℕ ℕ
go = record { key_eq = ℕ_discrete; zero_key = 0; zero = 0; key_size = 8; stored_size = 120 }

abbrev tagged : Stored ℕ
tagged = record (zero_stored 0) { value = 7; tags = "new" ∷ [] }

abbrev holding : SingleStore ℕ ℕ
holding = record { entry = some (record { key = 3; value = tagged; cost = 128 }) }

single_store-SlotLaws_example : SlotLaws {V = ℕ} 0 (single_store go) AnyState (entries go)
single_store-SlotLaws_example = single_store-SlotLaws go

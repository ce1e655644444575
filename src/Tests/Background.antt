-- ===== src/Tests/Background.antt =====
-- A value that is kept up to date, and written through to a single-entry store.
use Prim.Native.String.{String}
use go_memoize.Base.{ℕ, zero, suc, none, some, List, [], ◌∷◌, ◌≡◌, inr, refl}
use go_memoize.Base.Int.{pos}
use go_memoize.Base.Strings.{string_discrete}
use go_memoize.Store.{background, external}
use go_memoize.Stores.Sizes.{Sizes}
use go_memoize.Stores.Single.{SingleStore, single_store}
use go_memoize.Stores.Single.Laws.{AnyState, entries, single_store-StoreLaws}
use go_memoize.RefreshLoop.{Signal, tick, done, Load}
use go_memoize.Loader.Latest.{latest_value, errors, loads}
use go_memoize.Background.{KeepState, get, keep}
use go_memoize.Background.Kept.{written_entry, through_to, keep-Kept}

abbrev go : Sizes String ℕ
go = record { key_eq = string_discrete; zero_key = ""; zero = 0; key_size = 16; stored_size = 120 }

abbrev fn : Load ℕ
fn zero = (5, none)
fn (suc zero) = (0, some (external 1))
fn (suc (suc n)) = (7, none)

abbrev signals : List Signal
signals = tick ∷ tick ∷ done ∷ []

abbrev blank : KeepState ℕ (SingleStore String ℕ)
blank = record { current = none; refreshed = []; failed = []; store = record { entry = none } }

keep-Kept_example :
    (t : KeepState ℕ (SingleStore String ℕ)) × (keep 0 background fn
        (pos 1000)
        (through_to (single_store go) "rates")
        signals
        blank
      ≡ inr (some t))
    × ((latest_value fn (loads (pos 1000) signals) ≡ some (get 0 t))
        × (entries go t.store "rates" ≡ some (written_entry 0 (get 0 t)))
        × (t.failed ≡ errors fn (loads (pos 1000) signals)))
keep-Kept_example =
    keep-Kept 0 (single_store go) AnyState (entries go) (single_store-StoreLaws go) background
      "rates" fn 5 (pos 1000) signals blank refl refl tt

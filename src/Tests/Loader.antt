-- ===== src/Tests/Loader.antt =====
-- A loader whose second load fails.
use go_memoize.Base.{
  ◌<◌, ◌≤◌, ◌⊎◌, refl, ℕ, zero, suc, true, Option, none, some, List, [], ◌∷◌, ◌≡◌,
}
use go_memoize.Base.Int.{pos}
use go_memoize.Store.{Error, external}
use go_memoize.RefreshLoop.{Signal, tick, done, Load}
use go_memoize.Loader.{Loader, new_loader, run, ValueOf}
use go_memoize.Loader.Stopping.{Life, looping, new_life, stop, Step, Steps, at_start}
use go_memoize.Loader.Stopping.Ends.{rank, stop-Advances, Advances}
use go_memoize.Loader.Latest.{latest_value, errors, loads, Shows, run-Shows}

abbrev fn : Load ℕ
fn zero = (5, none)
fn (suc zero) = (0, some (external 1))
fn (suc (suc n)) = (7, none)

abbrev signals : List Signal
signals = tick ∷ tick ∷ done ∷ []

run-Shows_example :
    (l : Loader ℕ) × (run fn (pos 1000) signals (new_loader 0 true) ≡ some l)
    × Shows (latest_value fn (loads (pos 1000) signals)) (errors fn (loads (pos 1000) signals)) l
    × ((v : ℕ) (e : Option Error)
        → ValueOf 0 l none v e
        → (latest_value fn (loads (pos 1000) signals) ≡ some v) × (e ≡ none))
run-Shows_example = run-Shows fn (pos 1000) signals 0 true

abbrev stopping : Life
stopping = record new_life { stop_closed = true }

stop-Advances_example :
    ((n : Life)
      → Steps (pos 1) stopping n
      → Advances (pos 1) n
        × ((o : Life) → Step (pos 1) n o → (rank o < rank n) ⊎ ((o ≡ n) × (n.phase ≡ looping))))
    × (rank stopping ≤ 3)
    × (stop stopping ≡ none)
unfolding stop new_life
stop-Advances_example = stop-Advances (pos 1) new_life stopping at_start refl

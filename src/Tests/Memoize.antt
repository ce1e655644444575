-- ===== src/Tests/Memoize.antt =====
-- Memoized functions over the direct store, at concrete arguments.
use go_memoize.Base.{ℕ, true, none, some, ◌≡◌, ◌⊎◌, inl, inr, refl, arith}
use go_memoize.Base.Int.{pos, negsuc}
use go_memoize.Base.Result.{ok}
use go_memoize.Hash.{Key, hash, hash1, hash2}
use go_memoize.Hash.Key.{int, bool}
use go_memoize.Store.{external, background}
use go_memoize.Direct.Laws.{AnyState, entries, direct_store-StoreLaws}
use go_memoize.Cache.{new_direct_cache}
use go_memoize.World.{World, M, Ran, returned, gives}
use go_memoize.Memoize.Shared.{plain, call_cached, get_set_direct}
use go_memoize.Memoize.Plain.{memoize1, memoize2}
use go_memoize.Memoize.Calls.{IsOpen, InTime, get_set_direct-again}
use go_memoize.Memoize.Arguments.{memoize1-int, memoize2-bool}
use go_memoize.Tests.Setting.{go, DirectState, direct, settings, cache, cache-Uses, empty}

empty-IsOpen : (h : ℕ) → IsOpen AnyState entries h empty
empty-IsOpen h = record { valid = tt; unusable = tt; free = refl; clock = λ i j le. le }

empty-InTime : InTime cache empty
empty-InTime = inr (omega arith)

made : new_direct_cache direct settings ≡ ok cache
unfolding new_direct_cache
made = refl

abbrev failing : ℕ → Ran ℕ
failing n = gives 5 (some (external 1))

abbrev eight : ℕ → Ran ℕ
eight n = gives 8 none

get_set_direct-again_example :
    (w' w'' : World ℕ ℕ DirectState) × (get_set_direct go cache background (some 3) failing empty
      ≡ (returned (5, some (external 1)), w'))
    × (get_set_direct go cache background (some 3) eight w' ≡ (returned (8, none), w''))
    × (w''.calls ≡ 2)
get_set_direct-again_example =
    get_set_direct-again go cache direct (direct_store-StoreLaws 0) cache-Uses 3 background failing
      eight empty {u = 5} {v = 8} {x = external 1} refl (empty-IsOpen 3) refl refl

-- the memoized function gives how often it ran before
abbrev count1 : Key → ℕ → ℕ ⊎ ℕ
count1 k n = inl n

abbrev count2 : Key → Key → ℕ → ℕ ⊎ ℕ
count2 k j n = inl n

abbrev counted1 : Key → M (World ℕ ℕ DirectState) ℕ
counted1 k = call_cached go cache background (hash1 k) (plain (count1 k))

abbrev counted2 : Key → Key → M (World ℕ ℕ DirectState) ℕ
counted2 k j = call_cached go cache background (hash2 k j) (plain (count2 k j))

memoize1-counted : memoize1 go direct count1 settings ≡ ok counted1
unfolding memoize1
memoize1-counted = rw made refl

memoize2-counted : memoize2 go direct count2 settings ≡ ok counted2
unfolding memoize2
memoize2-counted = rw made refl

memoize1-int_example :
    (w' same other : World ℕ ℕ DirectState) × (counted1 (int (pos 4)) empty ≡ (returned 0, w'))
    × (counted1 (int (pos 4)) w' ≡ (returned 0, same))
    × (same.calls ≡ 1)
    × (counted1 (int (negsuc 4)) w' ≡ (returned 1, other))
    × (other.calls ≡ 2)
unfolding hash1 hash
memoize1-int_example =
    memoize1-int go direct (direct_store-StoreLaws 0) settings refl refl made count1 counted1
      (pos 4) (negsuc 4) empty {u = 0} {v = 1} memoize1-counted (omega arith, omega arith)
      (omega arith, omega arith) (λ e. cc) refl refl (empty-IsOpen _) (empty-IsOpen _) empty-InTime
      refl refl

memoize2-bool_example :
    (w' w'' : World ℕ ℕ DirectState) × (counted2 (int (pos 4)) (bool true) empty ≡ (returned 0, w'))
    × (counted2 (int (pos 5)) (bool true) w' ≡ (returned 0, w''))
    × (w''.calls ≡ 1)
unfolding hash1 hash2 hash
memoize2-bool_example =
    memoize2-bool go direct (direct_store-StoreLaws 0) settings refl refl made count2 counted2
      (int (pos 4)) (int (pos 5)) true empty {v = 0} memoize2-counted refl refl refl
      (empty-IsOpen _) empty-InTime refl

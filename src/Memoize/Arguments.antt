-- ===== src/Memoize/Arguments.antt =====
-- Which arguments a memoized function tells apart: its hash decides.
use go_memoize.Base.{ℕ, ◌+◌, Bool, false, Option, some, ◌≡◌, ◌≢◌, ◌⊎◌, ◌∙◌, inl, sym, ap}
use go_memoize.Base.Int.{ℤ}
use go_memoize.Base.Result.{Result, ok}
use go_memoize.Hash.{Key, hash1, hash2}
use go_memoize.Hash.Key.{int, bool}
use go_memoize.Hash.Keys.{IsInt64, hash1-int_injective, hash2-bool}
use go_memoize.Stored.{Stored}
use go_memoize.Store.{Store, Error, background}
use go_memoize.Store.Laws.{StoreLaws}
use go_memoize.Options.{Options}
use go_memoize.Cache.{Cache, new_direct_cache}
use go_memoize.World.{World, M, returned, GoTypes}
use go_memoize.Engine.Reads.{Uses}
use go_memoize.Memoize.Shared.{plain, call_cached}
use go_memoize.Memoize.Plain.{memoize1, memoize2}
use go_memoize.Memoize.Calls.{
  new_direct_cache-Uses, IsOpen, InTime, call_cached_twice, call_cached_other,
}

ok_injective : {A : Type 0} {f g : A} → ◌≡◌ {A = Result Error A} (ok f) (ok g) → f ≡ g
ok_injective e = cc

module _ {V S : Type 0} (go : GoTypes ℕ V) {Valid : S → Type 0} {view : S → ℕ → Option (Stored V)}
    (direct : Store ℕ V S) (laws : StoreLaws go.zero direct Valid view) (opts : Options ℕ V S)
    {c : Cache ℕ V S} (own : opts.has_store ≡ false) (active : opts.bypass ≡ false)
    (made : new_direct_cache direct opts ≡ ok c) where
  uses : Uses c direct
  uses = new_direct_cache-Uses direct opts own active made

  memoize2-closure :
      (fn : Key → Key → ℕ → V ⊎ ℕ) {f : Key → Key → M (World ℕ V S) V}
      → memoize2 go direct fn opts ≡ ok f
      → (λ k1 k2. call_cached go c background (hash2 k1 k2) (plain (fn k1 k2))) ≡ f
  unfolding memoize2
  memoize2-closure fn {f} memo = ok_injective (rw made at memo)

  -- A function of two arguments that `Memoize2` memoizes over the direct store, with no bypass,
  -- confuses its first arguments when the second is a boolean: with nothing usable under the hash
  -- at first and no panic of the function, a call with any other first argument of a supported
  -- type, within one ttl, gets the result of the first call, without a computation.
  pub memoize2-bool :
      (fn : Key → Key → ℕ → V ⊎ ℕ) (f : Key → Key → M (World ℕ V S) V) (a a' : Key) (b : Bool)
      (w : World ℕ V S) {h i i' : ℕ} {v : V}
      → memoize2 go direct fn opts ≡ ok f
      → hash1 a ≡ some i
      → hash1 a' ≡ some i'
      → hash2 a (bool b) ≡ some h
      → IsOpen Valid view h w
      → InTime c w
      → fn a (bool b) w.calls ≡ inl v
      → (w' w'' : World ℕ V S) × (f a (bool b) w ≡ (returned v, w'))
        × (f a' (bool b) w' ≡ (returned v, w''))
        × (w''.calls ≡ w.calls + 1)
  memoize2-bool fn f a a' b w {h} memo hashed hashed' key o intime ran =
      let twice =
        call_cached_twice go c direct laws uses h background background (plain (fn a (bool b)))
          (plain (fn a' (bool b))) w o intime (rw (ran, plain)) in
      rw (← memoize2-closure fn memo, ← hash2-bool a a' b hashed hashed', key) twice

  memoize1-closure :
      (fn : Key → ℕ → V ⊎ ℕ) {f : Key → M (World ℕ V S) V}
      → memoize1 go direct fn opts ≡ ok f
      → (λ k1. call_cached go c background (hash1 k1) (plain (fn k1))) ≡ f
  unfolding memoize1
  memoize1-closure fn {f} memo = ok_injective (rw made at memo)

  -- A function of one signed 64-bit integer that `Memoize1` memoizes over the direct store, with no
  -- bypass, never mixes up two distinct arguments: with nothing usable under their hashes at first
  -- and no panic of the function, after a call with one, a call with the same one within the ttl
  -- returns the first result without a computation, and a call with the other computes and returns
  -- its own result.
  pub memoize1-int :
      (fn : Key → ℕ → V ⊎ ℕ) (f : Key → M (World ℕ V S) V) (x y : ℤ) (w : World ℕ V S) {h i : ℕ}
      {u v : V}
      → memoize1 go direct fn opts ≡ ok f
      → IsInt64 x
      → IsInt64 y
      → x ≢ y
      → hash1 (int x) ≡ some h
      → hash1 (int y) ≡ some i
      → IsOpen Valid view h w
      → IsOpen Valid view i w
      → InTime c w
      → fn (int x) w.calls ≡ inl u
      → fn (int y) (w.calls + 1) ≡ inl v
      → (w' same other : World ℕ V S) × (f (int x) w ≡ (returned u, w'))
        × (f (int x) w' ≡ (returned u, same))
        × (same.calls ≡ w.calls + 1)
        × (f (int y) w' ≡ (returned v, other))
        × (other.calls ≡ w.calls + 2)
  memoize1-int fn f x y w {h} {i} memo hx hy differ kx ky ox oy intime ranx rany =
      let apart : h ≢ i = λ p. differ (hash1-int_injective x y hx hy (kx ∙ ap some p ∙ sym ky)) in
      let fx = plain (fn (int x)) in
      let fy = plain (fn (int y)) in
      rw (← memoize1-closure fn memo, kx, ky)
        (call_cached_other go c direct laws uses h i background background fx fy w ox oy intime
          apart (rw (ranx, plain)) (rw (rany, plain)))

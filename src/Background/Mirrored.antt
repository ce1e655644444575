-- ===== src/Background/Mirrored.antt =====
-- What `Mirror` mirrors: the latest value that was found.
use Prim.Native.String.{String}
use mathlib.Core.Path.{subst}
use go_memoize.Base.{
  ℕ, suc, ◌+◌, Bool, true, Bool-cases, Option, none, some, List, [], ◌∷◌, ◌≡◌, inl, inr, refl, ap,
  arith,
}
use go_memoize.Base.Int.{is_nonpos}
use go_memoize.Time.{Duration}
use go_memoize.Stored.{Stored}
use go_memoize.Store.{Store, Found, Error}
use go_memoize.RefreshLoop.{Signal, tick, done, Load, Hooks, hand_on, run_from, run_loop, ticks}
use go_memoize.Loader.Latest.{latest_value, latest_after, loads}
use go_memoize.Background.{
  KeepOptions, KeepState, get, refresh_value, fail, result_of, mirror_load, mirror_hooks,
  mirror_from, mirror,
}

module _ {V S : Type 0} (nothing : V) (missed not_found : Error) (is_miss : Error → Bool)
    (load : Load V) (o : KeepOptions V S) (notes : o.on_refresh ≡ true)
    (reports : o.on_error ≡ true) where
  abbrev hooks : Hooks V (KeepState V S)
  hooks = mirror_hooks nothing missed not_found is_miss o

  abbrev shown : V → KeepState V S → KeepState V S
  shown v s = record s { current = some v; refreshed = v ∷ s.refreshed }

  -- The state has the latest value of some reads.
  abbrev Mirrored : ℕ → KeepState V S → Type 0
  Mirrored n s = (v : V) × (latest_value load n ≡ some v) × (s.current ≡ some v)

  hand_on-Mirrored :
      (r : V × Option Error) (last : Option V) (v : V) (s : KeepState V S)
      → last ≡ some v
      → s.current ≡ some v
      → (t : KeepState V S) × (hand_on hooks r s ≡ some t)
        × ((w : V) × (latest_after r last ≡ some w) × (t.current ≡ some w))
  unfolding hand_on refresh_value fail
  hand_on-Mirrored (w, none) last v s e h = (shown w s, rw notes refl, (w, refl, refl))
  hand_on-Mirrored (w, some err) last v s e h = elim (Bool-cases (is_miss err)) [
    | inl miss ↦ (s, rw miss refl, (v, e, h))
    | inr other ↦ (fail nothing err s, rw (other, reports) refl, (v, e, h))
  ]

  run_from-Mirrored :
      (i : ℕ) (signals : List Signal) (s : KeepState V S)
      → Mirrored i s
      → (t : KeepState V S) × (run_from load hooks i signals s ≡ some t)
        × Mirrored (ticks signals + i) t
  unfolding run_from
  run_from-Mirrored i [] s h = (s, refl, subst (λ n. Mirrored n s) (omega arith) h)
  run_from-Mirrored i (done ∷ signals) s h = (s, refl, subst (λ n. Mirrored n s) (omega arith) h)
  run_from-Mirrored i (tick ∷ signals) s (v, last, h) =
      let (u, one, shown) = hand_on-Mirrored (load i) (latest_value load i) v s last h in
      let (t, rest, final) = run_from-Mirrored (suc i) signals u shown in
      (t, rw (run_from, one) rest, subst (λ n. Mirrored n t) (omega arith) final)

-- options with callbacks
abbrev called : {V S : Type 0} → Option (String × Store String V S) → KeepOptions V S
called through = record { write_through = through; on_refresh = true; on_error = true }

-- If the first read of `Mirror` finds the key and no callback is nil, then after any signals `Get` gives the latest value
-- that was found: reads that miss the key or fail change nothing.
mirror-latest :
    {V S : Type 0} (nothing : V) (missed not_found : Error) (is_miss : Error → Bool)
    (replies : ℕ → Found (Stored V)) (e : Stored V) (interval : Duration) (signals : List Signal)
    (through : Option (String × Store String V S)) (s : KeepState V S)
    → replies 0 ≡ (e, true, none)
    → (t : KeepState V S) × (mirror nothing missed not_found is_miss
          (called through)
          replies
          interval
          signals
          s
        ≡ inr (some t))
      × (latest_value (mirror_load nothing missed replies) (loads interval signals)
          ≡ some (get nothing t))
unfolding mirror mirror_from mirror_load run_loop refresh_value get
mirror-latest nothing missed not_found is_miss replies e interval signals through s first =
    let load = mirror_load nothing missed replies in
    let s' = record s { current = some e.value; refreshed = e.value ∷ s.refreshed } in
    let one_read : latest_value load 1 ≡ some e.value =
      ap (λ r. latest_after (result_of nothing missed r) none) first in
    elim (Bool-cases (is_nonpos interval)) [
      | inl off ↦
          let once : 1 ≡ loads interval signals = rw (loads, off) refl in
          (
            s',
            rw (mirror, first, off) refl,
            subst (λ n. latest_value load n ≡ some e.value) once one_read,
          )
      | inr on ↦
          let every : ticks signals + 1 ≡ loads interval signals = rw (loads, on) (omega arith) in
          let (t, rest, (w, last, current)) =
            run_from-Mirrored nothing missed not_found is_miss load (called through) refl refl 1
              signals s' (e.value, one_read, refl) in
          (
            t,
            rw (mirror, first, on, rest) refl,
            rw (get, current) (subst (λ n. latest_value load n ≡ some w) every last),
          )
    ]

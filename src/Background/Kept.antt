-- ===== src/Background/Kept.antt =====
-- What `Keep` keeps: the latest value, here and in the store that it writes through to.
use Prim.Native.String.{String}
use mathlib.Core.Path.{subst}
use go_memoize.Base.{
  ℕ, suc, ◌+◌, true, Bool-cases, Option, none, some, List, [], ◌∷◌, ◌≡◌, inl, inr, ◌∙◌, refl, sym,
  ap, arith,
}
use go_memoize.Base.Int.{is_nonpos}
use go_memoize.Time.{Duration}
use go_memoize.Stored.{Stored}
use go_memoize.Store.{Store, Ctx, Error, zero_stored}
use go_memoize.Store.Laws.{StoreLaws}
use go_memoize.RefreshLoop.{Signal, tick, done, Load, Hooks, hand_on, run_from, run_loop, ticks}
use go_memoize.Loader.Latest.{latest_value, latest_after, errors, errors_after, loads}
use go_memoize.Background.{
  KeepOptions, KeepState, get, refresh_value, write, fail, keep_hooks, keep_from, keep,
}

-- the entry that is written through
abbrev pub written_entry : {V : Type 0} → V → V → Stored V
written_entry nothing v = record (zero_stored nothing) { value = v; no_expire = true }

-- the options with a write through, and callbacks
abbrev pub through_to : {V S : Type 0} → Store String V S → String → KeepOptions V S
through_to store key = record {
  write_through = some (key, store);
  on_refresh = true;
  on_error = true;
}

module _ {V S : Type 0} (nothing : V) (store : Store String V S) (Valid : S → Type 0)
    (view : S → String → Option (Stored V)) (laws : StoreLaws nothing store Valid view) (ctx : Ctx)
    (key : String) where
  -- The state shows a value and the errors, and the store has the value under the key.
  pub record Kept (v : V) (errs : List Error) (s : KeepState V S) : Type 0 where
    pub current : s.current ≡ some v
    pub failed : s.failed ≡ errs
    pub valid : Valid s.store
    pub stored : view s.store key ≡ some (written_entry nothing v)

  abbrev publish : V → KeepState V S → KeepState V S
  publish v s =
      write nothing ctx (through_to store key) v
        (record s { current = some v; refreshed = v ∷ s.refreshed })

  abbrev hooks : Hooks V (KeepState V S)
  hooks = keep_hooks nothing ctx (through_to store key)

  publish-Kept :
      (v : V) (errs : List Error) (s : KeepState V S)
      → s.failed ≡ errs
      → Valid s.store
      → Kept v errs (publish v s)
  unfolding write
  publish-Kept v errs s failed valid =
      let (_, valid', stored, _) = laws.set-view ctx key (written_entry nothing v) s.store valid in
      record { current = refl; failed = failed; valid = valid'; stored = stored }

  module _ (fn : Load V) where
    -- The state is that after some loads.
    abbrev KeptAt : ℕ → KeepState V S → Type 0
    KeptAt n s = (v : V) × (latest_value fn n ≡ some v) × Kept v (errors fn n) s

    hand_on-Kept :
        (r : V × Option Error) (last : Option V) (v : V) (errs : List Error) (s : KeepState V S)
        → last ≡ some v
        → Kept v errs s
        → (t : KeepState V S) × (hand_on hooks r s ≡ some t)
          × ((w : V) × (latest_after r last ≡ some w) × Kept w (errors_after r errs) t)
    unfolding hand_on fail refresh_value
    hand_on-Kept (w, none) last v errs s e h =
        (publish w s, refl, (w, refl, publish-Kept w errs s h.failed h.valid))
    hand_on-Kept (w, some err) last v errs s e h = (
      fail nothing err s,
      refl,
      (
        v,
        e,
        record {
          current = h.current;
          failed = ap (λ es. err ∷ es) h.failed;
          valid = h.valid;
          stored = h.stored;
        },
      ),
    )

    run_from-Kept :
        (i : ℕ) (signals : List Signal) (s : KeepState V S)
        → KeptAt i s
        → (t : KeepState V S) × (run_from fn hooks i signals s ≡ some t)
          × KeptAt (ticks signals + i) t
    unfolding run_from
    run_from-Kept i [] s h = (s, refl, subst (λ n. KeptAt n s) (omega arith) h)
    run_from-Kept i (done ∷ signals) s h = (s, refl, subst (λ n. KeptAt n s) (omega arith) h)
    run_from-Kept i (tick ∷ signals) s (v, last, h) =
        let (u, one, shown) = hand_on-Kept (fn i) (latest_value fn i) v (errors fn i) s last h in
        let (t, rest, final) = run_from-Kept (suc i) signals u shown in
        (t, rw (run_from, one) rest, subst (λ n. KeptAt n t) (omega arith) final)

    -- what callers see of such a state
    abbrev Seen : ℕ → KeepState V S → Type 0
    Seen n t =
        (latest_value fn n ≡ some (get nothing t))
        × (view t.store key ≡ some (written_entry nothing (get nothing t)))
        × (t.failed ≡ errors fn n)

    KeptAt-Seen : (n : ℕ) (t : KeepState V S) → KeptAt n t → Seen n t
    unfolding get
    KeptAt-Seen n t (w, last, h) =
        let same : get nothing t ≡ w = rw (get, h.current) refl in
        rw same (last, h.stored, h.failed)

    first-Kept :
        (v : V) (s : KeepState V S)
        → fn 0 ≡ (v, none)
        → s.failed ≡ []
        → Valid s.store
        → KeptAt 1 (publish v s)
    first-Kept v s first quiet valid = (
      v,
      ap (λ r. latest_after r none) first,
      publish-Kept v (errors fn 1) s (quiet ∙ sym (ap (λ r. errors_after r []) first)) valid,
    )

    -- If the first load of `Keep` succeeds, no error was handed on before, no callback is nil, and
    -- `WriteThrough` goes to a valid store that meets its contract: after any signals, `Get` gives
    -- the latest value that was loaded, the store has it under the key, without expiration, and
    -- every error was handed to the callback.
    pub keep-Kept :
        (v : V) (interval : Duration) (signals : List Signal) (s : KeepState V S)
        → fn 0 ≡ (v, none)
        → s.failed ≡ []
        → Valid s.store
        → (t : KeepState V S) × (keep nothing ctx fn interval (through_to store key) signals s
            ≡ inr (some t))
          × ((latest_value fn (loads interval signals) ≡ some (get nothing t))
              × (view t.store key ≡ some (written_entry nothing (get nothing t)))
              × (t.failed ≡ errors fn (loads interval signals)))
    unfolding keep keep_from run_loop refresh_value
    keep-Kept v interval signals s first quiet valid =
        let h = first-Kept v s first quiet valid in
        elim (Bool-cases (is_nonpos interval)) [
          | inl off ↦
              let once : 1 ≡ loads interval signals = rw (loads, off) refl in
              (
                publish v s,
                rw (keep, first, off) refl,
                KeptAt-Seen _ _ (subst (λ n. KeptAt n (publish v s)) once h),
              )
          | inr on ↦
              let every : ticks signals + 1 ≡ loads interval signals =
                rw (loads, on) (omega arith) in
              let (t, rest, final) = run_from-Kept 1 signals (publish v s) h in
              (
                t,
                rw (keep, first, on, rest) refl,
                KeptAt-Seen _ t (subst (λ n. KeptAt n t) every final),
              )
        ]

-- ===== src/Loader/Stopping/Ends.antt =====
-- `Stop` of loader/loader.go comes to its end.
use mathlib.Core.Path.{subst}
use go_memoize.Base.{
  ℕ, ◌<◌, ◌≤◌, if◌then◌else◌, Bool, true, false, Bool-cases, none, some, ◌≡◌, ◌≢◌, ◌⊎◌, inl, inr,
  refl, arith,
}
use go_memoize.Time.{Duration}
use go_memoize.Loader.Stopping.{
  Phase, loading, looping, ended, Life, new_life, stop, enter_loop, cancel_loop, leave, Step, loads,
  ticks, cancels, leaves, Steps, stay, go_on, Reached, at_start, steps, stopped_by,
}

-- Before the loop and after its end nobody waits for the channel, and in the loop somebody does
-- until the context is cancelled.
abbrev Watched : Life → Type 0
Watched l =
    (l.phase ≡ looping → (l.watching ≡ true) ⊎ (l.cancelled ≡ true))
    × (l.phase ≢ looping → l.watching ≡ false)

-- how many steps are left at most
abbrev phase_rank : Phase → Bool → ℕ
phase_rank loading watching = 3
phase_rank looping watching = if watching then 2 else 1
phase_rank ended watching = 0

abbrev pub rank : Life → ℕ
rank l = phase_rank l.phase l.watching

stop-closes :
    (l m : Life) → stop l ≡ some m → (l.stop_closed ≡ false) × (record l { stop_closed = true } ≡ m)
unfolding stop
stop-closes l m e = elim (Bool-cases l.stop_closed) [
  | inl closed ↦ absurd (cc (e, closed))
  | inr still ↦ (still, cc (e, still))
]

module _ (interval : Duration) where
  Step-Watched : (l m : Life) → Watched l → Step interval l m → Watched m
  unfolding enter_loop cancel_loop leave
  Step-Watched l _ h (loads at) = (λ e. inl refl, λ n. absurd (n refl))
  Step-Watched l _ h (ticks at positive) = h
  Step-Watched l _ h (cancels on closed) = (λ e. inr refl, λ n. refl)
  Step-Watched l _ h (leaves at why) = (λ e. absurd (cc), λ n. refl)

  Reached-Watched : (l : Life) → Reached interval l → Watched l
  unfolding new_life
  Reached-Watched _ at_start = (λ e. absurd (cc), λ n. refl)
  Reached-Watched _ (steps {l} {m} before step) = Step-Watched l m (Reached-Watched l before) step
  Reached-Watched _ (stopped_by {l} {m} before e) =
      subst Watched (stop-closes l m e).1 (Reached-Watched l before)

  cancel-rank :
      (l : Life) (p : Phase)
      → l.phase ≡ p
      → Watched l
      → l.watching ≡ true
      → rank (cancel_loop l) < rank l
  unfolding cancel_loop
  cancel-rank l loading at h on = absurd (cc (on, h.1 (λ e. absurd (cc (at, e)))))
  cancel-rank l looping at h on = rw (at, on) (omega arith)
  cancel-rank l ended at h on = absurd (cc (on, h.1 (λ e. absurd (cc (at, e)))))

  Step-rank :
      (l m : Life)
      → Watched l
      → Step interval l m
      → (rank m < rank l) ⊎ ((m ≡ l) × (l.phase ≡ looping))
  unfolding enter_loop cancel_loop leave
  Step-rank l _ h (loads at) = inl (rw at (omega arith))
  Step-rank l _ h (ticks at positive) = inr (refl, at)
  Step-rank l _ h (cancels on closed) = inl (cancel-rank l l.phase refl h on)
  Step-rank l _ h (leaves at why) = inl (rw at (ground arith))

  Steps-Watched : (l m : Life) → Watched l → Steps interval l m → Watched m
  Steps-Watched l _ h stay = h
  Steps-Watched l _ h (go_on {m = m} {n = n} step way) =
      Steps-Watched m n (Step-Watched l m h step) way

  -- Until the end, there is a step that leads nearer to it.
  abbrev pub Advances : Life → Type 0
  Advances n = (n.phase ≡ ended) ⊎ ((o : Life) × Step interval n o × (rank o < rank n))

  loop-Advances : (l : Life) → Watched l → l.stop_closed ≡ true → l.phase ≡ looping → Advances l
  unfolding cancel_loop leave
  loop-Advances l h closed at = elim (h.0 at) [
    | inl on ↦ inr (cancel_loop l, cancels on closed, cancel-rank l looping at h on)
    | inr cancelled ↦ inr (leave l, leaves at (inl cancelled), rw at (ground arith))
  ]

  phase-Advances :
      (l : Life) (p : Phase) → l.phase ≡ p → Watched l → l.stop_closed ≡ true → Advances l
  unfolding enter_loop
  phase-Advances l loading at h closed = inr (enter_loop l, loads at, rw at (omega arith))
  phase-Advances l looping at h closed = loop-Advances l h closed at
  phase-Advances l ended at h closed = inl at

  -- the channel stays closed
  Step-closed : (l m : Life) → l.stop_closed ≡ true → Step interval l m → m.stop_closed ≡ true
  unfolding enter_loop cancel_loop leave
  Step-closed l _ h (loads at) = h
  Step-closed l _ h (ticks at positive) = h
  Step-closed l _ h (cancels on closed) = h
  Step-closed l _ h (leaves at why) = h

  Steps-closed : (l m : Life) → l.stop_closed ≡ true → Steps interval l m → m.stop_closed ≡ true
  Steps-closed l _ h stay = h
  Steps-closed l _ h (go_on {m = m} {n = n} step way) =
      Steps-closed m n (Step-closed l m h step) way

  rank-bound : (p : Phase) (b : Bool) → phase_rank p b ≤ 3
  rank-bound loading b = omega arith
  rank-bound looping true = omega arith
  rank-bound looping false = omega arith
  rank-bound ended b = omega arith

  -- If each load returns: after the first call of `Stop`, on a loader in any state that it can
  -- come to, whatever steps its goroutines have taken since, unless the channel that `Stop` waits
  -- for is closed, one of them can take a step that leads nearer to that. Each step but a tick of
  -- the loop does, a tick changes nothing, and there are at most three such steps. So nothing is
  -- ever stuck before the end. A second call of `Stop` panics.
  pub stop-Advances :
      (l m : Life)
      → Reached interval l
      → stop l ≡ some m
      → ((n : Life)
          → Steps interval m n
          → Advances n
            × ((o : Life)
                → Step interval n o
                → (rank o < rank n) ⊎ ((o ≡ n) × (n.phase ≡ looping))))
        × (rank m ≤ 3)
        × (stop m ≡ none)
  unfolding stop
  stop-Advances l m reached e =
      let watched = Reached-Watched m (stopped_by reached e) in
      let made = (stop-closes l m e).1 in
      let closed : m.stop_closed ≡ true = subst (λ m. m.stop_closed ≡ true) made refl in
      (
        λ n way.
            let on_watch = Steps-Watched m n watched way in
            (
              phase-Advances n n.phase refl on_watch (Steps-closed m n closed way),
              λ o step. Step-rank n o on_watch step,
            ),
        rank-bound m.phase m.watching,
        rw closed refl,
      )

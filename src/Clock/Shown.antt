-- ===== src/Clock/Shown.antt =====
-- What a clock of clock.go shows, and what its `Stop` does.
use go_memoize.Base.{
  ◌+◌, ◌≤◌, ◌<◌, true, false, Bool-cases, inl, inr, some, ◌≡◌, refl, ap, arith, ◌∙◌, sym,
}
use go_memoize.Time.{Time, Duration}
use go_memoize.Clock.{
  TickerClock, unix_epoch, unix_milli, from_unix_milli, new_ticker_clock, tick, quit, close_stop,
  stop, now, Reaches, made, ticks, quits, stops,
}

-- The clock shows its latest reading, and its channel is closed exactly if its `once` is done.
abbrev Consistent : Time → TickerClock → Type 0
Consistent r tc = (unix_epoch ≤ r) × (tc.shown ≡ unix_milli r) × (tc.closed ≡ tc.once_done)

Consistent-stop :
    (r : Time) (tc : TickerClock)
    → Consistent r tc
    → (tc' : TickerClock) × (stop tc ≡ some tc')
      × (tc'.closed ≡ true)
      × (tc'.once_done ≡ true)
      × (tc'.shown ≡ tc.shown)
unfolding stop close_stop
Consistent-stop r tc h = elim (Bool-cases tc.once_done) [
  | inl again ↦ (tc, rw again refl, h.2 ∙ again, again, refl)
  | inr first ↦
      let still_open : tc.closed ≡ false = h.2 ∙ first in
      (record tc { closed = true; once_done = true }, rw (first, still_open) refl, refl, refl, refl)
]

Reaches-Consistent :
    (interval : Duration) (r : Time) (tc : TickerClock) → Reaches interval r tc → Consistent r tc
unfolding new_ticker_clock tick quit
Reaches-Consistent interval _ _ (made t h) = (h, refl, refl)
Reaches-Consistent interval _ _ (ticks {r} {tc} t before positive running h) =
    let held = Reaches-Consistent interval r tc before in (omega arith, refl, held.2)
Reaches-Consistent interval _ _ (quits {r} {tc} before running closed) =
    Reaches-Consistent interval r tc before
Reaches-Consistent interval _ _ (stops {r} {tc} {tc'} before e) =
    let held = Reaches-Consistent interval r tc before in
    let (after, done, closed, once, same) = Consistent-stop r tc held in
    let result : after ≡ tc' = cc (done, e) in
    rw (sym result) (held.0, same ∙ held.1, closed ∙ sym once)

-- `UnixMilli` and back loses less than a millisecond.
unix_milli-bounds :
    (t : Time)
    → unix_epoch ≤ t
    → (from_unix_milli (unix_milli t) ≤ t) × (t < from_unix_milli (unix_milli t) + 1000000)
unfolding unix_milli from_unix_milli
unix_milli-bounds t h = (omega arith, omega arith)

-- However ticks, calls of `Stop` and the end of the goroutine interleave: `Now` shows the latest
-- reading of the clock, short of it by less than a millisecond, and one more `Stop` does not panic,
-- closes the channel and leaves the time shown.
pub Reaches-Shows :
    (interval : Duration) (r : Time) (tc : TickerClock)
    → Reaches interval r tc
    → (now tc ≤ r)
      × (r < now tc + 1000000)
      × ((tc' : TickerClock) × (stop tc ≡ some tc') × (tc'.closed ≡ true) × (now tc' ≡ now tc))
unfolding now
Reaches-Shows interval r tc h =
    let held = Reaches-Consistent interval r tc h in
    let (after, done, closed, once, same) = Consistent-stop r tc held in
    let bounds = unix_milli-bounds r held.0 in
    (rw held.1 bounds.0, rw held.1 bounds.1, (after, done, closed, ap from_unix_milli same))

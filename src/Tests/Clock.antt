-- ===== src/Tests/Clock.antt =====
-- A clock that ticks once and is stopped twice.
use go_memoize.Base.{◌+◌, ◌≤◌, ◌<◌, true, some, ◌≡◌, refl, arith}
use go_memoize.Base.Int.{pos}
use go_memoize.Time.{Time}
use go_memoize.Clock.{
  TickerClock, new_ticker_clock, tick, close_stop, stop, now, Reaches, made, ticks, stops,
}
use go_memoize.Clock.Shown.{Reaches-Shows}

abbrev start : Time
start = 62135596800000000000

abbrev later : Time
later = 62135596800005500000

abbrev stopped : TickerClock
stopped = record (tick later (new_ticker_clock start)) { closed = true; once_done = true }

stopped-Reaches : Reaches (pos 1000000) later stopped
unfolding stop close_stop new_ticker_clock tick
stopped-Reaches = stops (ticks later (made start (omega arith)) refl refl (omega arith)) refl

Reaches-Shows_example :
    (now stopped ≤ later)
    × (later < now stopped + 1000000)
    × ((tc' : TickerClock) × (stop stopped ≡ some tc')
        × (tc'.closed ≡ true)
        × (now tc' ≡ now stopped))
Reaches-Shows_example = Reaches-Shows (pos 1000000) later stopped stopped-Reaches

-- ===== src/Clock.antt =====
-- clock.go: the clock that a goroutine sets on an interval. Its atomic holds Unix milliseconds.
pub mod Shown
use go_memoize.Base.{
  ℕ, ◌+◌, ◌-◌, ◌*◌, ◌/◌, Bool, true, false, Option, none, some, ◌≡◌, ◌≤◌, if◌then◌else◌,
}
use go_memoize.Base.Int.{is_nonpos}
use go_memoize.Time.{Time, Duration}

-- `ClockFunc`, and its `Now`, on a state `S` of the program
abbrev pub ClockFunc : Type 0 → Type 0
ClockFunc S = S → Time × S

-- the first instant of 1970
abbrev pub unix_epoch : Time
unix_epoch = 62135596800000000000

-- `t.UnixMilli()`, for instants since 1970, and `time.UnixMilli(ms)`
unfoldable pub unix_milli : Time → ℕ
unix_milli t = (t - unix_epoch) / 1000000

unfoldable pub from_unix_milli : ℕ → Time
from_unix_milli ms = unix_epoch + ms * 1000000

-- A `TickerClock`: its atomic, whether its channel `stop` is closed, and whether its `once` is done.
-- `running` says that its goroutine has not returned.
pub record TickerClock : Type 0 where
  pub shown : ℕ
  pub closed : Bool
  pub once_done : Bool
  pub running : Bool

-- `NewTickerClock`, which reads the time
unfoldable pub new_ticker_clock : Time → TickerClock
new_ticker_clock t = record {
  shown = unix_milli t;
  closed = false;
  once_done = false;
  running = true;
}

-- the case of a tick, which reads the time
unfoldable pub tick : Time → TickerClock → TickerClock
tick t tc = record tc { shown = unix_milli t }

-- the case of the closed channel
unfoldable pub quit : TickerClock → TickerClock
quit tc = record tc { running = false }

-- `close(tc.stop)`, which panics on a closed channel
unfoldable pub close_stop : TickerClock → Option TickerClock
close_stop tc = if tc.closed then none else some (record tc { closed = true })

-- `Stop`: the `once` calls it the first time
unfoldable pub stop : TickerClock → Option TickerClock
stop tc = if tc.once_done then some tc else close_stop (record tc { once_done = true })

unfoldable pub now : TickerClock → Time
now tc = from_unix_milli tc.shown

-- `NewTickerClock` and then, in any order, what the `select` of `run` finds ready and what callers
-- of `Stop` do, with the latest time that the clock has read. Readings do not go back.
-- `time.NewTicker` panics on an interval that is not positive, and then `run` sets nothing.
pub data Reaches (interval : Duration) : Time → TickerClock → Type 0 where
  made : (t : Time) → unix_epoch ≤ t → Reaches interval t (new_ticker_clock t)
  ticks :
      {r : Time} {tc : TickerClock} (t : Time)
      → Reaches interval r tc
      → is_nonpos interval ≡ false
      → tc.running ≡ true
      → r ≤ t
      → Reaches interval t (tick t tc)
  quits :
      {r : Time} {tc : TickerClock}
      → Reaches interval r tc
      → tc.running ≡ true
      → tc.closed ≡ true
      → Reaches interval r (quit tc)
  stops :
      {r : Time} {tc tc' : TickerClock}
      → Reaches interval r tc
      → stop tc ≡ some tc'
      → Reaches interval r tc'

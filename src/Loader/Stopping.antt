-- ===== src/Loader/Stopping.antt =====
-- loader/loader.go: the goroutines of a `Loader` and its `Stop`.
pub mod Ends
use go_memoize.Base.{Bool, true, false, Option, none, some, ◌≡◌, ◌⊎◌, if◌then◌else◌}
use go_memoize.Base.Int.{is_nonpos}
use go_memoize.Time.{Duration}

-- Where `run` stands: in its first load, in the loop, or past its deferred calls, the last of which
-- closes the channel `stopped`.
pub data Phase : Type 0 where
  loading looping ended : Phase

-- The goroutine of `run`, the one that it starts to wait for the channel `stop`, and whether that
-- channel is closed and the context of the loop cancelled.
pub record Life : Type 0 where
  pub phase : Phase
  pub watching : Bool
  pub stop_closed : Bool
  pub cancelled : Bool

-- what `New` starts
unfoldable pub new_life : Life
new_life = record { phase = loading; watching = false; stop_closed = false; cancelled = false }

-- `close(l.stop)` of `Stop`, which panics on a closed channel; then `Stop` waits for the end
unfoldable pub stop : Life → Option Life
stop l = if l.stop_closed then none else some (record l { stop_closed = true })

-- from the first load on to the loop
unfoldable pub enter_loop : Life → Life
enter_loop l = record l { phase = looping; watching = true }

-- the waiting goroutine meets the closed channel
unfoldable pub cancel_loop : Life → Life
cancel_loop l = record l { watching = false; cancelled = true }

-- the loop has returned: the deferred calls end the other goroutine and cancel the context
unfoldable pub leave : Life → Life
leave l = record l { phase = ended; watching = false; cancelled = true }

-- The steps of the goroutines. Each load is taken to return: the first one, which ends in `loads`,
-- and that of a tick, which changes none of this state.
pub data Step (interval : Duration) : Life → Life → Type 0 where
  loads : {l : Life} → l.phase ≡ loading → Step interval l (enter_loop l)
  ticks : {l : Life} → l.phase ≡ looping → is_nonpos interval ≡ false → Step interval l l
  cancels : {l : Life} → l.watching ≡ true → l.stop_closed ≡ true → Step interval l (cancel_loop l)
  leaves :
      {l : Life}
      → l.phase ≡ looping
      → (l.cancelled ≡ true) ⊎ (is_nonpos interval ≡ true)
      → Step interval l (leave l)

-- Any number of steps
pub data Steps (interval : Duration) : Life → Life → Type 0 where
  stay : {l : Life} → Steps interval l l
  go_on : {l m n : Life} → Step interval l m → Steps interval m n → Steps interval l n

-- The states of a loader: what its goroutines and callers of `Stop` make of the first.
pub data Reached (interval : Duration) : Life → Type 0 where
  at_start : Reached interval new_life
  steps : {l m : Life} → Reached interval l → Step interval l m → Reached interval m
  stopped_by : {l m : Life} → Reached interval l → stop l ≡ some m → Reached interval m

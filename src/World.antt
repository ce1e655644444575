-- ===== src/World.antt =====
-- The state that the operations of a cache work on, and runs over it. The world holds what cache.go
-- shares between goroutines; `readings i` is what the clock shows when it is read the i-th time,
-- so that any clock can be taken.
use Prim.Native.String.{String}
use go_memoize.Base.{ℕ, ◌+◌, Bool, true, false, Option, List}
use go_memoize.Time.{Time, Duration}
use go_memoize.Store.{Ctx, Error}

-- metrics.go
pub data MetricEventKind : Type 0 where
  hit miss stale_hit refresh_start refresh_success refresh_error set_event delete_event :
      MetricEventKind

pub record MetricEvent : Type 0 where
  pub kind : MetricEventKind
  pub key : String
  pub duration : Duration
  pub error : Option Error

-- `flight[V]`: `done` says that its wait group has been released.
pub record Flight (V : Type 0) : Type 0 where
  pub done : Bool
  pub value : V
  pub error : Option Error
  pub panic_value : ℕ
  pub panicked : Bool

-- How a call of a compute function ends.
pub data Ran (V : Type 0) : Type 0 where
  gives : V → Option Error → Ran V
  throws : ℕ → Ran V

-- A compute function, by its context and by how many computations ran before it.
abbrev pub Compute : Type 0 → Type 0
Compute V = Ctx → ℕ → Ran V

-- The goroutine that `refresh` starts: it has its key, its flight and its compute function.
pub record Task (K V : Type 0) : Type 0 where
  pub key : K
  pub flight : ℕ
  pub compute : Compute V

pub record World (K V S : Type 0) : Type 0 where
  pub store : S
  -- `c.flights`: the flight in the air for a key, as a pointer into `heap`
  pub flights : K → Option ℕ
  pub heap : ℕ → Flight V
  pub fresh_pointer : ℕ
  -- what the sink has received, latest first
  pub events : List MetricEvent
  pub readings : ℕ → Time
  pub tick : ℕ
  -- the computations so far
  pub calls : ℕ
  -- the goroutines that wait to run, latest first
  pub tasks : List (Task K V)

-- An operation returns, panics, or blocks on a flight that another goroutine leads.
pub data Outcome (A : Type 0) : Type 0 where
  returned : A → Outcome A
  panics : ℕ → Outcome A
  waits : ℕ → Outcome A

-- What Go knows of the types: equality of keys, a zero value, and `fmt.Sprint` of a key.
pub record GoTypes (K V : Type 0) : Type 0 where
  pub key_eq : Discrete K
  pub zero : V
  pub sprint : K → String

-- A goroutine's run: what it returns, and the state after it.
abbrev pub M : Type 0 → Type 0 → Type 0
M W A = W → Outcome A × W

module _ {W : Type 0} where
  abbrev pub pure : {A : Type 0} → A → M W A
  pure a w = (returned a, w)

  -- A panic and a wait end a run.
  abbrev pub and_then : {A B : Type 0} → Outcome A × W → (A → M W B) → Outcome B × W
  and_then (returned a, w) f = f a w
  and_then (panics p, w) f = (panics p, w)
  and_then (waits g, w) f = (waits g, w)

  infixl 5 ◌>>=◌ ◌>>◌
  abbrev pub ◌>>=◌ : {A B : Type 0} → M W A → (A → M W B) → M W B
  ◌>>=◌ m f w = and_then (m w) f

  abbrev pub ◌>>◌ : {B : Type 0} → M W (Unit {0}) → M W B → M W B
  m >> k = m >>= λ _. k

  abbrev pub when : Bool → M W (Unit {0}) → M W (Unit {0})
  when true m = m
  when false m = pure tt

module _ {K V S : Type 0} where
  -- a call of the store
  abbrev pub ask : {A : Type 0} → (S → A × S) → M (World K V S) A
  ask op w = let (a, s) = op w.store in (returned a, record w { store = s })

  -- `c.clock.Now()`
  unfoldable pub clock_now : M (World K V S) Time
  clock_now w = (returned (w.readings w.tick), record w { tick = w.tick + 1 })

  -- a call of a compute function
  unfoldable pub run_compute : Compute V → Ctx → M (World K V S) (V × Option Error)
  run_compute compute ctx w =
      let w' = record w { calls = w.calls + 1 } in
      elim (compute ctx w.calls) [ gives v e ↦ (returned (v, e), w') | throws p ↦ (panics p, w') ]

-- ===== src/Lib.antt =====
-- Verification of go_memoize, a Go library that memoizes functions in a cache with a time to live.
--
-- The program's parts. A `Cache` (options.go) is configured by `Options` (direct_options.go) and
-- works on a `Store` (store.go), a map of entries (stored.go) behind an interface. Its engine
-- (cache.go) answers from the store, computes on a miss, keeps at most one computation for a key in
-- the air, and refreshes stale entries in a goroutine. The memoizers (memoize.go, memoize_ctx.go)
-- hash the arguments of a function (hashing.go) and ask a cache over the direct store
-- (direct_store.go).
--
-- Which file models which part:
--   Hash           hashing.go: FNV-1a on 64-bit words, `hash` and `hash1` to `hash7`;
--     Hash/Internal  internal/hash/hash.go, its copy for the sharded store
--   Time           `time.Time` and `time.Duration`, as far as the code uses them
--   Stored         stored.go: an entry, and `state`
--   Store          store.go, errors.go, and the optional interfaces of cache.go; Store/Laws has the
--                  contract that the engine relies on and the stores meet
--   Options        direct_options.go: `Options` and its builders
--   Cache          options.go and `applyOptions`: `New`, `Stop`, `newDirectCache`
--   Direct         direct_store.go
--   Stores/Single  stores/memory/single.go
--   Stores/Memory  stores/memory/store.go: the array and its ring; Methods has `New` and the
--                  exported methods, Ring and Links the linked list, Valid the invariant
--   Stores/Sharded stores/memory/sharded.go, stores/memory/options.go; Methods has the methods,
--                  Shards the steps on them, Shares and Build what `NewSharded` makes
--   Stores/Chain   stores/chain/store.go
--   Stores/Local   stores/local/store.go: its methods over a file system; Disk has the laws of the
--                  file system, Writes and Crashes what becomes of `Set` when calls fail or the
--                  program ends between two, Methods the other calls when they fail
--   Redis          adapters/redis/store.go: its types, options and `storageTTL`; Methods has `New`,
--                  the names of keys and the methods, Server the laws of the server, Scans and
--                  Calls what the methods do when requests fail
--   Clock          clock.go: `TickerClock`
--   World          the state of a running cache, and runs over it; metrics.go
--   Events         cache.go: `emitHit` and its kin
--   Flights        cache.go: `wait`, `waitForFlight`, `startFlight`, `finishFlight`, `do`
--   Engine         cache.go: `Get`, `Set`, `Delete`, `Clear`, `refresh`, `GetOrCompute`
--   Memoize        memoize.go, memoize_ctx.go: the 32 memoizers, by error and context in four files
--   Metrics        metrics/inmem.go: Counts has the counters, Latencies the ring buffer
--   RefreshLoop    internal/refreshloop/refreshloop.go
--   Loader         loader/loader.go; Loader/Latest has what a loader shows,
--                  Loader/Stopping its goroutines and `Stop`
--   Background     background/background.go, value.go, options.go: `Keep` and `Mirror`
--   Tests          the theorems at concrete inputs
--
-- How state and operations correspond. An operation is a run: it takes a `World` and gives an
-- outcome and the world after it. The world holds the state of the store, the map of flights and
-- the flights themselves behind pointers, the metrics recorded so far, and the goroutines that
-- `refresh` has started and that have not run. An outcome is a return, a panic, or a wait for a
-- flight that another goroutine leads. A run is sequential: what other goroutines did before shows
-- in the world that it starts from. A mutex that is held for a whole method has no counterpart.
-- The methods of a store are functions on its state, with its errors as values. The steps of the
-- memory store are runs that can panic: each access to its array is checked against the range.
--
-- A loader, `Keep` and `Mirror` are runs over the signals that come to their goroutine: ticks, and
-- the end.
--
-- The goroutine of a ticker clock, and the two of a loader, are step relations on a state that the
-- callers of `Stop` share, so that their steps come in any order.
--
-- Parameters. The clock of a cache is a stream of readings, of which theorems assume at most that
-- it does not run backwards; a compute function is a function of its context and of how many
-- computations ran before it, which gives a value and an error or panics, and does not call its own
-- cache; what Go knows of the types (equality of keys, a zero value, `fmt.Sprint`) is a record. The
-- store under a cache is any record of methods that meets Store/Laws, as the direct store, the
-- single-entry store, the memory store, the sharded store and a chain do, and the file store and
-- the redis store where calls do not fail. The file system and its path names, SHA-256 in hex, gob,
-- JSON, the serializer, the redis client and Go's formatting of keys are records of functions, with
-- what the stores rely on as laws: no two keys share a name, decoding gives back what was encoded,
-- a temporary file is new, a call of the file system that fails changes no file but the open one, a
-- listing of a directory has all that is there, a scan of redis meets all names that start with a
-- text without characters of patterns, and no key of redis expires during a call. `GOMAXPROCS` is a
-- number, and the dynamic type of the keys of a sharded store a function to keys of the hash.
--
-- Bounds. Only the loops of the memory store run on fuel: those of `Set` that evict and the one of
-- `DeleteByTag`. They get one more than the number of entries, and each round removes an entry or,
-- in `DeleteByTag`, goes on by one. Both a panic and a loop without fuel left give `none`, and the
-- theorems on a valid store exclude both. Its indices wrap at 2 ^ 32, its count of hits at 2 ^ 64,
-- and its bytes in use do not overflow. `NewSharded` halves its count of shards on fuel, as much as
-- the count, which each round makes smaller. All other loops are over lists or a given number of
-- rounds. Words of the hash wrap at 2 ^ 64. Instants are nanoseconds since the zero time of Go as
-- natural numbers, and durations do not overflow, nor do counters of metrics. What a context
-- carries is not looked at, but which context is handed on is.
--
-- Unix milliseconds count from 1970, which no reading of a ticker clock precedes.
--
-- Not modelled: interleavings within an operation of the cache, the expiry of keys by redis, the
-- rates and percentiles of metrics/inmem.go, which are floats, the implementations of serializers,
-- which call encoding packages, and the examples and benchmarks.
pub mod Base
pub mod Hash
pub mod Time
pub mod Stored
pub mod Store
pub mod Clock
pub mod Options
pub mod Cache
pub mod Direct
pub mod World
pub mod Events
pub mod Flights
pub mod Engine
pub mod Stores
pub mod Memoize
pub mod Metrics
pub mod RefreshLoop
pub mod Loader
pub mod Background
pub mod Redis
mod Tests

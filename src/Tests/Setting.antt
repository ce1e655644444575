-- ===== src/Tests/Setting.antt =====
-- A cache over the direct store, and worlds for it: the setting of the tests.
use go_memoize.Base.{ℕ, true, false, none, some, [], refl, ℕ_discrete}
use go_memoize.Base.Int.{pos}
use go_memoize.Stored.{Stored}
use go_memoize.Store.{Store, zero_stored}
use go_memoize.Direct.{DirectStore, direct_store}
use go_memoize.Options.{mismatch, Options, ticker, noop}
use go_memoize.Cache.{Cache}
use go_memoize.Engine.Reads.{Uses}
use go_memoize.World.{World, GoTypes, Compute, gives}
use go_memoize.Flights.{new_flight}

abbrev pub go : GoTypes ℕ ℕ
go = record { key_eq = ℕ_discrete; zero = 0; sprint = λ _. "key" }

abbrev pub DirectState : Type 0
DirectState = DirectStore ℕ

abbrev pub direct : Store ℕ ℕ DirectState
direct = direct_store 0

-- a ttl of ten nanoseconds, and none for stale entries
abbrev pub settings : Options ℕ ℕ DirectState
settings = record {
  store = mismatch;
  has_store = false;
  ttl_set = true;
  ttl = pos 10;
  stale_ttl = pos 0;
  no_expiration = false;
  bypass = false;
  keep_stale_on_error = false;
  metrics = none;
  metrics_enabled = false;
  clock = none;
  refresh_timeout = pos 0;
  ticker_interval = pos 0;
}

abbrev pub cache : Cache ℕ ℕ DirectState
cache = record {
  store = some direct;
  peeker = direct.peek;
  ttl_set = true;
  ttl = pos 10;
  stale_ttl = pos 0;
  no_expiration = false;
  bypass = false;
  keep_stale_on_error = false;
  metrics = some noop;
  metrics_enabled = false;
  clock = some (ticker (pos 1000000));
  clock_owned = true;
  ticker_interval = pos 0;
  refresh_timeout = pos 30000000000;
}

-- `cache` with a stale window of five nanoseconds, and old entries in place of errors
abbrev pub stale_cache : Cache ℕ ℕ DirectState
stale_cache = record cache { stale_ttl = pos 5; keep_stale_on_error = true; metrics_enabled = true }

abbrev pub cache-Uses : Uses cache direct
cache-Uses = record { active = refl; stored = refl; peeker = refl }

abbrev pub stale_cache-Uses : Uses stale_cache direct
stale_cache-Uses = record { active = refl; stored = refl; peeker = refl }

-- the clock shows 1, 2, 3, …
abbrev pub empty : World ℕ ℕ DirectState
empty = record {
  store = record { entries = λ _. none };
  flights = λ _. none;
  heap = λ _. new_flight 0;
  fresh_pointer = 0;
  events = [];
  readings = λ i. i;
  tick = 1;
  calls = 0;
  tasks = [];
}

-- an entry that is fresh up to 20 and stale up to 40
abbrev pub entry : Stored ℕ
entry = record (zero_stored 0) { value = 7; fresh_until = 20; stale_until = 40 }

abbrev pub holding : World ℕ ℕ DirectState
holding = record empty { store = record { entries = λ _. some entry } }

-- key 3 is in flight
abbrev pub flying : World ℕ ℕ DirectState
flying = record empty { flights = λ _. some 0; fresh_pointer = 1 }

-- the entry, in its stale window and after it
abbrev pub aged : World ℕ ℕ DirectState
aged = record holding { tick = 30 }

abbrev pub gone : World ℕ ℕ DirectState
gone = record holding { tick = 50 }

abbrev pub seven : Compute ℕ
seven ctx n = gives 7 none

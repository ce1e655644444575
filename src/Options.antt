-- ===== src/Options.antt =====
-- direct_options.go: the options of a cache and their builder methods.
use go_memoize.Base.{ℕ, Bool, true, false, Option, none, is_some, if◌then◌else◌}
use go_memoize.Base.Int.{pos, is_pos}
use go_memoize.Time.{Duration}
use go_memoize.Store.{Store}

-- The argument of `WithStore(store any)`: a value that is no `Store[K, V]`, a nil one, or a store.
pub data AnyStore (K V S : Type 0) : Type 0 where
  mismatch nil_value : AnyStore K V S
  given : Store K V S → AnyStore K V S

-- A clock is the package's ticker, by its interval, or one of the caller's.
pub data Clock : Type 0 where
  ticker : Duration → Clock
  custom : ℕ → Clock

-- `Metrics`: the sink that ignores its events, or one of the caller's.
pub data Metrics : Type 0 where
  noop : Metrics
  sink : ℕ → Metrics

pub record Options (K V S : Type 0) : Type 0 where
  pub store : AnyStore K V S
  pub has_store : Bool
  pub ttl_set : Bool
  pub ttl : Duration
  pub stale_ttl : Duration
  pub no_expiration : Bool
  pub bypass : Bool
  pub keep_stale_on_error : Bool
  pub metrics : Option Metrics
  pub metrics_enabled : Bool
  pub clock : Option Clock
  pub refresh_timeout : Duration
  pub ticker_interval : Duration

module _ {K V S : Type 0} where
  unfoldable pub opts : Options K V S
  opts = record {
    store = mismatch;
    has_store = false;
    ttl_set = false;
    ttl = pos 0;
    stale_ttl = pos 0;
    no_expiration = false;
    bypass = false;
    keep_stale_on_error = false;
    metrics = none;
    metrics_enabled = false;
    clock = none;
    refresh_timeout = pos 0;
    ticker_interval = pos 0;
  }

  unfoldable pub with_store : AnyStore K V S → Options K V S → Options K V S
  with_store store o = record o { has_store = true; store = store }

  unfoldable pub with_ttl : Duration → Options K V S → Options K V S
  with_ttl ttl o = record o { ttl_set = true; ttl = ttl }

  unfoldable pub with_stale_ttl : Duration → Options K V S → Options K V S
  with_stale_ttl ttl o = record o { stale_ttl = ttl }

  unfoldable pub keep_stale_on_error : Options K V S → Options K V S
  keep_stale_on_error o = record o { keep_stale_on_error = true }

  unfoldable pub with_metrics : Option Metrics → Options K V S → Options K V S
  with_metrics metrics o =
      if is_some metrics then record o { metrics = metrics; metrics_enabled = true } else o

  unfoldable pub with_clock : Option Clock → Options K V S → Options K V S
  with_clock clock o =
      if is_some clock then record o { clock = clock; ticker_interval = pos 0 } else o

  unfoldable pub with_refresh_timeout : Duration → Options K V S → Options K V S
  with_refresh_timeout timeout o =
      if is_pos timeout then record o { refresh_timeout = timeout } else o

  unfoldable pub with_ticker_clock : Duration → Options K V S → Options K V S
  with_ticker_clock interval o =
      if is_pos interval then record o { clock = none; ticker_interval = interval } else o

  unfoldable pub no_expiration : Options K V S → Options K V S
  no_expiration o = record o { no_expiration = true }

  unfoldable pub bypass : Options K V S → Options K V S
  bypass o = record o { bypass = true }

-- ===== src/Cache.antt =====
-- options.go and direct_options.go: the cache's settings, `applyOptions`, `New` and `Stop`. The
-- part of a `Cache` that changes while it runs is the `World` of Engine.antt.
pub mod New
use go_memoize.Base.{
  ℕ, Bool, true, false, not, ◌&&◌, ◌||◌, Option, none, some, is_some, List, [], ◌∷◌, ◌==◌,
  if◌then◌else◌,
}
use go_memoize.Base.Int.{pos, pos_part, neg_part, is_nonpos, is_neg, is_pos}
use go_memoize.Base.Result.{Result, ok, err, ◌>>=◌}
use go_memoize.Time.{Time, Duration}
use go_memoize.Stored.{Stored}
use go_memoize.Store.{
  Store, Ctx, Found, Error, missing_expiration_policy, invalid_ttl, invalid_stale_ttl,
  missing_store, invalid_store,
}
use go_memoize.Options.{
  Options, AnyStore, mismatch, nil_value, given, Clock, ticker, Metrics, noop, with_store,
}

pub record Cache (K V S : Type 0) : Type 0 where
  pub store : Option (Store K V S)
  pub peeker : Option (Ctx → K → S → Found (Stored V) × S)
  pub ttl_set : Bool
  pub ttl : Duration
  pub stale_ttl : Duration
  pub no_expiration : Bool
  pub bypass : Bool
  pub keep_stale_on_error : Bool
  pub metrics : Option Metrics
  pub metrics_enabled : Bool
  pub clock : Option Clock
  pub clock_owned : Bool
  pub ticker_interval : Duration
  pub refresh_timeout : Duration

abbrev pub is_zero_duration : Duration → Bool
is_zero_duration d = (pos_part d == 0) && (neg_part d == 0)

module _ {K V S : Type 0} where
  -- the literal with which `New` starts: thirty seconds for a refresh
  unfoldable pub initial : Cache K V S
  initial = record {
    store = none;
    peeker = none;
    ttl_set = false;
    ttl = pos 0;
    stale_ttl = pos 0;
    no_expiration = false;
    bypass = false;
    keep_stale_on_error = false;
    metrics = some noop;
    metrics_enabled = false;
    clock = none;
    clock_owned = false;
    ticker_interval = pos 0;
    refresh_timeout = pos 30000000000;
  }

  -- the type assertion and `isNilStore`
  unfoldable pub checked_store : AnyStore K V S → Result Error (Store K V S)
  checked_store mismatch = err invalid_store
  checked_store nil_value = err invalid_store
  checked_store (given store) = ok store

  -- the first `if` of `applyOptions`
  unfoldable pub apply_store : Cache K V S → Options K V S → Result Error (Cache K V S)
  unfolding checked_store
  apply_store c opts =
      if opts.has_store
      then (do
        store ← checked_store opts.store
        ok (record c { store = some store; peeker = store.peek }))
      else ok c

  -- the other settings, in the order of the source: later ones read what earlier ones wrote
  unfoldable pub apply_settings : Cache K V S → Options K V S → Cache K V S
  apply_settings c opts =
      let c = if opts.ttl_set then record c { ttl_set = true; ttl = opts.ttl } else c in
      let c =
        if not (is_zero_duration opts.stale_ttl)
        then record c { stale_ttl = opts.stale_ttl }
        else c in
      let c = if opts.no_expiration then record c { no_expiration = true } else c in
      let c = if opts.bypass then record c { bypass = true } else c in
      let c = if opts.keep_stale_on_error then record c { keep_stale_on_error = true } else c in
      let c =
        if opts.metrics_enabled
        then record c { metrics = opts.metrics; metrics_enabled = true }
        else c in
      let c =
        if is_some opts.clock
        then record c { clock = opts.clock; clock_owned = false; ticker_interval = pos 0 }
        else c in
      let c =
        if is_pos opts.refresh_timeout
        then record c { refresh_timeout = opts.refresh_timeout }
        else c in
      if is_pos opts.ticker_interval
      then record c { clock = none; clock_owned = false; ticker_interval = opts.ticker_interval }
      else c

  unfoldable pub apply_options : Cache K V S → Options K V S → Result Error (Cache K V S)
  unfolding apply_store apply_settings
  apply_options c opts = do c ← apply_store c opts; ok (apply_settings c opts)

  -- the loop of `New` over its options
  unfoldable pub apply_all : Cache K V S → List (Options K V S) → Result Error (Cache K V S)
  unfolding apply_options
  apply_all c [] = ok c
  apply_all c (opt ∷ opts) = do c ← apply_options c opt; apply_all c opts

  -- the five checks of `New`, in its order
  unfoldable pub validate : Cache K V S → Result Error (Cache K V S)
  validate c =
      if c.ttl_set && is_nonpos c.ttl
      then err invalid_ttl
      else if is_neg c.stale_ttl
      then err invalid_stale_ttl
      else if is_zero_duration c.ttl && (not c.no_expiration && not c.bypass)
      then err missing_expiration_policy
      else if is_zero_duration c.ttl && is_pos c.stale_ttl
      then err invalid_stale_ttl
      else if not (is_some c.store) && not c.bypass
      then err missing_store
      else ok c

  -- a configured ticker, else the caller's clock, else a ticker of a millisecond
  unfoldable pub start_clock : Cache K V S → Cache K V S
  start_clock c =
      if is_pos c.ticker_interval
      then record c { clock = some (ticker c.ticker_interval); clock_owned = true }
      else if not (is_some c.clock)
      then record c { clock = some (ticker (pos 1000000)); clock_owned = true }
      else c

  unfoldable pub new : List (Options K V S) → Result Error (Cache K V S)
  unfolding initial apply_all validate start_clock
  new opts = do c ← apply_all initial opts; c ← validate c; ok (start_clock c)

  -- `Stop`: whether it stops a ticker, which it does only to one that the cache owns
  unfoldable pub stop : Cache K V S → Bool
  stop c = elim c.clock [ some (ticker _) ↦ c.clock_owned | _ ↦ false ]

  -- `newDirectCache`, given the new direct store that it falls back on
  unfoldable pub new_direct_cache : Store K V S → Options K V S → Result Error (Cache K V S)
  unfolding new with_store
  new_direct_cache direct opts =
      let opts = if opts.has_store then opts else with_store (given direct) opts in new (opts ∷ [])

-- ===== src/Metrics.antt =====
-- metrics/inmem.go: the sink of events that counts them by key, and keeps the latest latencies.
-- A counter does not overflow, and a latency in whole milliseconds is exact as a float.
pub mod Counts
pub mod Latencies
use Prim.Native.String.{String}
use go_memoize.Base.{
  ℕ, zero, suc, ◌+◌, ◌-◌, ◌/◌, ◌%◌, Bool, true, false, Option, none, some, List, [], ◌∷◌, ltb,
  if◌then◌else◌, update, ℕ_discrete,
}
use go_memoize.Base.Int.{ℤ, pos, negsuc}
use go_memoize.Time.{Duration}
use go_memoize.World.{
  MetricEventKind, hit, miss, stale_hit, refresh_start, refresh_success, refresh_error, set_event,
  delete_event, MetricEvent,
}

-- the length of `latencies`
abbrev pub latency_count : ℕ
latency_count = 1024

-- `cacheEntry`
pub record CacheEntry : Type 0 where
  pub hits : ℕ
  pub misses : ℕ
  pub stale_hits : ℕ
  pub sets : ℕ
  pub deletes : ℕ
  pub refresh_successes : ℕ
  pub refresh_errors : ℕ
  pub latencies : ℕ → ℤ
  pub lat_len : ℕ
  pub lat_head : ℕ

-- `&cacheEntry{}`
abbrev pub zero_entry : CacheEntry
zero_entry = record {
  hits = 0;
  misses = 0;
  stale_hits = 0;
  sets = 0;
  deletes = 0;
  refresh_successes = 0;
  refresh_errors = 0;
  latencies = λ _. pos 0;
  lat_len = 0;
  lat_head = 0;
}

-- `Milliseconds` of a duration, which rounds towards zero
abbrev pub milliseconds : Duration → ℤ
milliseconds (pos n) = pos (n / 1000000)
milliseconds (negsuc n) = let ms = (n + 1) / 1000000 in if ltb 0 ms then negsuc (ms - 1) else pos 0

unfoldable pub add_latency : Duration → CacheEntry → CacheEntry
add_latency d e = record e {
  latencies = update ℕ_discrete e.latencies e.lat_head (milliseconds d);
  lat_head = (e.lat_head + 1) % latency_count;
  lat_len = if ltb e.lat_len latency_count then e.lat_len + 1 else e.lat_len;
}

-- the switch of `RecordMetric`
unfoldable pub count_event : MetricEventKind → CacheEntry → CacheEntry
count_event hit e = record e { hits = e.hits + 1 }
count_event miss e = record e { misses = e.misses + 1 }
count_event stale_hit e = record e { stale_hits = e.stale_hits + 1 }
count_event set_event e = record e { sets = e.sets + 1 }
count_event delete_event e = record e { deletes = e.deletes + 1 }
count_event refresh_success e = record e { refresh_successes = e.refresh_successes + 1 }
count_event refresh_error e = record e { refresh_errors = e.refresh_errors + 1 }
count_event refresh_start e = e

-- what `RecordMetric` does to the entry of the event's key
unfoldable pub record_in : MetricEventKind → Duration → CacheEntry → CacheEntry
record_in refresh_success d e = add_latency d (count_event refresh_success e)
record_in kind d e = count_event kind e

-- `== MetricRefreshStart`
abbrev pub is_refresh_start : MetricEventKind → Bool
is_refresh_start refresh_start = true
is_refresh_start _ = false

-- `InMemoryMetrics`. Only its map points to the entries.
pub record InMemoryMetrics : Type 0 where
  pub caches : String → Option CacheEntry

unfoldable pub new_in_memory_metrics : InMemoryMetrics
new_in_memory_metrics = record { caches = λ _. none }

-- `entry`: the entry of a name, a new one when it is missing, which `RecordMetric` keeps
unfoldable pub entry_of : InMemoryMetrics → String → CacheEntry
entry_of m name = elim (m.caches name) [ none ↦ zero_entry | some e ↦ e ]

-- The counters of `CacheStats`.
pub record CacheStats : Type 0 where
  pub hits : ℕ
  pub misses : ℕ
  pub stale_hits : ℕ
  pub sets : ℕ
  pub deletes : ℕ
  pub refresh_successes : ℕ
  pub refresh_errors : ℕ

-- `Stats`, by the name of a metric
unfoldable pub stats : InMemoryMetrics → String → Option CacheStats
stats m name = elim (m.caches name) [
  | none ↦ none
  | some e ↦ some (record {
    hits = e.hits;
    misses = e.misses;
    stale_hits = e.stale_hits;
    sets = e.sets;
    deletes = e.deletes;
    refresh_successes = e.refresh_successes;
    refresh_errors = e.refresh_errors;
  })
]

unfoldable pub reset : InMemoryMetrics → InMemoryMetrics
reset m = record m { caches = λ _. none }

module _ (name_eq : Discrete String) where
  unfoldable pub record_metric : MetricEvent → InMemoryMetrics → InMemoryMetrics
  record_metric event m = if is_refresh_start event.kind then m else record m {
    caches =
        update name_eq m.caches event.key
          (some (record_in event.kind event.duration (entry_of m event.key)));
  }

  -- the events that a sink receives, the first one first
  unfoldable pub record_all : List MetricEvent → InMemoryMetrics → InMemoryMetrics
  record_all [] m = m
  record_all (event ∷ events) m = record_all events (record_metric event m)

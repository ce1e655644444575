-- ===== src/Metrics/Counts.antt =====
-- What the counters of the sink count.
use Prim.Native.String.{String}
use go_memoize.Base.{
  ℕ, suc, ◌+◌, List, [], ◌∷◌, if◌then◌else◌, ◌≡◌, ◌≢◌, refl, ap, arith, ite, update,
}
use go_memoize.World.{
  MetricEventKind, hit, miss, stale_hit, refresh_start, refresh_success, refresh_error, set_event,
  delete_event, MetricEvent,
}
use go_memoize.Time.{Duration}
use go_memoize.Metrics.Latencies.{IsLatest, IsLatest-zero, with_latency, record_in-IsLatest}
use go_memoize.Metrics.{
  CacheEntry, zero_entry, add_latency, count_event, record_in, is_refresh_start, InMemoryMetrics,
  new_in_memory_metrics, entry_of, record_metric, record_all,
}

-- the counter of a kind of events; the start of a refresh is not counted.
abbrev pub tally : MetricEventKind → CacheEntry → ℕ
tally hit e = e.hits
tally miss e = e.misses
tally stale_hit e = e.stale_hits
tally set_event e = e.sets
tally delete_event e = e.deletes
tally refresh_success e = e.refresh_successes
tally refresh_error e = e.refresh_errors
tally refresh_start e = 0

pub kind_discrete : Discrete MetricEventKind
kind_discrete = hlevel

-- how many times a kind of events comes up under a name
abbrev pub occurrences : Discrete String → MetricEventKind → String → List MetricEvent → ℕ
occurrences name_eq kind name [] = 0
occurrences name_eq kind name (event ∷ events) =
    ite (name_eq event.key name) (ite (kind_discrete event.kind kind) 1 0) 0
    + occurrences name_eq kind name events

zero_entry-tally : (kind : MetricEventKind) → tally kind zero_entry ≡ 0
zero_entry-tally hit = refl
zero_entry-tally kind = refl

record_in-tally :
    (kind event_kind : MetricEventKind) (d : Duration) (e : CacheEntry)
    → tally kind (record_in event_kind d e)
      ≡ ite (kind_discrete event_kind kind) (tally kind (record_in kind d e)) (tally kind e)
unfolding record_in count_event add_latency
record_in-tally kind event_kind d e = ground (arith)

record_in-suc :
    (kind : MetricEventKind) (d : Duration) (e : CacheEntry)
    → kind ≢ refresh_start
    → tally kind (record_in kind d e) ≡ suc (tally kind e)
unfolding record_in count_event add_latency
record_in-suc kind d e counted = ground (arith)

taken-IsLatest :
    (kind : MetricEventKind) (d : Duration) (ds : List Duration) (e : CacheEntry)
    → IsLatest ds e
    → IsLatest (with_latency kind d ds) (if is_refresh_start kind then e else record_in kind d e)
taken-IsLatest refresh_start d ds e h = h
taken-IsLatest hit d ds e h = record_in-IsLatest hit d ds e h
taken-IsLatest kind d ds e h = record_in-IsLatest kind d ds e h

chosen-IsLatest :
    {A : Type 0} (mine : Dec A) (kind : MetricEventKind) (d : Duration) (ds : List Duration)
    (e : CacheEntry)
    → IsLatest ds e
    → IsLatest
        (ite mine (with_latency kind d ds) ds)
        (ite mine (if is_refresh_start kind then e else record_in kind d e) e)
chosen-IsLatest (yes _) kind d ds e h = taken-IsLatest kind d ds e h
chosen-IsLatest (no _) kind d ds e h = h

module _ (name_eq : Discrete String) (name : String) where
  entry_of-record_metric :
      (event : MetricEvent) (m : InMemoryMetrics)
      → entry_of (record_metric name_eq event m) name
        ≡ ite
            (name_eq event.key name)
            (if is_refresh_start event.kind
              then entry_of m name
              else record_in event.kind event.duration (entry_of m name))
            (entry_of m name)
  unfolding entry_of record_metric update
  entry_of-record_metric event m = elim (name_eq event.key name) [
    | yes e ↦ ground (arith, e, ap m.caches e)
    | no n ↦ ground (arith, n)
  ]

  -- the latencies that the events bring in under the name, the latest one first, on top of others
  abbrev pub latest : List MetricEvent → List Duration → List Duration
  latest [] ds = ds
  latest (event ∷ events) ds =
      latest events (ite (name_eq event.key name) (with_latency event.kind event.duration ds) ds)

  record_metric-tally :
      (kind : MetricEventKind) (event : MetricEvent) (m : InMemoryMetrics)
      → kind ≢ refresh_start
      → tally kind (entry_of (record_metric name_eq event m) name)
        ≡ ite (name_eq event.key name) (ite (kind_discrete event.kind kind) 1 0) 0
          + tally kind (entry_of m name)
  record_metric-tally kind event m counted =
      let e = entry_of m name in
      rw (entry_of-record_metric event m) (
        ground (
          arith,
          record_in-tally kind event.kind event.duration e,
          record_in-suc kind event.duration e counted,
        ))

  record_all-tally :
      (kind : MetricEventKind) (events : List MetricEvent) (m : InMemoryMetrics)
      → kind ≢ refresh_start
      → tally kind (entry_of (record_all name_eq events m) name)
        ≡ occurrences name_eq kind name events + tally kind (entry_of m name)
  unfolding record_all
  record_all-tally kind [] m counted = omega arith
  record_all-tally kind (event ∷ events) m counted = omega (
    arith,
    record_all-tally kind events (record_metric name_eq event m) counted,
    record_metric-tally kind event m counted,
  )

  record_metric-IsLatest :
      (event : MetricEvent) (m : InMemoryMetrics) (ds : List Duration)
      → IsLatest ds (entry_of m name)
      → IsLatest
          (ite (name_eq event.key name) (with_latency event.kind event.duration ds) ds)
          (entry_of (record_metric name_eq event m) name)
  record_metric-IsLatest event m ds h =
      rw (entry_of-record_metric event m)
        (chosen-IsLatest (name_eq event.key name) event.kind event.duration ds (entry_of m name) h)

  record_all-IsLatest :
      (events : List MetricEvent) (m : InMemoryMetrics) (ds : List Duration)
      → IsLatest ds (entry_of m name)
      → IsLatest (latest events ds) (entry_of (record_all name_eq events m) name)
  unfolding record_all
  record_all-IsLatest [] m ds h = h
  record_all-IsLatest (event ∷ events) m ds h =
      record_all-IsLatest events (record_metric name_eq event m) _
        (record_metric-IsLatest event m ds h)

  -- From a new sink on, whatever events it receives: each counter under a name is the number of
  -- events of its kind with that name as key, and the buffer of latencies has those of the
  -- successful refreshes under the name, the latest 1024 or all if they are fewer.
  pub record_all-exact :
      (events : List MetricEvent)
      → ((kind : MetricEventKind)
          → kind ≢ refresh_start
          → tally kind (entry_of (record_all name_eq events new_in_memory_metrics) name)
            ≡ occurrences name_eq kind name events)
        × IsLatest
            (latest events [])
            (entry_of (record_all name_eq events new_in_memory_metrics) name)
  unfolding new_in_memory_metrics entry_of
  record_all-exact events = (
    (λ kind counted.
        omega (
          arith,
          record_all-tally kind events new_in_memory_metrics counted,
          zero_entry-tally kind,
        )),
    record_all-IsLatest events new_in_memory_metrics [] IsLatest-zero,
  )

-- ===== src/Metrics/Latencies.antt =====
-- The ring buffer of latencies.
use mathlib.Core.Option.{some-injective}
use go_memoize.Base.{
  ℕ, zero, suc, ◌-◌, ◌%◌, ◌<◌, Option, none, some, List, [], ◌∷◌, ltb, if◌then◌else◌, ◌≡◌, ◌≢◌, ◌∙◌,
  refl, ap, arith, update, update_self, update_ne, ℕ_discrete,
}
use go_memoize.Base.Lists.{length}
use go_memoize.Time.{Duration}
use go_memoize.World.{MetricEventKind, hit, refresh_success}
use go_memoize.Metrics.{
  CacheEntry, zero_entry, latency_count, milliseconds, add_latency, count_event, record_in,
}

abbrev pub get_elem? : List Duration → ℕ → Option Duration
get_elem? [] i = none
get_elem? (d ∷ ds) zero = some d
get_elem? (d ∷ ds) (suc i) = get_elem? ds i

-- The buffer has the latencies of these durations, the latest one first, as far back as it reaches.
pub record IsLatest (durations : List Duration) (e : CacheEntry) : Type 0 where
  pub len :
      e.lat_len ≡ (if ltb (length durations) latency_count then length durations else latency_count)
  pub head : e.lat_head ≡ length durations % latency_count
  pub slots :
      (i : ℕ) (d : Duration)
      → get_elem? durations i ≡ some d
      → i < latency_count
      → e.latencies ((length durations - 1 - i) % latency_count) ≡ milliseconds d

get_elem?-lt : (ds : List Duration) (i : ℕ) (d : Duration) → get_elem? ds i ≡ some d → i < length ds
get_elem?-lt [] i d e = absurd (cc e)
get_elem?-lt (c ∷ ds) zero d e = omega arith
get_elem?-lt (c ∷ ds) (suc i) d e = omega (arith, get_elem?-lt ds i d e)

pub IsLatest-zero : IsLatest [] zero_entry
IsLatest-zero = record { len = refl; head = refl; slots = λ i d e. absurd (cc e) }

slots-add :
    (ds : List Duration) (c : Duration) (e : CacheEntry)
    → IsLatest ds e
    → (i : ℕ) (d : Duration) → get_elem? (c ∷ ds) i ≡ some d
    → i < latency_count
    → update ℕ_discrete e.latencies e.lat_head (milliseconds c) ((length ds - i) % latency_count)
      ≡ milliseconds d
slots-add ds c e h zero d found lt =
    let here : (length ds - 0) % latency_count ≡ e.lat_head = omega (arith, h.head) in
    ap (update ℕ_discrete e.latencies e.lat_head (milliseconds c)) here
    ∙ update_self ℕ_discrete e.latencies e.lat_head (milliseconds c)
    ∙ ap milliseconds (some-injective _ _ found)
slots-add ds c e h (suc i) d found lt =
    let older = get_elem?-lt ds i d found in
    let apart : e.lat_head ≢ (length ds - suc i) % latency_count = (λ f. omega (arith, h.head)) in
    let same : length ds - suc i ≡ length ds - 1 - i = omega arith in
    update_ne ℕ_discrete e.latencies e.lat_head _ (milliseconds c) apart
    ∙ ap (λ q. e.latencies (q % latency_count)) same
    ∙ h.slots i d found (omega arith)

IsLatest-add :
    (ds : List Duration) (c : Duration) (e : CacheEntry)
    → IsLatest ds e
    → IsLatest (c ∷ ds) (add_latency c e)
unfolding add_latency
IsLatest-add ds c e h = record {
  len = ground (arith, h.len);
  head = omega (arith, h.head);
  slots = λ i d found lt.
      let same : length (c ∷ ds) - 1 - i ≡ length ds - i = omega arith in
      ap (λ q. update ℕ_discrete e.latencies e.lat_head (milliseconds c) (q % latency_count)) same
      ∙ slots-add ds c e h i d found lt;
}

-- Counters are no latencies.
count_event-IsLatest :
    (kind : MetricEventKind) (ds : List Duration) (e : CacheEntry)
    → IsLatest ds e
    → IsLatest ds (count_event kind e)
unfolding count_event
count_event-IsLatest hit ds e h = record { len = h.len; head = h.head; slots = h.slots }
count_event-IsLatest kind ds e h = record { len = h.len; head = h.head; slots = h.slots }

-- the durations after an event of a kind
abbrev pub with_latency : MetricEventKind → Duration → List Duration → List Duration
with_latency refresh_success d ds = d ∷ ds
with_latency _ d ds = ds

pub record_in-IsLatest :
    (kind : MetricEventKind) (d : Duration) (ds : List Duration) (e : CacheEntry)
    → IsLatest ds e
    → IsLatest (with_latency kind d ds) (record_in kind d e)
unfolding record_in
record_in-IsLatest refresh_success d ds e h =
    IsLatest-add ds d (count_event refresh_success e) (count_event-IsLatest refresh_success ds e h)
record_in-IsLatest kind d ds e h = count_event-IsLatest kind ds e h

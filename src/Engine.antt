-- ===== src/Engine.antt =====
-- cache.go: the operations of a cache, as runs over the `World`.
pub mod Reads
pub mod Entry
pub mod Hits
pub mod Misses
pub mod Computes
pub mod Refresh
pub mod Waits
pub mod Deadlines
pub mod Access
use go_memoize.Base.{
  ℕ, suc, ◌+◌, Bool, true, false, not, ◌&&◌, ◌||◌, Option, none, some, is_some, List, [], ◌∷◌, ◌==◌,
  if◌then◌else◌, update, ℕ_discrete,
}
use go_memoize.Base.Int.{pos, is_pos}
use go_memoize.Time.{Time, Duration, add, sub}
use go_memoize.Stored.{Stored, EntryState, expired, fresh, stale, state, is_fresh}
use go_memoize.Store.{
  Store, Ctx, background, with_timeout, Found, Error, missing_store, zero_stored,
}
use go_memoize.Cache.{Cache, is_zero_duration}
use go_memoize.Events.{
  emit_hit, emit_miss, emit_stale_hit, emit_refresh_start, emit_refresh_success, emit_refresh_error,
  emit_set, emit_delete,
}
use go_memoize.Flights.{start_flight, finish_flight, wait_for_flight, do_flight}
use go_memoize.World.{
  MetricEventKind, hit, miss, stale_hit, refresh_start, refresh_success, refresh_error, set_event,
  delete_event, MetricEvent, Flight, Ran, gives, throws, Compute, Task, World, Outcome, returned,
  panics, waits, GoTypes, M, pure, ◌>>=◌, ◌>>◌, when, ask, clock_now, run_compute,
}

module _ {K V S : Type 0} (go : GoTypes K V) where
  open go use {key_eq, zero}

  unfoldable pub get_entry :
      Cache K V S → Store K V S → Ctx → K → M (World K V S) (Found (Stored V))
  get_entry c store ctx key = elim c.peeker [
    | some peek ↦ ask (peek ctx key)
    | none ↦ ask (store.get ctx key)
  ]

  -- the value, whether it is fresh, whether the store supports the question, and the error
  unfoldable pub get_fresh_value :
      Store K V S → Ctx → K → Time → M (World K V S) (V × Bool × Bool × Option Error)
  get_fresh_value store ctx key now = elim store.peek_fresh_value [
    | some peek_fresh_value ↦ do
      (value, ok, err) ← ask (peek_fresh_value ctx key now)
      pure (value, ok, true, err)
    | none ↦ pure (zero, false, false, none)
  ]

  -- what `Set` stores at an instant
  abbrev pub entry_at : Cache K V S → V → Time → Stored V
  entry_at c value now =
      let entry = record (zero_stored zero) {
        value = value;
        created_at = now;
        no_expire = c.no_expiration;
      } in
      if c.no_expiration
      then entry
      else (let fresh_until = add now c.ttl in
          if is_pos c.stale_ttl
          then record entry { fresh_until = fresh_until; stale_until = add fresh_until c.stale_ttl }
          else record entry { fresh_until = fresh_until })

  unfoldable pub set_in : Cache K V S → Store K V S → Ctx → K → V → M (World K V S) (Option Error)
  set_in c store ctx key value = do
    now ← clock_now
    err ← ask (store.set ctx key (entry_at c value now))
    if is_some err then pure err else emit_set go c key >> pure none

  -- `Set`
  unfoldable pub set : Cache K V S → Ctx → K → V → M (World K V S) (Option Error)
  set c ctx key value = if c.bypass then pure none else elim c.store [
    | none ↦ pure (some missing_store)
    | some store ↦ set_in c store ctx key value
  ]

  -- `Delete`
  unfoldable pub delete : Cache K V S → Ctx → K → M (World K V S) (Option Error)
  delete c ctx key = elim c.store [
    | none ↦ pure (some missing_store)
    | some store ↦ do
      err ← ask (store.delete ctx key)
      if is_some err then pure err else emit_delete go c key >> pure none
  ]

  -- `Clear`
  unfoldable pub clear : Cache K V S → Ctx → M (World K V S) (Option Error)
  clear c ctx = elim c.store [
    | none ↦ pure (some missing_store)
    | some store ↦ ask (store.clear ctx)
  ]

  unfoldable pub get_in : Cache K V S → Store K V S → Ctx → K → M (World K V S) (Found V)
  get_in c store ctx key = do
    now ← clock_now
    (value, ok, _, err) ← get_fresh_value store ctx key now
    if is_some err || ok then when ok (emit_hit go c key) >> pure (value, ok, err) else do
      (entry, ok, err) ← get_entry c store ctx key
      if is_some err || not ok then pure (zero, false, err) else elim (state entry now) [
        | fresh ↦ emit_hit go c key >> pure (entry.value, true, none)
        | _ ↦ pure (zero, false, none)
      ]

  -- `Get`
  unfoldable pub get : Cache K V S → Ctx → K → M (World K V S) (Found V)
  get c ctx key = if c.bypass then pure (zero, false, none) else elim c.store [
    | none ↦ pure (zero, false, some missing_store)
    | some store ↦ get_in c store ctx key
  ]

  -- `refresh`: the leader starts a goroutine, and nobody waits for it.
  unfoldable pub refresh : K → Compute V → M (World K V S) (Unit {0})
  refresh key compute = do
    (f, leader) ← start_flight go key
    if leader
        then (λ w.
            let task : Task K V = record { key = key; flight = f; compute = compute } in
            (returned tt, record w { tasks = task ∷ w.tasks }))
        else pure tt

  -- the goroutine of `refresh`
  unfoldable pub run_refresh : Cache K V S → Task K V → M (World K V S) (Unit {0})
  run_refresh c t =
      let ctx = with_timeout c.refresh_timeout in
      do
        started ← clock_now
        emit_refresh_start go c t.key
        (value, err) ← run_compute t.compute ctx
        elim err [
          | some e ↦ do
            emit_refresh_error go c t.key e
            finish_flight go t.key t.flight value (some e)
          | none ↦ do
            err ← set c ctx t.key value
            elim err [
              | some e ↦ do
                emit_refresh_error go c t.key e
                finish_flight go t.key t.flight value (some e)
              | none ↦ do
                now ← clock_now
                emit_refresh_success go c t.key (sub now started)
                finish_flight go t.key t.flight value none
            ]
        ]

  -- the end of the function below: a result with no error is stored
  unfoldable pub compute_store :
      Cache K V S → Ctx → K → Compute V → M (World K V S) (V × Option Error)
  compute_store c ctx key compute = do
    (computed, compute_err) ← run_compute compute ctx
    if is_some compute_err
        then pure (computed, compute_err)
        else do err ← set c ctx key computed; pure (computed, err)

  -- its middle: another look at the entry
  unfoldable pub check_entry :
      Cache K V S → Store K V S → Ctx → K → Compute V → Time → M (World K V S) (V × Option Error)
  check_entry c store ctx key compute now = do
    (entry, ok, err) ← get_entry c store ctx key
    if is_some err
        then pure (zero, err)
        else if ok && is_fresh (state entry now)
        then pure (entry.value, none)
        else compute_store c ctx key compute

  -- the function that `GetOrCompute` hands to `do`: it looks once more before it computes
  unfoldable pub compute_and_set :
      Cache K V S → Store K V S → Ctx → K → Compute V → M (World K V S) (V × Option Error)
  compute_and_set c store ctx key compute = do
    now ← clock_now
    (value, ok, _, err) ← get_fresh_value store ctx key now
    if is_some err || ok then pure (value, err) else check_entry c store ctx key compute now

  -- the end of `GetOrCompute`: a miss, and an old entry in place of an error
  unfoldable pub compute_miss :
      Cache K V S
      → Store K V S
      → Ctx
      → K
      → Compute V
      → Stored V
      → Bool
      → M (World K V S) (V × Option Error)
  compute_miss c store ctx key compute entry ok = do
    emit_miss go c key
    (value, err) ← do_flight go key (compute_and_set c store ctx key compute)
    elim err [
      | none ↦ pure (value, none)
      | some e ↦
          if ok && c.keep_stale_on_error
          then emit_refresh_error go c key e >> pure (entry.value, none)
          else pure (value, some e)
    ]

  -- the middle of `GetOrCompute`: the stored entry, by its state
  unfoldable pub use_entry :
      Cache K V S → Store K V S → Ctx → K → Compute V → Time → M (World K V S) (V × Option Error)
  use_entry c store ctx key compute now = do
    (entry, ok, err) ← get_entry c store ctx key
    if is_some err
        then pure (zero, err)
        else (if ok
            then elim (state entry now) [
              | fresh ↦ emit_hit go c key >> pure (entry.value, none)
              | stale ↦ do emit_stale_hit go c key; refresh key compute; pure (entry.value, none)
              | expired ↦ compute_miss c store ctx key compute entry true
            ]
            else compute_miss c store ctx key compute entry false)

  unfoldable pub get_or_compute_in :
      Cache K V S → Store K V S → Ctx → K → Compute V → M (World K V S) (V × Option Error)
  get_or_compute_in c store ctx key compute = do
    now ← clock_now
    (value, ok, supports, err) ← get_fresh_value store ctx key now
    if is_some err || ok then when ok (emit_hit go c key) >> pure (value, err) else do
      (value, joined, err) ←
          (if supports && (is_zero_duration c.stale_ttl && not c.keep_stale_on_error)
            then wait_for_flight go key
            else pure (zero, false, none))
      if joined || is_some err then pure (value, err) else use_entry c store ctx key compute now

  -- `GetOrCompute`
  unfoldable pub get_or_compute :
      Cache K V S → Ctx → K → Compute V → M (World K V S) (V × Option Error)
  get_or_compute c ctx key compute =
      if c.bypass then emit_miss go c key >> run_compute compute ctx else elim c.store [
        | none ↦ pure (zero, some missing_store)
        | some store ↦ get_or_compute_in c store ctx key compute
      ]

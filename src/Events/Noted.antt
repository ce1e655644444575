-- ===== src/Events/Noted.antt =====
-- What an `emit` does to the world: one more event, if the cache has metrics.
use go_memoize.Base.{some, List, ◌∷◌, ◌≡◌, arith, if◌then◌else◌}
use go_memoize.Time.{Duration}
use go_memoize.Store.{Error}
use go_memoize.Cache.{Cache}
use go_memoize.World.{
  World, MetricEventKind, hit, miss, stale_hit, refresh_start, refresh_success, refresh_error,
  set_event, delete_event, MetricEvent, returned, GoTypes,
}
use go_memoize.Events.{
  event, emit, emit_hit, emit_miss, emit_stale_hit, emit_refresh_start, emit_refresh_success,
  emit_refresh_error, emit_set, emit_delete,
}

module _ {K V S : Type 0} (go : GoTypes K V) (c : Cache K V S) where
  -- the events after one more
  abbrev pub noted_event : MetricEvent → List MetricEvent → List MetricEvent
  noted_event e events = if c.metrics_enabled then e ∷ events else events

  abbrev pub noted : MetricEventKind → K → List MetricEvent → List MetricEvent
  noted kind k = noted_event (event go kind k)

  module _ (k : K) (w : World K V S) where
    pub emit_hit-noted :
        emit_hit go c k w ≡ (returned tt, record w { events = noted hit k w.events })
    unfolding emit_hit emit
    emit_hit-noted = ground arith

    pub emit_miss-noted :
        emit_miss go c k w ≡ (returned tt, record w { events = noted miss k w.events })
    unfolding emit_miss emit
    emit_miss-noted = ground arith

    pub emit_stale_hit-noted :
        emit_stale_hit go c k w ≡ (returned tt, record w { events = noted stale_hit k w.events })
    unfolding emit_stale_hit emit
    emit_stale_hit-noted = ground arith

    pub emit_set-noted :
        emit_set go c k w ≡ (returned tt, record w { events = noted set_event k w.events })
    unfolding emit_set emit
    emit_set-noted = ground arith

    pub emit_delete-noted :
        emit_delete go c k w ≡ (returned tt, record w { events = noted delete_event k w.events })
    unfolding emit_delete emit
    emit_delete-noted = ground arith

    pub emit_refresh_start-noted :
        emit_refresh_start go c k w
        ≡ (returned tt, record w { events = noted refresh_start k w.events })
    unfolding emit_refresh_start emit
    emit_refresh_start-noted = ground arith

    pub emit_refresh_success-noted :
        (d : Duration)
        → emit_refresh_success go c k d w ≡ (
          returned tt,
          record w {
            events = noted_event (record (event go refresh_success k) { duration = d }) w.events;
          },
        )
    unfolding emit_refresh_success emit
    emit_refresh_success-noted d = ground arith

    pub emit_refresh_error-noted :
        (e : Error)
        → emit_refresh_error go c k e w ≡ (
          returned tt,
          record w {
            events = noted_event (record (event go refresh_error k) { error = some e }) w.events;
          },
        )
    unfolding emit_refresh_error emit
    emit_refresh_error-noted e = ground arith

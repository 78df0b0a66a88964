-- ===== src/State/Projection/Logs.antt =====
-- About the events and errors of src/state/project-range.ts: what each log leaves, and in which order.
use lp_monitor.Prelude.{if◌then◌else◌, ◌≡◌, Option, none, some, String, List, [], ◌∷◌, ◌++◌}
use lp_monitor.Prelude.Dict.{Dict, lookup}
use lp_monitor.Domain.{LogTime}
use lp_monitor.Registry.{PoolRegistration, id_of}
use lp_monitor.State.Observations.{PoolEvent}
use lp_monitor.State.Projection.{
  RawLog, ErrorCode, ProjectionQualityError, Decoded, Decoder, RegistryLookup, Projection,
  time_or_unresolved, is_unresolved, registration_of, decode,
}
use lp_monitor.State.Projection.Accounts.{first_of_keys}

abbrev error_of : ErrorCode → RawLog → LogTime → Option String → ProjectionQualityError
error_of code log time pool_id = record { code = code; raw = log; time = time; pool_id = pool_id }

-- The event that a decoder gives, and the error that stands for it if it gives none.
abbrev event_in : Decoded → List PoolEvent
event_in (Decoded.decoded event) = event ∷ []
event_in (Decoded.refused code) = []
event_in (Decoded.failed message) = []

abbrev refusal_in : RawLog → LogTime → PoolRegistration → Decoded → List ProjectionQualityError
refusal_in log time r (Decoded.decoded event) = []
refusal_in log time r (Decoded.refused code) =
    error_of (ErrorCode.rejected code) log time (some (id_of r)) ∷ []
refusal_in log time r (Decoded.failed message) = []

abbrev time_error : RawLog → LogTime → PoolRegistration → List ProjectionQualityError
time_error log time r =
    if is_unresolved time
    then error_of ErrorCode.unresolved_time log time (some (id_of r)) ∷ []
    else []

-- The events and the errors grow by these lists, at their ends.
abbrev Grows : List PoolEvent → List ProjectionQualityError → Projection → Projection → Type 0
Grows events errors p q =
    (q.events ≡ p.events ++ events)
    × (q.quality_errors ≡ p.quality_errors ++ errors)
    × (q.seen ≡ p.seen)

module _ (decode_v3 decode_v4 : Decoder) (times : Dict LogTime) (registry : RegistryLookup) where
  abbrev pub time_of : RawLog → LogTime
  time_of log = time_or_unresolved (lookup log.key times)

  -- The event that one log leaves, if any.
  abbrev pub events_from : RawLog → Option PoolRegistration → List PoolEvent
  events_from log none = []
  events_from log (some r) =
      event_in (decode decode_v3 decode_v4 times registry r.pool log (time_of log) r)

  -- The errors that one log leaves: that its time is unknown, and why it has no event.
  abbrev pub errors_from : RawLog → Option PoolRegistration → List ProjectionQualityError
  errors_from log none =
      if registry.is_discovery log.key
      then []
      else error_of ErrorCode.unregistered_pool log (time_of log) none ∷ []
  errors_from log (some r) =
      time_error log (time_of log) r
      ++ refusal_in log (time_of log) r
          (decode decode_v3 decode_v4 times registry r.pool log (time_of log) r)

  abbrev pub all_events : List RawLog → List PoolEvent
  all_events [] = []
  all_events (log ∷ rest) = events_from log (registration_of registry log) ++ all_events rest

  abbrev pub all_errors : List RawLog → List ProjectionQualityError
  all_errors [] = []
  all_errors (log ∷ rest) = errors_from log (registration_of registry log) ++ all_errors rest

  abbrev Replayed : List RawLog → Projection → Projection → Type 0
  Replayed logs p q =
      (q.events ≡ p.events ++ all_events (first_of_keys p.seen logs))
      × (q.quality_errors ≡ p.quality_errors ++ all_errors (first_of_keys p.seen logs))

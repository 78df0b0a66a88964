-- ===== src/State/Projection.antt =====
-- src/state/project-range.ts: the logs of a range become events and observations of pools. The two
-- decoders are parameters, as their work is done by a library, and so are the keys of the logs.
pub mod Accounts
pub mod Logs
use lp_monitor.Prelude.{
  ℕ, suc, ◌+◌, if◌then◌else◌, Bool, true, false, not, ◌&&◌, Option, none, some, is_some, String,
  str_eq, List, [], ◌∷◌, ◌++◌, map, any, sort, Outcome, ok, throw, ◌>>=◌,
}
use lp_monitor.Prelude.Dict.{Dict, lookup, insert}
use lp_monitor.Domain.{PoolRef, v3, v4, LogRef, LogTime, TimeSource, pool_registration_id}
use lp_monitor.Registry.{PoolRegistration, PoolRegistry, id_of, snapshot, by_id}
use lp_monitor.State.Observations.{PoolEvent, PoolObservation, is_earlier, observe_pool}

-- What is read of a `RawLog`; `key` is `rawLogKey` of it, and `topic1` its second topic.
pub record RawLog : Type 0 where
  pub ref : LogRef
  pub key : String
  pub address : String
  pub topic1 : Option String

pub data ErrorCode : Type 0 where
  unregistered_pool unresolved_time : ErrorCode
  rejected : (code : String) → ErrorCode

pub record ProjectionQualityError : Type 0 where
  pub code : ErrorCode
  pub raw : RawLog
  pub time : LogTime
  pub pool_id : Option String

-- How a decoder ends: with an event, with a `PoolEventDecodeError`, or with another error.
pub data Decoded : Type 0 where
  decoded : PoolEvent → Decoded
  refused : (code : String) → Decoded
  failed : (message : String) → Decoded

abbrev pub Decoder : Type 0
Decoder = RawLog → LogTime → PoolRegistration → Decoded

pub record RegistryLookup : Type 0 where
  pub by_pool_id : String → Option PoolRegistration
  pub is_discovery : String → Bool
  pub preseed : List PoolRegistration

-- The part of the result that grows, with the keys of the logs that were seen.
pub record Projection : Type 0 where
  pub seen : List String
  pub events : List PoolEvent
  pub observations : Dict PoolObservation
  pub quality_errors : List ProjectionQualityError

abbrev pub empty_observation : PoolRegistration → PoolObservation
empty_observation r = record { pool = r.pool; last_swap = none; last_liquidity_action = none }

unfoldable pub preseeded : List PoolRegistration → Dict PoolObservation → Dict PoolObservation
preseeded [] observations = observations
preseeded (r ∷ rest) observations =
    preseeded rest (insert (id_of r) (empty_observation r) observations)

abbrev pub time_or_unresolved : Option LogTime → LogTime
time_or_unresolved (some time) = time
time_or_unresolved none = record {
  minute_start_sec = none;
  exact_timestamp_sec = none;
  source = TimeSource.unresolved;
}

abbrev pub is_unresolved : LogTime → Bool
is_unresolved time = elim time.source [
  | TimeSource.unresolved ↦ true
  | TimeSource.minute_boundary ↦ not (is_some time.minute_start_sec)
  | TimeSource.log_verified ↦ not (is_some time.minute_start_sec)
]

abbrev pub v4_registration : RegistryLookup → String → Option String → Option PoolRegistration
v4_registration registry address none = none
v4_registration registry address (some pool_id) =
    registry.by_pool_id (pool_registration_id (v4 address pool_id))

abbrev pub or_else : Option PoolRegistration → Option PoolRegistration → Option PoolRegistration
or_else none other = other
or_else (some r) other = some r

unfoldable pub registration_of : RegistryLookup → RawLog → Option PoolRegistration
registration_of registry log =
    or_else (registry.by_pool_id (pool_registration_id (v3 log.address)))
      (v4_registration registry log.address log.topic1)

abbrev pub with_error : ErrorCode → RawLog → LogTime → Option String → Projection → Projection
with_error code log time pool_id p = record p {
  quality_errors =
      p.quality_errors ++ record { code = code; raw = log; time = time; pool_id = pool_id } ∷ [];
}

abbrev pub observation_or_empty : PoolRegistration → Option PoolObservation → PoolObservation
observation_or_empty r none = empty_observation r
observation_or_empty r (some o) = o

abbrev pub observed : PoolRegistration → PoolEvent → Projection → Outcome Projection
observed r event p =
    if is_some event.pool
    then (observe_pool (observation_or_empty r (lookup (id_of r) p.observations)) event >>= λ o.
        ok (record p { observations = insert (id_of r) o p.observations }))
    else ok p

abbrev pub settled : RawLog → LogTime → PoolRegistration → Projection → Decoded → Outcome Projection
settled log time r p (decoded event) =
    observed r event (record p { events = p.events ++ event ∷ [] })
settled log time r p (refused code) = ok (with_error (rejected code) log time (some (id_of r)) p)
settled log time r p (failed message) = throw message

abbrev pub timed : RawLog → LogTime → PoolRegistration → Projection → Projection
timed log time r p =
    if is_unresolved time then with_error unresolved_time log time (some (id_of r)) p else p

abbrev pub comes_first : RawLog → RawLog → Bool
comes_first a b = is_earlier a.ref b.ref

module _ (decode_v3 decode_v4 : Decoder) (times : Dict LogTime) (registry : RegistryLookup) where
  abbrev pub decode : PoolRef → Decoder
  decode (v3 address) = decode_v3
  decode (v4 manager pool_id) = decode_v4

  abbrev pub step_of : RawLog → LogTime → Projection → Option PoolRegistration → Outcome Projection
  step_of log time p none = ok (
      if not (registry.is_discovery log.key)
      then with_error unregistered_pool log time none p
      else p)
  step_of log time p (some r) = settled log time r (timed log time r p) (decode r.pool log time r)

  -- A log whose key was seen is passed over.
  unfoldable pub step : RawLog → Projection → Outcome Projection
  step log p =
      if any (str_eq log.key) p.seen
      then ok p
      else step_of log (time_or_unresolved (lookup log.key times))
          (record p { seen = log.key ∷ p.seen }) (registration_of registry log)

  unfoldable pub replay : List RawLog → Projection → Outcome Projection
  replay [] p = ok p
  replay (log ∷ rest) p = step log p >>= λ next. replay rest next

  unfoldable pub project : Bool → List RawLog → Outcome Projection
  project complete logs =
      if not complete
      then throw "Projection requires accepted complete input"
      else replay (sort comes_first logs) (record {
        seen = [];
        events = [];
        observations = preseeded registry.preseed [];
        quality_errors = [];
      })

-- The lookups of the two callers: a snapshot of the registry, and a view of it.
unfoldable pub snapshot_lookup :
    (String → String → Bool) → (LogRef → String) → PoolRegistry → RegistryLookup
snapshot_lookup locale_before raw_log_key table =
    let registrations = snapshot locale_before table none in
    record {
      by_pool_id = λ id. lookup id (by_id locale_before registrations []);
      is_discovery = λ key.
          any (λ (r : PoolRegistration). str_eq key (raw_log_key r.discovered_at)) registrations;
      preseed = registrations;
    }

abbrev pub view_lookup : (String → Option PoolRegistration) → (String → Bool) → RegistryLookup
view_lookup get is_discovery_ref = record {
  by_pool_id = get;
  is_discovery = is_discovery_ref;
  preseed = [];
}

-- ===== src/State/Observations.antt =====
-- src/state/observations.ts: the latest swap and the latest liquidity action seen of a pool.
pub mod Order
use Prim.Native.Nat.{compare, Ordering}
use lp_monitor.Prelude.{
  ℕ, ◌==◌, if◌then◌else◌, Bool, true, false, not, ◌&&◌, ◌||◌, Option, none, some, String, str_eq,
  Outcome, ok, throw,
}
use lp_monitor.Prelude.Text.{to_lower_case}
use lp_monitor.Domain.{PoolRef, LogRef, pool_registration_id}

pub data EventKind : Type 0 where
  swap liquidity other : EventKind

-- The fields of an event that are read here; `body` is the rest of it.
pub record PoolEvent : Type 0 where
  pub kind : EventKind
  pub pool : Option PoolRef
  pub ref : LogRef
  pub body : String

pub record PoolObservation : Type 0 where
  pub pool : PoolRef
  pub last_swap : Option PoolEvent
  pub last_liquidity_action : Option PoolEvent

pub data ObservationFreshness : Type 0 where
  unobserved at_last_swap before_last_liquidity_action : ObservationFreshness

abbrev then_by : Ordering → Ordering → Ordering
then_by Ordering.eq next = next
then_by Ordering.lt next = Ordering.lt
then_by Ordering.gt next = Ordering.gt

-- The sign of `comparePosition`.
unfoldable pub compare_position : LogRef → LogRef → Ordering
compare_position a b =
    then_by (compare a.block_number b.block_number)
      (then_by (compare a.transaction_index b.transaction_index) (compare a.log_index b.log_index))

abbrev is_lt : Ordering → Bool
is_lt Ordering.lt = true
is_lt Ordering.eq = false
is_lt Ordering.gt = false

unfoldable pub is_earlier : LogRef → LogRef → Bool
is_earlier a b = is_lt (compare_position a b)

-- Two logs of one height in blocks of different hashes.
abbrev conflicts : LogRef → Option PoolEvent → Bool
conflicts ref none = false
conflicts ref (some prior) =
    (prior.ref.block_number == ref.block_number)
    && not (str_eq (to_lower_case prior.ref.block_hash) (to_lower_case ref.block_hash))

abbrev same_pool : PoolRef → Option PoolRef → Bool
same_pool pool none = false
same_pool pool (some p) = str_eq (pool_registration_id pool) (pool_registration_id p)

abbrev is_stale : LogRef → Option PoolEvent → Bool
is_stale ref none = false
is_stale ref (some old) = is_earlier ref old.ref

abbrev old_of : PoolObservation → EventKind → Option PoolEvent
old_of o EventKind.swap = o.last_swap
old_of o EventKind.liquidity = o.last_liquidity_action
old_of o EventKind.other = none

abbrev replace : PoolObservation → EventKind → PoolEvent → PoolObservation
replace o EventKind.swap e = record o { last_swap = some e }
replace o EventKind.liquidity e = record o { last_liquidity_action = some e }
replace o EventKind.other e = o

abbrev is_other : EventKind → Bool
is_other EventKind.other = true
is_other EventKind.swap = false
is_other EventKind.liquidity = false

unfoldable pub observe_pool : PoolObservation → PoolEvent → Outcome PoolObservation
observe_pool previous event =
    if is_other event.kind
    then ok previous
    else if not (same_pool previous.pool event.pool)
    then throw "Observation pool mismatch"
    else if conflicts event.ref previous.last_swap
        || conflicts event.ref previous.last_liquidity_action
    then throw "Conflicting history: rebuild observations from active logs"
    else if is_stale event.ref (old_of previous event.kind)
    then ok previous
    else ok (replace previous event.kind event)

unfoldable pub observation_freshness : PoolObservation → ObservationFreshness
observation_freshness o = elim o.last_swap [
  | none ↦ ObservationFreshness.unobserved
  | some s ↦ elim o.last_liquidity_action [
    | none ↦ ObservationFreshness.at_last_swap
    | some l ↦
        if is_earlier s.ref l.ref
        then ObservationFreshness.before_last_liquidity_action
        else ObservationFreshness.at_last_swap
  ]
]

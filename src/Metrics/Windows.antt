-- ===== src/Metrics/Windows.antt =====
-- src/metrics/windows.ts: the events of one minute and what is reported of the minute. The table of
-- `options.memo` only holds results of the same calls and is left out.
pub mod Sums
pub mod Minute
pub mod Buckets
pub mod Build
use lp_monitor.Prelude.{
  ℕ, suc, ◌+◌, ◌==◌, ltb, leb, if◌then◌else◌, Bool, true, false, not, ◌&&◌, ◌||◌, Option, none,
  some, is_some, String, str_eq, List, [], ◌∷◌, ◌++◌, map, length, select, any, every, ℤ, pos, ◌+ℤ◌,
  ltb_ℤ, eqb_ℤ,
}
use lp_monitor.Prelude.Text.{to_lower_case}
use lp_monitor.Domain.{PoolRef, LogRef, LogTime}
use lp_monitor.Metrics.Types.{
  RawNotional, MinuteStatus, MinuteMetric, BaselineFields, UnknownTimeBlockCount,
}

pub data EventKind : Type 0 where
  swap_event : EventKind
  liquidity_event : (delta : ℤ) → EventKind
  ancillary_event : EventKind

-- What is read of a `MetricEvent` and of the `PoolEvent` in it.
pub record MetricEvent : Type 0 where
  pub kind : EventKind
  pub ref : LogRef
  pub time : LogTime
  pub pool : Option PoolRef
  pub usd_micros : Option ℤ
  pub usdg_notional_raw : Option ℤ
  pub raw_notional : Option RawNotional
  pub scope_id : Option String

pub record MinuteCoverage : Type 0 where
  pub scope_id : String
  pub minute_start_sec : ℕ
  pub from_block : Option ℕ
  pub to_block : Option ℕ
  pub complete : Bool
  pub reasons : List String

abbrev pub no_baseline : BaselineFields
no_baseline = record {
  baseline_sample_count = 0;
  baseline_median = none;
  baseline_median_numerator = none;
  baseline_median_denominator = none;
  baseline_unit = none;
  volume_multiplier = none;
}

-- `new Set(values)` in the order of insertion.
unfoldable pub distinct_from : List String → List String → List String
distinct_from seen [] = []
distinct_from seen (x ∷ rest) =
    let with_x = x ∷ distinct_from (x ∷ seen) rest in
    let without = distinct_from seen rest in if any (str_eq x) seen then without else with_x

abbrev pub distinct : List String → List String
distinct values = distinct_from [] values

unfoldable pub scopes_of : List MetricEvent → List String
scopes_of [] = []
scopes_of (e ∷ rest) =
    let others = scopes_of rest in elim e.scope_id [ none ↦ others | some scope ↦ scope ∷ others ]

unfoldable pub select_coverage : List MetricEvent → List MinuteCoverage → List MinuteCoverage
select_coverage events coverage =
    let scopes = distinct (scopes_of events) in
    if length scopes == 1
    then select (λ (c : MinuteCoverage). any (str_eq c.scope_id) scopes) coverage
    else if leb (length (distinct (map (λ (c : MinuteCoverage). c.scope_id) coverage))) 1
    then coverage
    else []

-- `values.reduce((sum, value) => sum + value!, start)`.
unfoldable pub total : ℤ → List (Option ℤ) → ℤ
total sum [] = sum
total sum (none ∷ rest) = total sum rest
total sum (some value ∷ rest) = total (sum +ℤ value) rest

unfoldable pub sum_valued : List (Option ℤ) → Option ℤ
sum_valued values = if every is_some values then some (total (pos 0) values) else none

abbrev pub token_is : String → Option RawNotional → Bool
token_is token none = false
token_is token (some r) = str_eq (to_lower_case r.token) token

abbrev pub raw_value : Option RawNotional → Option ℤ
raw_value none = none
raw_value (some r) = some r.raw

unfoldable pub sum_raw : List (Option RawNotional) → Option RawNotional
sum_raw [] = none
sum_raw (none ∷ rest) = none
sum_raw (some first ∷ rest) =
    if every (token_is (to_lower_case first.token)) rest
    then some (record {
      token = to_lower_case first.token;
      raw = total (pos 0) (some first.raw ∷ map raw_value rest);
    })
    else none

abbrev pub is_swap : MetricEvent → Bool
is_swap e = elim e.kind [
  | swap_event ↦ true
  | liquidity_event delta ↦ false
  | ancillary_event ↦ false
]

abbrev pub has_delta : (ℤ → Bool) → MetricEvent → Bool
has_delta test e = elim e.kind [
  | swap_event ↦ false
  | liquidity_event delta ↦ test delta
  | ancillary_event ↦ false
]

-- The counts that minutes, aggregates, windows and unknown blocks take of their events.
unfoldable pub tx_count_of : List MetricEvent → ℕ
tx_count_of events = length (
    distinct
      (map (λ (e : MetricEvent). to_lower_case e.ref.transaction_hash) (select is_swap events)))

abbrev pub swap_count_of : List MetricEvent → ℕ
swap_count_of events = length (select is_swap events)

abbrev pub add_count_of : List MetricEvent → ℕ
add_count_of events = length (select (has_delta (ltb_ℤ (pos 0))) events)

abbrev pub remove_count_of : List MetricEvent → ℕ
remove_count_of events = length (select (has_delta (λ d. ltb_ℤ d (pos 0))) events)

abbrev pub zero_delta_count_of : List MetricEvent → ℕ
zero_delta_count_of events = length (select (has_delta (λ d. eqb_ℤ d (pos 0))) events)

abbrev pub usd_of : List MetricEvent → Option ℤ
usd_of events = sum_valued (map (λ (e : MetricEvent). e.usd_micros) (select is_swap events))

abbrev pub usdg_of : List MetricEvent → Option ℤ
usdg_of events = sum_valued (map (λ (e : MetricEvent). e.usdg_notional_raw) (select is_swap events))

abbrev pub unknown_block_metric : ℕ → List MetricEvent → UnknownTimeBlockCount
unknown_block_metric block_number events = record {
  block_number = block_number;
  event_count = length events;
  swap_count = swap_count_of events;
  tx_count = tx_count_of events;
  add_count = add_count_of events;
  remove_count = remove_count_of events;
  zero_delta_count = zero_delta_count_of events;
}

abbrev pub from_of : Option MinuteCoverage → Option ℕ
from_of none = none
from_of (some c) = c.from_block

abbrev pub to_of : Option MinuteCoverage → Option ℕ
to_of none = none
to_of (some c) = c.to_block

abbrev pub is_before : Option ℕ → Option ℕ → Bool
is_before none birth = false
is_before (some block) none = false
is_before (some block) (some birth) = ltb block birth

abbrev pub is_not_after : Option ℕ → Option ℕ → Bool
is_not_after none last = false
is_not_after (some birth) none = false
is_not_after (some birth) (some last) = leb birth last

abbrev pub before_birth : Option MinuteCoverage → Option ℕ → Bool
before_birth coverage birth = is_before (from_of coverage) birth

abbrev pub has_blocks : MinuteCoverage → Bool
has_blocks c = is_some c.from_block && is_some c.to_block

abbrev pub prefix_valid : Option MinuteCoverage → Bool
prefix_valid none = false
prefix_valid (some c) = has_blocks c && (c.complete || every (str_eq "watermark-partial") c.reasons)

abbrev pub closes : Option MinuteCoverage → Bool
closes none = false
closes (some c) = c.complete && has_blocks c

unfoldable pub born_in_current_prefix : ℕ → ℕ → Option MinuteCoverage → Option ℕ → Bool
born_in_current_prefix start current_minute coverage birth =
    (start == current_minute)
    && prefix_valid coverage
    && before_birth coverage birth
    && is_not_after birth (to_of coverage)

abbrev pub gap_or_warming : Option MinuteCoverage → MinuteStatus
gap_or_warming none = MinuteStatus.warming
gap_or_warming (some c) = MinuteStatus.gap

unfoldable pub minute_status : ℕ → ℕ → Option MinuteCoverage → Option ℕ → MinuteStatus
minute_status start current_minute coverage birth =
    if before_birth coverage birth
      && not (born_in_current_prefix start current_minute coverage birth)
    then MinuteStatus.warming
    else if start == current_minute
    then if prefix_valid coverage then MinuteStatus.partial else gap_or_warming coverage
    else if closes coverage
    then MinuteStatus.closed
    else gap_or_warming coverage

abbrev pub reasons_of : Option MinuteCoverage → List String → List String
reasons_of none otherwise = otherwise
reasons_of (some c) otherwise = c.reasons

abbrev pub unavailable_minute : ℕ → MinuteStatus → Option MinuteCoverage → Option ℕ → MinuteMetric
unavailable_minute start status coverage birth = record {
  minute_start_sec = start;
  status = status;
  from_block = from_of coverage;
  to_block = to_of coverage;
  reasons =
      if before_birth coverage birth
      then "pool-lifetime-incomplete" ∷ []
      else reasons_of coverage ("coverage-missing" ∷ []);
  usd_micros = none;
  usdg_notional_raw = none;
  raw_notional = none;
  swap_count = none;
  tx_count = none;
  add_count = none;
  remove_count = none;
  zero_delta_count = none;
  active_minutes = none;
  baseline = no_baseline;
}

abbrev pub raw_or_zero : Option String → List MetricEvent → Option RawNotional
raw_or_zero (some token) [] = some (record { token = to_lower_case token; raw = pos 0 })
raw_or_zero none [] = none
raw_or_zero token (e ∷ rest) = sum_raw (map (λ (s : MetricEvent). s.raw_notional) (e ∷ rest))

abbrev pub available_minute :
    ℕ
    → MinuteStatus
    → List String
    → List MetricEvent
    → Option MinuteCoverage
    → Option String
    → MinuteMetric
available_minute start status reasons events coverage raw_token = record {
  minute_start_sec = start;
  status = status;
  from_block = from_of coverage;
  to_block = to_of coverage;
  reasons = reasons;
  usd_micros = usd_of events;
  usdg_notional_raw = usdg_of events;
  raw_notional = raw_or_zero raw_token (select is_swap events);
  swap_count = some (swap_count_of events);
  tx_count = some (tx_count_of events);
  add_count = some (add_count_of events);
  remove_count = some (remove_count_of events);
  zero_delta_count = some (zero_delta_count_of events);
  active_minutes = some (if ltb 0 (swap_count_of events) then 1 else 0);
  baseline = no_baseline;
}

abbrev pub partial_reasons : Option MinuteCoverage → Bool → List String
partial_reasons coverage born =
    reasons_of coverage []
    ++ "watermark-before-minute-end" ∷ (if born then "pool-born-in-current-minute" ∷ [] else [])

abbrev pub minute_of_status :
    MinuteStatus
    → Bool
    → ℕ
    → List MetricEvent
    → Option MinuteCoverage
    → Option String
    → Option ℕ
    → MinuteMetric
minute_of_status MinuteStatus.gap born start events coverage raw_token birth =
    unavailable_minute start MinuteStatus.gap coverage birth
minute_of_status MinuteStatus.warming born start events coverage raw_token birth =
    unavailable_minute start MinuteStatus.warming coverage birth
minute_of_status MinuteStatus.partial born start events coverage raw_token birth =
    available_minute start MinuteStatus.partial (partial_reasons coverage born) events coverage
      raw_token
minute_of_status MinuteStatus.closed born start events coverage raw_token birth =
    available_minute start MinuteStatus.closed [] events coverage raw_token

unfoldable pub minute_metric :
    ℕ → ℕ → List MetricEvent → Option MinuteCoverage → Option String → Option ℕ → MinuteMetric
minute_metric start current_minute events coverage raw_token birth =
    minute_of_status (minute_status start current_minute coverage birth)
      (born_in_current_prefix start current_minute coverage birth) start events coverage raw_token
      birth

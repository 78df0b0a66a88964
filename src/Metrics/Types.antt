-- ===== src/Metrics/Types.antt =====
-- metrics/windows.ts and metrics/rolling.ts: the records of a pool's windows.
use lp_monitor.Prelude.{ℕ, String, Option, List, ℤ}
use lp_monitor.Domain.{PoolRef}

pub record RawNotional : Type 0 where
  pub token : String
  pub raw : ℤ

pub data MinuteStatus : Type 0 where
  closed partial gap warming : MinuteStatus

-- The baseline fields that all windows end with.
pub record BaselineFields : Type 0 where
  pub baseline_sample_count : ℕ
  pub baseline_median : Option ℕ
  pub baseline_median_numerator : Option ℕ
  pub baseline_median_denominator : Option ℕ
  pub baseline_unit : Option String
  pub volume_multiplier : Option ℕ

pub record MinuteMetric : Type 0 where
  pub minute_start_sec : ℕ
  pub status : MinuteStatus
  pub from_block : Option ℕ
  pub to_block : Option ℕ
  pub reasons : List String
  pub usd_micros : Option ℤ
  pub usdg_notional_raw : Option ℤ
  pub raw_notional : Option RawNotional
  pub swap_count : Option ℕ
  pub tx_count : Option ℕ
  pub add_count : Option ℕ
  pub remove_count : Option ℕ
  pub zero_delta_count : Option ℕ
  pub active_minutes : Option ℕ
  pub baseline : BaselineFields

-- The status of an aggregate is always `closed`.
pub record AggregateMetric : Type 0 where
  pub start_sec : ℕ
  pub end_sec : ℕ
  pub usd_micros : Option ℤ
  pub usdg_notional_raw : Option ℤ
  pub raw_notional : Option RawNotional
  pub swap_count : ℕ
  pub tx_count : ℕ
  pub add_count : ℕ
  pub remove_count : ℕ
  pub zero_delta_count : ℕ
  pub active_minutes : ℕ
  pub baseline : BaselineFields

pub record RollingMetric : Type 0 where
  pub start_sec : ℕ
  pub end_sec : ℕ
  pub status : MinuteStatus
  pub reasons : List String
  pub usd_micros : Option ℤ
  pub usdg_notional_raw : Option ℤ
  pub raw_notional : Option RawNotional
  pub swap_count : Option ℕ
  pub tx_count : Option ℕ
  pub add_count : Option ℕ
  pub remove_count : Option ℕ
  pub zero_delta_count : Option ℕ
  pub active_minutes : Option ℕ
  pub baseline : BaselineFields

pub record RollingWindows : Type 0 where
  pub one_minute : RollingMetric
  pub five_minutes : RollingMetric
  pub fifteen_minutes : RollingMetric
  pub one_hour : RollingMetric

pub record UnknownTimeBlockCount : Type 0 where
  pub block_number : ℕ
  pub event_count : ℕ
  pub swap_count : ℕ
  pub tx_count : ℕ
  pub add_count : ℕ
  pub remove_count : ℕ
  pub zero_delta_count : ℕ

-- A list that the source leaves out is `[]`; with `rolling` both histories are there.
pub record PoolMetricWindows : Type 0 where
  pub rolling : Option RollingWindows
  pub rolling_history_1m : List RollingMetric
  pub rolling_history_5m : List RollingMetric
  pub pool : PoolRef
  pub pool_id : String
  pub minutes : List MinuteMetric
  pub natural_5m_buckets : List AggregateMetric
  pub partial_current : Option MinuteMetric
  pub recent_closed_1m : Option MinuteMetric
  pub recent_closed_5x1m : Option AggregateMetric
  pub natural_closed_5m : Option AggregateMetric
  pub unknown_time_block_counts : List UnknownTimeBlockCount

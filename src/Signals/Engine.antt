-- ===== src/Signals/Engine.antt =====
-- src/signals/engine.ts, first part: the snapshot that an evaluation starts from, the windows that
-- it looks at, and the verdicts of the three rules on them.
pub mod Rules
pub mod Cooling
pub mod Decide
pub mod Evaluate
pub mod Counting
pub mod Alerts
pub mod Lows
pub mod Again
pub mod Repeats
pub mod Untouched
pub mod Evidence
pub mod Snapshot
pub mod Preserved
use lp_monitor.Prelude.{
  ℕ, ◌+◌, ◌-◌, ◌*◌, ◌/◌, ◌%◌, ◌==◌, ltb, leb, if◌then◌else◌, Bool, true, false, not, ◌&&◌, ◌||◌,
  Option, none, some, is_some, String, str_eq, List, [], ◌∷◌, map, select, last, last_but_one, sort,
  ℤ, pos, leb_ℤ, Outcome, ok, ◌>>=◌,
}
use lp_monitor.Prelude.Text.{to_lower_case, concat}
use lp_monitor.Metrics.Types.{
  MinuteStatus, MinuteMetric, AggregateMetric, RollingMetric, RollingWindows, PoolMetricWindows,
  RawNotional,
}
use lp_monitor.Signals.Baseline.{
  BaselineSample, SignalBaseline, is_closed, signal_baseline, meets_multiple, is_ready,
  BaselineStatus,
}
use lp_monitor.Signals.Config.{SignalConfig}
use lp_monitor.Signals.Types.{
  SignalSnapshot, SignalState, SignalCoverage, SignalInput, BaselinePair, RuleMatch,
}

abbrev pub initial_signal_snapshot : SignalSnapshot
initial_signal_snapshot = record {
  state = SignalState.watch;
  episode_id = none;
  config_version = none;
  last_alert_sec = none;
  last_alert_volume = none;
  last_alert_scale = none;
  last_five_end_sec = none;
  low_buckets = 0;
  entry_threshold = none;
  last_alert_kind = none;
  candidate_minute_start_sec = none;
  candidate_fingerprint = none;
  last_heat_sec = none;
}

abbrev pub is_uncovered : SignalCoverage → Bool
is_uncovered SignalCoverage.gap = true
is_uncovered SignalCoverage.rechecking = true
is_uncovered _ = false

-- `configVersion !== null && configVersion !== version`.
abbrev pub is_other_version : Option String → String → Bool
is_other_version none version = false
is_other_version (some v) version = not (str_eq v version)

-- The snapshot under this version of the rules.
unfoldable pub under_version : SignalSnapshot → String → SignalSnapshot
under_version previous version =
    if is_other_version previous.config_version version then initial_signal_snapshot else previous

-- `lastHeatSec !== undefined && watermarkSec - lastHeatSec >= threshold`.
abbrev pub heat_is_older : Option ℕ → ℕ → ℕ → Bool
heat_is_older none watermark threshold = false
heat_is_older (some heat) watermark threshold = leb (heat + threshold) watermark

-- The snapshot that the evaluation starts from; an episode that is over is closed.
unfoldable pub begin : SignalSnapshot → SignalInput → SignalConfig → String → SignalSnapshot
begin previous input config version =
    let kept = under_version previous version in
    let next = record kept { config_version = some version } in
    if not (is_uncovered input.coverage)
      && config.episode_expiry.enabled
      && heat_is_older next.last_heat_sec input.watermark_sec config.episode_expiry.threshold
    then record next {
      state = SignalState.watch;
      episode_id = none;
      entry_threshold = none;
      low_buckets = 0;
      last_heat_sec = none;
      last_alert_kind = none;
      last_alert_sec = none;
    }
    else next

-- What a closed five-minute window of either kind has.
pub record Bucket : Type 0 where
  pub start_sec : ℕ
  pub end_sec : ℕ
  pub usd_micros : Option ℤ
  pub raw_notional : Option RawNotional

-- `usdMicros ?? rawNotional?.raw ?? null` and its unit.
abbrev pub volume_or_raw : Option ℤ → Option RawNotional → Option ℤ
volume_or_raw (some usd) raw = some usd
volume_or_raw none (some r) = some r.raw
volume_or_raw none none = none

unfoldable pub unit_of : Option ℤ → Option RawNotional → Option String
unit_of (some usd) raw = some "usdMicros"
unit_of none (some r) = some (concat "raw:" (to_lower_case r.token))
unit_of none none = none

unfoldable pub sample_minute : MinuteMetric → BaselineSample
sample_minute m = record {
  start_sec = m.minute_start_sec;
  end_sec = m.minute_start_sec + 60;
  status = m.status;
  value = volume_or_raw m.usd_micros m.raw_notional;
  unit = unit_of m.usd_micros m.raw_notional;
}

unfoldable pub sample_bucket : Bucket → BaselineSample
sample_bucket b = record {
  start_sec = b.start_sec;
  end_sec = b.end_sec;
  status = MinuteStatus.closed;
  value = volume_or_raw b.usd_micros b.raw_notional;
  unit = unit_of b.usd_micros b.raw_notional;
}

abbrev pub empty_sample : ℕ → ℕ → BaselineSample
empty_sample start duration = record {
  start_sec = start;
  end_sec = start + duration;
  status = MinuteStatus.warming;
  value = none;
  unit = none;
}

unfoldable pub to_minute : RollingMetric → MinuteMetric
to_minute m = record {
  minute_start_sec = m.start_sec;
  status = m.status;
  from_block = none;
  to_block = none;
  reasons = m.reasons;
  usd_micros = m.usd_micros;
  usdg_notional_raw = m.usdg_notional_raw;
  raw_notional = m.raw_notional;
  swap_count = m.swap_count;
  tx_count = m.tx_count;
  add_count = m.add_count;
  remove_count = m.remove_count;
  zero_delta_count = m.zero_delta_count;
  active_minutes = m.active_minutes;
  baseline = m.baseline;
}

-- `currentMinute`; on the chain's clock the subtraction does not reach 0.
unfoldable pub current_minute : SignalInput → ℕ
current_minute input =
    (elim input.metrics.rolling [
      | some r ↦ r.one_minute.start_sec
      | none ↦ input.watermark_sec / 60 * 60
    ])
    - (if input.minute_close then 60 else 0)

abbrev pub is_partial : MinuteStatus → Bool
is_partial MinuteStatus.partial = true
is_partial _ = false

abbrev pub keep_if {ℓ} : {A : Type ℓ} → Bool → A → Option A
keep_if b a = if b then some a else none

-- The minute that the candidate rule judges.
unfoldable pub judged_minute : SignalInput → Option MinuteMetric
judged_minute input = elim input.metrics.rolling [
  | some r ↦ keep_if (is_closed r.one_minute.status) (to_minute r.one_minute)
  | none ↦
      if input.minute_close
      then elim input.metrics.recent_closed_1m [
        | none ↦ none
        | some m ↦ keep_if ((m.minute_start_sec == current_minute input) && is_closed m.status) m
      ]
      else elim input.metrics.partial_current [
        | none ↦ none
        | some m ↦ keep_if ((m.minute_start_sec == current_minute input) && is_partial m.status) m
      ]
]

unfoldable pub bucket_of_rolling : RollingMetric → Bucket
bucket_of_rolling m = record {
  start_sec = m.start_sec;
  end_sec = m.end_sec;
  usd_micros = m.usd_micros;
  raw_notional = m.raw_notional;
}

unfoldable pub bucket_of_aggregate : AggregateMetric → Bucket
bucket_of_aggregate m = record {
  start_sec = m.start_sec;
  end_sec = m.end_sec;
  usd_micros = m.usd_micros;
  raw_notional = m.raw_notional;
}

abbrev pub start_before : Bucket → Bucket → Bool
start_before a b = ltb a.start_sec b.start_sec

-- The closed five-minute windows up to the watermark, oldest first.
unfoldable pub five_windows : SignalInput → List Bucket
five_windows input =
    let rolling = is_some input.metrics.rolling in
    let buckets : List Bucket =
      if rolling
      then map bucket_of_rolling
          (select (λ (m : RollingMetric). is_closed m.status) input.metrics.rolling_history_5m)
      else map bucket_of_aggregate input.metrics.natural_5m_buckets in
    sort start_before (
      select
        (λ b.
          (rolling || (b.start_sec % 300 == 0))
          && (b.end_sec == b.start_sec + 300)
          && leb b.end_sec input.watermark_sec)
        buckets)

abbrev pub minute_sample : Option MinuteMetric → ℕ → BaselineSample
minute_sample none start = empty_sample start 60
minute_sample (some m) start = sample_minute m

abbrev pub bucket_sample : Option Bucket → ℕ → BaselineSample
bucket_sample none start = empty_sample start 300
bucket_sample (some b) start = sample_bucket b

unfoldable pub baselines : SignalInput → SignalConfig → Outcome BaselinePair
baselines input config = do
  let minutes : List MinuteMetric =
      if is_some input.metrics.rolling
      then map to_minute input.metrics.rolling_history_1m
      else input.metrics.minutes
  let five = five_windows input
  minute ←
      signal_baseline (minute_sample (judged_minute input) (current_minute input))
        (map sample_minute minutes) config.candidate.samples
  five_minute ←
      signal_baseline (bucket_sample (last five) (current_minute input)) (map sample_bucket five)
        config.confirm_relative.samples
  ok (record { minute = minute; five_minute = five_minute })

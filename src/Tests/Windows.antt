-- ===== src/Tests/Windows.antt =====
-- Runs of src/metrics/windows.ts and src/metrics/rolling.ts on a pool with a swap in each of five minutes.
use lp_monitor.Prelude.{
  ℕ, ◌+◌, ◌%◌, ◌≤◌, ◌<◌, ◌≡◌, refl, ◌⊎◌, true, false, not, none, some, is_some, List, [], ◌∷◌, All,
  any, every, filter_map, select, sort, insert_sorted, last, pos, ◌+ℤ◌, is_negative, ok, arith,
}
use lp_monitor.Prelude.Text.{to_lower_case}
use lp_monitor.Domain.{BlockAnchor, LogTime, TimeSource}
use lp_monitor.Metrics.Types.{MinuteStatus}
use lp_monitor.Metrics.Windows.{
  MetricEvent, MinuteCoverage, swap_event, distinct_from, scopes_of, select_coverage, total,
  sum_valued, sum_raw, tx_count_of, born_in_current_prefix, minute_status, minute_metric,
}
use lp_monitor.Metrics.Windows.Buckets.{
  apply_baselines, apply_minute_baselines, events_of, last_start, aggregate, minute_at, closed_run,
  five_from, with_prior, natural_from, build_natural_buckets, prior_fives, recent_five,
}
use lp_monitor.Metrics.Baseline.{
  middle_ratio, median_ratio, median_big_int, multiplier_of, multiplier_or_null, volume_baseline,
  is_finite,
}
use lp_monitor.Metrics.Baseline.Rolling.{
  baseline_from_sorted, lower_bound, sorted_insert, shift, remove_first, push, remember, history_of,
  remember_all, create, next,
}
use lp_monitor.Prelude.Dict.{lookup, insert}
use lp_monitor.Metrics.Windows.Buckets.Sound.{IsSumOfFive, RecentSum}
use lp_monitor.Metrics.Windows.Build.{
  BuildMinuteMetricOptions, WindowCore, earliest_block, coverage_at, minutes_of, distinct_numbers,
  minute_starts, minutes_from, core_from_minutes, window_core, dormant_birth,
}
use lp_monitor.Metrics.Windows.Build.Dormant.{dormant_key-is_enough}
use lp_monitor.Metrics.Windows.Build.Totals.{buckets_are_sums}
use lp_monitor.Metrics.Rolling.{
  in_rolling_window, live_window_end, reasons_from, coverage_reasons, rolling_coverage,
  window_reasons, window_status, is_decided,
}
use lp_monitor.Metrics.Rolling.Aligned.{EndsMinute, live_window_end_is_recent}
use lp_monitor.Metrics.Rolling.Window.{window}
use lp_monitor.Metrics.Rolling.Window.Additive.{add_counts, adjacent_windows_add_up}
use lp_monitor.Metrics.Windows.Sums.{add_valued}
use lp_monitor.Metrics.Rolling.Covered.{CoveredMinute, closed_window_is_covered}

abbrev time_at : ℕ → LogTime
time_at m = record {
  minute_start_sec = some m;
  exact_timestamp_sec = none;
  source = TimeSource.minute_boundary;
}

abbrev swap_at : ℕ → ℕ → MetricEvent
swap_at m usd = record {
  kind = swap_event;
  ref = record {
    block_hash = "0xaa";
    block_number = m;
    transaction_hash = "0x01";
    transaction_index = 0;
    log_index = 0;
  };
  time = time_at m;
  pool = none;
  usd_micros = some (pos usd);
  usdg_notional_raw = none;
  raw_notional = none;
  scope_id = some "s";
}

abbrev covered_at : ℕ → MinuteCoverage
covered_at m = record {
  scope_id = "s";
  minute_start_sec = m;
  from_block = some m;
  to_block = some (m + 59);
  complete = true;
  reasons = [];
}

abbrev swaps : List MetricEvent
swaps = swap_at 0 10 ∷ swap_at 60 20 ∷ swap_at 120 30 ∷ swap_at 180 40 ∷ swap_at 240 50 ∷ []

abbrev coverage : List MinuteCoverage
coverage =
    covered_at 0
    ∷ covered_at 60
    ∷ covered_at 120
    ∷ covered_at 180
    ∷ covered_at 240
    ∷ covered_at 300
    ∷ []

abbrev options : BuildMinuteMetricOptions
options = record {
  internal_minutes_only = false;
  pools = [];
  minimum_one_minute_samples = 2;
  minimum_five_minute_samples = 1;
  one_minute_baseline_limit = 60;
  five_minute_baseline_limit = 2;
}

same_key : dormant_birth coverage (some 0) ≡ dormant_birth coverage none
unfolding dormant_birth earliest_block select_coverage distinct_from scopes_of any
same_key = refl

dormant_key-is_enough_example :
    window_core options 300 [] coverage none (some 0)
    ≡ window_core options 300 [] coverage none none
dormant_key-is_enough_example =
    dormant_key-is_enough options 300 coverage none (some 0) none same_key

live_window_end_is_recent_example :
    (live_window_end 400 100 ≤ 400)
    × (400 ≤ live_window_end 400 100 + 59)
    × (100 ≤ live_window_end 400 100)
    × ((400 < 100 + 59) ⊎ EndsMinute (pos (live_window_end 400 100)))
live_window_end_is_recent_example = live_window_end_is_recent 400 100 (omega arith)

abbrev watermark : BlockAnchor
watermark = record { number = 340; hash = "0xaa"; timestamp_sec = 340 }

hour-closed : window_status coverage watermark (pos 59) 299 none swaps ≡ MinuteStatus.closed
unfolding window_status window_reasons rolling_coverage coverage_reasons reasons_from coverage_at
    earliest_block in_rolling_window distinct_from any every
hour-closed = refl

closed_window_is_covered_example :
    (is_negative (pos 59) ≡ false)
    × (any (λ e. not (is_some (is_decided watermark (pos 59) 299 e))) swaps ≡ false)
    × ((m : ℕ)
        → m % 60 ≡ 0
        → 59 < m + 60
        → m ≤ 299
        → (c : MinuteCoverage) × (coverage_at m coverage ≡ some c) × CoveredMinute 299 340 none m c)
closed_window_is_covered_example =
    closed_window_is_covered coverage watermark (pos 59) 299 none swaps hour-closed

window-ok : (core : WindowCore) × (window_core options 300 swaps coverage none none ≡ ok core)
unfolding window_core core_from_minutes apply_minute_baselines apply_baselines create next
    build_natural_buckets natural_from recent_five prior_fives five_from closed_run minute_at
    aggregate events_of last_start with_prior volume_baseline median_ratio median_big_int
    multiplier_or_null multiplier_of middle_ratio is_finite baseline_from_sorted lower_bound
    sorted_insert shift remove_first push remember history_of remember_all lookup insert
    select_coverage scopes_of distinct_from minute_starts distinct_numbers minutes_of minutes_from
    coverage_at minute_metric minute_status born_in_current_prefix sum_valued sum_raw total
    tx_count_of to_lower_case select sort insert_sorted any every last filter_map ◌+ℤ◌
window-ok = (_, refl)

buckets_are_sums_example :
    All (IsSumOfFive window-ok.0.minutes) window-ok.0.natural_5m_buckets
    × RecentSum window-ok.0.minutes 300 window-ok.0.recent_closed_5x1m
buckets_are_sums_example =
    buckets_are_sums options 300 swaps coverage none none window-ok.0 window-ok.1

-- One more swap with an exact time, in the last second of the first window.
abbrev timed_swaps : List MetricEvent
timed_swaps =
    record (swap_at 120 7) { time = record (time_at 120) { exact_timestamp_sec = some 179 } }
    ∷ swaps

first-closed : window_status coverage watermark (pos 59) 179 none timed_swaps ≡ MinuteStatus.closed
unfolding window_status window_reasons rolling_coverage coverage_reasons reasons_from coverage_at
    earliest_block in_rolling_window distinct_from any every
first-closed = refl

second-closed :
    window_status coverage watermark (pos 179) 299 none timed_swaps ≡ MinuteStatus.closed
unfolding window_status window_reasons rolling_coverage coverage_reasons reasons_from coverage_at
    earliest_block in_rolling_window distinct_from any every
second-closed = refl

both-closed : window_status coverage watermark (pos 59) 299 none timed_swaps ≡ MinuteStatus.closed
unfolding window_status window_reasons rolling_coverage coverage_reasons reasons_from coverage_at
    earliest_block in_rolling_window distinct_from any every
both-closed = refl

adjacent_windows_add_up_example :
    ((window timed_swaps coverage (pos 59) 299 watermark none none).usd_micros
      ≡ add_valued
          (window timed_swaps coverage (pos 59) 179 watermark none none).usd_micros
          (window timed_swaps coverage (pos 179) 299 watermark none none).usd_micros)
    × ((window timed_swaps coverage (pos 59) 299 watermark none none).swap_count
        ≡ add_counts
            (window timed_swaps coverage (pos 59) 179 watermark none none).swap_count
            (window timed_swaps coverage (pos 179) 299 watermark none none).swap_count)
adjacent_windows_add_up_example =
    adjacent_windows_add_up timed_swaps coverage (pos 59) 179 299 watermark none none (omega arith)
      (omega arith) first-closed second-closed both-closed

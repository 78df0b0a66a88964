-- ===== src/Tests/Signals.antt =====
-- Runs of src/signals/engine.ts: a pool that becomes hot, one that is hot again behind its
-- cooldown, and one that cools while a minute is still a candidate.
use lp_monitor.Prelude.{
  ℕ, ◌+◌, ◌≤◌, ◌≡◌, refl, ap, ◌↔◌, ◌⊎◌, Bool, true, false, Option, none, some, String, List, [],
  ◌∷◌, last, select, sort, insert_sorted, filter_map, any, reverse, ◌*ℤ◌, pos, Outcome, ok, throw,
}
use lp_monitor.Domain.{PoolRef}
use lp_monitor.Metrics.Types.{MinuteStatus, BaselineFields, MinuteMetric, AggregateMetric}
use lp_monitor.Metrics.Baseline.{volume_baseline}
use lp_monitor.Signals.Config.{
  SignalConfig, initial_signal_config, parse_signal_config, signal_config_version,
}
use lp_monitor.Signals.Types.{
  SignalState, SignalCoverage, AlertKind, AlertScale, SignalSnapshot, SignalInput, SignalDecision,
  AlertDraft, BaselinePair,
}
use lp_monitor.Signals.Engine.{
  Bucket, initial_signal_snapshot, under_version, begin, unit_of, sample_minute, sample_bucket,
  to_minute, current_minute, judged_minute, bucket_of_rolling, bucket_of_aggregate, five_windows,
  baselines,
}
use lp_monitor.Signals.Engine.Rules.{verdicts, rule_matches}
use lp_monitor.Signals.Engine.Cooling.{
  is_fresh, is_low, count_lows, cool_rolling, cool_bucket, cool_buckets, uncounted, cool_latest,
  cool, is_hot,
}
use lp_monitor.Signals.Engine.Decide.{
  HashPart, is_upgrade, due_alert, heated, fingerprint, is_repeated, episode_of, alert_id,
  advance_state, record_candidate, alerted, draft_of, is_candidate, is_heat, is_hot_kind,
  multiplies,
}
use lp_monitor.Signals.Engine.Evaluate.{
  no_alert, settle, decide, evaluate_one, at_natural, natural_windows, replay_window,
  replay_natural, replay, evaluate_prepared, evaluate_signal,
}
use lp_monitor.Signals.Baseline.{signal_baseline, prior_samples, meets_multiple}
use lp_monitor.Signals.Engine.Rules.{bucket_usd}
use lp_monitor.Signals.Engine.Snapshot.{IsWellFormed, initial-IsWellFormed}
use lp_monitor.Signals.Engine.Preserved.{evaluate_signal-IsWellFormed}
use lp_monitor.Signals.Engine.Evidence.{IsBacked, heat_alert-IsBacked}
use lp_monitor.Signals.Engine.Repeats.{hot_alert-respects-cooldown}
use lp_monitor.Signals.Engine.Again.{again-only_candidate}
use lp_monitor.Signals.Engine.Lows.{IsLowChain, cool_rolling-iff-chain}

abbrev constant_hash : List HashPart → String
constant_hash parts = "hash"

abbrev constant_digest : SignalConfig → String
constant_digest config = "digest"

abbrev no_baseline : BaselineFields
no_baseline = record {
  baseline_sample_count = 0;
  baseline_median = none;
  baseline_median_numerator = none;
  baseline_median_denominator = none;
  baseline_unit = none;
  volume_multiplier = none;
}

abbrev window : ℕ → ℕ → AggregateMetric
window start usd = record {
  start_sec = start;
  end_sec = start + 300;
  usd_micros = some (pos usd);
  usdg_notional_raw = none;
  raw_notional = none;
  swap_count = 4;
  tx_count = 3;
  add_count = 0;
  remove_count = 0;
  zero_delta_count = 0;
  active_minutes = 2;
  baseline = no_baseline;
}

abbrev busy_minute : MinuteMetric
busy_minute = record {
  minute_start_sec = 600;
  status = MinuteStatus.partial;
  from_block = none;
  to_block = none;
  reasons = [];
  usd_micros = some (pos 30000000000);
  usdg_notional_raw = none;
  raw_notional = none;
  swap_count = some 9;
  tx_count = some 8;
  add_count = some 0;
  remove_count = some 0;
  zero_delta_count = some 0;
  active_minutes = some 1;
  baseline = no_baseline;
}

abbrev input_of : SignalCoverage → ℕ → List AggregateMetric → Option MinuteMetric → SignalInput
input_of coverage watermark windows partial = record {
  minute_close = false;
  pool = PoolRef.v3 "0xAB";
  batch_id = "batch";
  end_anchor = record { number = 10; hash = "0x01"; timestamp_sec = watermark };
  watermark_sec = watermark;
  observed_at_ms = 0;
  metrics = record {
    rolling = none;
    rolling_history_1m = [];
    rolling_history_5m = [];
    pool = PoolRef.v3 "0xAB";
    pool_id = "pool";
    minutes = [];
    natural_5m_buckets = windows;
    partial_current = partial;
    recent_closed_1m = none;
    recent_closed_5x1m = none;
    natural_closed_5m = none;
    unknown_time_block_counts = [];
  };
  coverage = coverage;
  presentation = none;
  epoch = none;
}

-- One high window is enough, and one low window cools.
abbrev quick_config : SignalConfig
quick_config = record initial_signal_config {
  confirm_consecutive = record {
    enabled = true;
    threshold = 50000000000;
    version = "1";
    buckets = some 1;
  };
  cooling = record { enabled = true; threshold = 25; buckets = 1; version = "1" };
}

abbrev hot_before : SignalSnapshot
hot_before = record initial_signal_snapshot {
  state = SignalState.hot;
  episode_id = some "hash";
  config_version = some "v";
  last_alert_sec = some 300;
  last_alert_volume = some (pos 60000000000);
  last_alert_scale = some AlertScale.five_minutes;
  last_five_end_sec = some 300;
  entry_threshold = some 50000000000;
  last_alert_kind = some AlertKind.hot;
  last_heat_sec = some 300;
}

abbrev first_high : SignalInput
first_high = input_of SignalCoverage.complete 310 (window 0 60000000000 ∷ []) none

abbrev high_again : SignalInput
high_again = input_of SignalCoverage.complete 630 (window 300 60000000000 ∷ []) none

abbrev low_but_busy : SignalInput
low_but_busy = input_of SignalCoverage.complete 630 (window 300 1000 ∷ []) (some busy_minute)

abbrev without_coverage : SignalInput
without_coverage = input_of SignalCoverage.gap 630 (window 300 60000000000 ∷ []) none

abbrev result : SignalSnapshot → SignalInput → Outcome SignalDecision
result s input = evaluate_one constant_hash s input quick_config "v"

abbrev decision_of : Outcome SignalDecision → SignalDecision
decision_of (ok d) = d
decision_of (throw message) = no_alert initial_signal_snapshot []

abbrev is_ok : Outcome SignalDecision → Bool
is_ok (ok d) = true
is_ok (throw message) = false

is_ok-decision : (o : Outcome SignalDecision) → is_ok o ≡ true → o ≡ ok (decision_of o)
is_ok-decision (ok d) h = refl
is_ok-decision (throw message) h = cc

abbrev Raises : SignalSnapshot → SignalInput → AlertKind → Type 0
Raises s input kind =
    (a : AlertDraft) × ((decision_of (result s input)).alert_draft ≡ some a) × (a.kind ≡ kind)

first_ok : is_ok (result initial_signal_snapshot first_high) ≡ true
unfolding under_version begin unit_of sample_minute sample_bucket to_minute current_minute
    judged_minute bucket_of_rolling bucket_of_aggregate five_windows baselines verdicts rule_matches
    is_fresh is_low count_lows cool_rolling cool_bucket cool_buckets uncounted cool_latest cool
    is_upgrade due_alert heated fingerprint is_repeated episode_of alert_id advance_state
    record_candidate alerted draft_of settle decide evaluate_one signal_baseline prior_samples
    meets_multiple ◌*ℤ◌ volume_baseline filter_map sort select last insert_sorted
first_ok = refl

first_raises_hot : Raises initial_signal_snapshot first_high AlertKind.hot
unfolding under_version begin unit_of sample_minute sample_bucket to_minute current_minute
    judged_minute bucket_of_rolling bucket_of_aggregate five_windows baselines verdicts rule_matches
    is_fresh is_low count_lows cool_rolling cool_bucket cool_buckets uncounted cool_latest cool
    is_upgrade due_alert heated fingerprint is_repeated episode_of alert_id advance_state
    record_candidate alerted draft_of settle decide evaluate_one signal_baseline prior_samples
    meets_multiple ◌*ℤ◌ volume_baseline filter_map sort select last insert_sorted
first_raises_hot = (_, refl, refl)

heat_alert-IsBacked_example :
    (b : BaselinePair) × (baselines first_high quick_config ≡ ok b)
    × IsBacked first_high quick_config b (begin initial_signal_snapshot first_high quick_config "v")
heat_alert-IsBacked_example =
    heat_alert-IsBacked constant_hash initial_signal_snapshot first_high quick_config "v"
      (decision_of (result initial_signal_snapshot first_high)) first_raises_hot.0
      (is_ok-decision _ first_ok) first_raises_hot.1 (ap is_heat first_raises_hot.2)

again_ok : is_ok (result hot_before high_again) ≡ true
unfolding under_version begin unit_of sample_minute sample_bucket to_minute current_minute
    judged_minute bucket_of_rolling bucket_of_aggregate five_windows baselines verdicts rule_matches
    is_fresh is_low count_lows cool_rolling cool_bucket cool_buckets uncounted cool_latest cool
    is_upgrade due_alert heated fingerprint is_repeated episode_of alert_id advance_state
    record_candidate alerted draft_of settle decide evaluate_one signal_baseline prior_samples
    meets_multiple ◌*ℤ◌ volume_baseline filter_map sort select last insert_sorted
again_ok = refl

again_raises_hot : Raises hot_before high_again AlertKind.hot
unfolding under_version begin unit_of sample_minute sample_bucket to_minute current_minute
    judged_minute bucket_of_rolling bucket_of_aggregate five_windows baselines verdicts rule_matches
    is_fresh is_low count_lows cool_rolling cool_bucket cool_buckets uncounted cool_latest cool
    is_upgrade due_alert heated fingerprint is_repeated episode_of alert_id advance_state
    record_candidate alerted draft_of settle decide evaluate_one signal_baseline prior_samples
    meets_multiple ◌*ℤ◌ volume_baseline filter_map sort select last insert_sorted
again_raises_hot = (_, refl, refl)

still_hot : is_hot (begin hot_before high_again quick_config "v").state ≡ true
unfolding begin under_version
still_hot = refl

alerted_at : (begin hot_before high_again quick_config "v").last_alert_sec ≡ some 300
unfolding begin under_version
alerted_at = refl

hot_alert-respects-cooldown_example :
    (300 + 300 ≤ 630)
    ⊎ (multiplies
          (bucket_usd (last (five_windows high_again)))
          (begin hot_before high_again quick_config "v").last_alert_volume
          2
        ≡ true)
hot_alert-respects-cooldown_example =
    hot_alert-respects-cooldown constant_hash hot_before high_again quick_config "v"
      (decision_of (result hot_before high_again)) again_raises_hot.0 300
      (is_ok-decision _ again_ok) again_raises_hot.1 (ap is_hot_kind again_raises_hot.2) still_hot
      refl alerted_at

abbrev cooled_down : SignalSnapshot
cooled_down = (decision_of (result hot_before low_but_busy)).next_snapshot

cools_ok : is_ok (result hot_before low_but_busy) ≡ true
unfolding under_version begin unit_of sample_minute sample_bucket to_minute current_minute
    judged_minute bucket_of_rolling bucket_of_aggregate five_windows baselines verdicts rule_matches
    is_fresh is_low count_lows cool_rolling cool_bucket cool_buckets uncounted cool_latest cool
    is_upgrade due_alert heated fingerprint is_repeated episode_of alert_id advance_state
    record_candidate alerted draft_of settle decide evaluate_one signal_baseline prior_samples
    meets_multiple ◌*ℤ◌ volume_baseline filter_map sort select last insert_sorted
cools_ok = refl

cooling_is_raised : Raises hot_before low_but_busy AlertKind.cooling
unfolding under_version begin unit_of sample_minute sample_bucket to_minute current_minute
    judged_minute bucket_of_rolling bucket_of_aggregate five_windows baselines verdicts rule_matches
    is_fresh is_low count_lows cool_rolling cool_bucket cool_buckets uncounted cool_latest cool
    is_upgrade due_alert heated fingerprint is_repeated episode_of alert_id advance_state
    record_candidate alerted draft_of settle decide evaluate_one signal_baseline prior_samples
    meets_multiple ◌*ℤ◌ volume_baseline filter_map sort select last insert_sorted
cooling_is_raised = (_, refl, refl)

then_ok : is_ok (result cooled_down low_but_busy) ≡ true
unfolding under_version begin unit_of sample_minute sample_bucket to_minute current_minute
    judged_minute bucket_of_rolling bucket_of_aggregate five_windows baselines verdicts rule_matches
    is_fresh is_low count_lows cool_rolling cool_bucket cool_buckets uncounted cool_latest cool
    is_upgrade due_alert heated fingerprint is_repeated episode_of alert_id advance_state
    record_candidate alerted draft_of settle decide evaluate_one signal_baseline prior_samples
    meets_multiple ◌*ℤ◌ volume_baseline filter_map sort select last insert_sorted
then_ok = refl

then_raises_candidate : Raises cooled_down low_but_busy AlertKind.candidate
unfolding under_version begin unit_of sample_minute sample_bucket to_minute current_minute
    judged_minute bucket_of_rolling bucket_of_aggregate five_windows baselines verdicts rule_matches
    is_fresh is_low count_lows cool_rolling cool_bucket cool_buckets uncounted cool_latest cool
    is_upgrade due_alert heated fingerprint is_repeated episode_of alert_id advance_state
    record_candidate alerted draft_of settle decide evaluate_one signal_baseline prior_samples
    meets_multiple ◌*ℤ◌ volume_baseline filter_map sort select last insert_sorted
then_raises_candidate = (_, refl, refl)

again-only_candidate_example : is_candidate then_raises_candidate.0.kind ≡ true
again-only_candidate_example =
    again-only_candidate constant_hash hot_before low_but_busy quick_config "v"
      (decision_of (result hot_before low_but_busy)) (decision_of (result cooled_down low_but_busy))
      then_raises_candidate.0 (is_ok-decision _ cools_ok) (is_ok-decision _ then_ok)
      then_raises_candidate.1

abbrev low_bucket : Bucket
low_bucket = record {
  start_sec = 300;
  end_sec = 600;
  usd_micros = some (pos 1000);
  raw_notional = none;
}

cool_rolling-iff-chain_example :
    ((cool_rolling quick_config (low_bucket ∷ []) low_bucket hot_before).cooled ≡ true)
    ↔ (true ≡ true) × IsLowChain quick_config hot_before 1 600 (reverse (low_bucket ∷ []))
cool_rolling-iff-chain_example =
    cool_rolling-iff-chain quick_config (low_bucket ∷ []) low_bucket hot_before

abbrev two_windows : SignalInput
two_windows =
    input_of SignalCoverage.complete 610 (window 0 60000000000 ∷ window 300 1000 ∷ []) none

abbrev replayed : Outcome SignalDecision
replayed =
    evaluate_signal constant_hash constant_digest initial_signal_snapshot two_windows quick_config

replayed_ok : is_ok replayed ≡ true
unfolding under_version begin unit_of sample_minute sample_bucket to_minute current_minute
    judged_minute bucket_of_rolling bucket_of_aggregate five_windows baselines verdicts rule_matches
    is_fresh is_low count_lows cool_rolling cool_bucket cool_buckets uncounted cool_latest cool
    is_upgrade due_alert heated fingerprint is_repeated episode_of alert_id advance_state
    record_candidate alerted draft_of settle decide evaluate_one signal_baseline prior_samples
    meets_multiple ◌*ℤ◌ volume_baseline filter_map sort select last insert_sorted evaluate_signal
    evaluate_prepared replay replay_natural replay_window natural_windows at_natural
    parse_signal_config signal_config_version any
replayed_ok = refl

evaluate_signal-IsWellFormed_example : IsWellFormed (decision_of replayed).next_snapshot
evaluate_signal-IsWellFormed_example =
    evaluate_signal-IsWellFormed constant_hash constant_digest initial_signal_snapshot two_windows
      quick_config (decision_of replayed) initial-IsWellFormed (is_ok-decision replayed replayed_ok)

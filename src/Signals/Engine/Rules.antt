-- ===== src/Signals/Engine/Rules.antt =====
-- src/signals/engine.ts, second part: the verdicts of the rules and the reasons that are shown.
use lp_monitor.Prelude.{
  ℕ, ◌==◌, if◌then◌else◌, Bool, true, false, not, ◌&&◌, ◌||◌, Option, none, some, is_some, String,
  List, [], ◌∷◌, last, last_but_one, ℤ, pos, leb_ℤ,
}
use lp_monitor.Prelude.Text.{concat}
use lp_monitor.Metrics.Types.{MinuteMetric}
use lp_monitor.Signals.Baseline.{BaselineStatus, is_ready, meets_multiple}
use lp_monitor.Signals.Config.{SignalConfig}
use lp_monitor.Signals.Types.{SignalInput, BaselinePair, RuleMatch}
use lp_monitor.Signals.Engine.{Bucket, judged_minute, five_windows}

-- `usdMicros !== null && usdMicros >= BigInt(threshold)`.
abbrev pub reaches : Option ℤ → ℕ → Bool
reaches none threshold = false
reaches (some usd) threshold = leb_ℤ (pos threshold) usd

abbrev pub minute_usd : Option MinuteMetric → Option ℤ
minute_usd none = none
minute_usd (some m) = m.usd_micros

abbrev pub bucket_usd : Option Bucket → Option ℤ
bucket_usd none = none
bucket_usd (some b) = b.usd_micros

pub record Verdicts : Type 0 where
  pub absolute_minute : Bool
  pub candidate : Bool
  pub relative : Bool
  pub consecutive : Bool

-- The bucket before the latest one ends where that one starts, and is as high.
abbrev pub is_high_before : Option Bucket → Option Bucket → ℕ → Bool
is_high_before none latest threshold = false
is_high_before (some prev) none threshold = false
is_high_before (some prev) (some latest) threshold =
    (prev.end_sec == latest.start_sec) && reaches prev.usd_micros threshold

abbrev pub is_one : Option ℕ → Bool
is_one none = false
is_one (some n) = n == 1

abbrev pub absolute_suffices : BaselineStatus → Bool
absolute_suffices BaselineStatus.warming = true
absolute_suffices BaselineStatus.zero_baseline = true
absolute_suffices _ = false

unfoldable pub verdicts : SignalInput → SignalConfig → BaselinePair → Verdicts
verdicts input config b =
    let minute = minute_usd (judged_minute input) in
    let five = five_windows input in
    let latest = last five in
    let absolute = reaches minute config.candidate.threshold in
    record {
      absolute_minute = absolute;
      candidate =
          config.candidate.enabled
          && absolute
          && (absolute_suffices b.minute.status
              || meets_multiple minute b.minute config.candidate.multiple);
      relative =
          config.confirm_relative.enabled
          && reaches (bucket_usd latest) config.confirm_relative.threshold
          && meets_multiple (bucket_usd latest) b.five_minute config.confirm_relative.multiple;
      consecutive =
          config.confirm_consecutive.enabled
          && reaches (bucket_usd latest) config.confirm_consecutive.threshold
          && (is_one config.confirm_consecutive.buckets
              || is_high_before (last_but_one five) latest config.confirm_consecutive.threshold);
    }

abbrev pub status_text : BaselineStatus → String
status_text BaselineStatus.ready = "ready"
status_text BaselineStatus.warming = "warming"
status_text BaselineStatus.zero_baseline = "zero-baseline"
status_text BaselineStatus.unpriced = "unpriced"

unfoldable pub rule_matches : SignalInput → SignalConfig → BaselinePair → Verdicts → List RuleMatch
rule_matches input config b v =
    let rolling = is_some input.metrics.rolling in
    let one = is_one config.confirm_consecutive.buckets in
    record {
      rule_id = "candidate";
      version = config.candidate.version;
      matched = v.candidate;
      reason =
          if not config.candidate.enabled
          then "disabled"
          else if not v.absolute_minute
          then "below-absolute-or-unpriced"
          else if not (is_ready b.minute.status)
          then concat (status_text b.minute.status) "/absolute-only"
          else if v.candidate
          then "relative-met"
          else "below-multiple";
    }
    ∷ record {
      rule_id = "confirmRelative";
      version = config.confirm_relative.version;
      matched = v.relative;
      reason =
          if not config.confirm_relative.enabled
          then "disabled"
          else if not (is_ready b.five_minute.status)
          then concat (status_text b.five_minute.status) "/relative-unavailable"
          else if v.relative
          then "relative-met"
          else "below-absolute-or-multiple";
    }
    ∷ record {
      rule_id = "confirmConsecutive";
      version = config.confirm_consecutive.version;
      matched = v.consecutive;
      reason =
          if not config.confirm_consecutive.enabled
          then "disabled"
          else if v.consecutive
          then if one
            then if rolling then "one-complete-rolling5m" else "one-complete-natural5m"
            else if rolling
            then "two-consecutive-rolling5m"
            else "two-consecutive-natural5m"
          else if one
          then "no-complete-above-threshold"
          else "no-two-adjacent-above-threshold";
    }
    ∷ []

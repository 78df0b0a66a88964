-- ===== src/Signals/Engine/Evaluate.antt =====
-- src/signals/engine.ts, last part: one evaluation, and the replay of the windows that closed since
-- the last one, each as if it were the newest.
use lp_monitor.Prelude.{
  ℕ, ◌+◌, ◌-◌, ◌*◌, ◌/◌, ◌%◌, ◌==◌, ltb, leb, if◌then◌else◌, Bool, true, false, not, ◌&&◌, ◌||◌,
  Option, none, some, is_some, String, List, [], ◌∷◌, ◌++◌, last, select, sort, Outcome, ok, ◌>>=◌,
}
use lp_monitor.Metrics.Types.{MinuteStatus, MinuteMetric, AggregateMetric, RollingMetric}
use lp_monitor.Signals.Baseline.{is_closed}
use lp_monitor.Signals.Config.{SignalConfig, parse_signal_config, signal_config_version}
use lp_monitor.Signals.Types.{
  SignalCoverage, SignalSnapshot, SignalInput, BaselinePair, AlertDraft, RuleMatch, Evaluation,
  SignalDecision,
}
use lp_monitor.Signals.Engine.{is_uncovered, under_version, begin, five_windows, baselines}
use lp_monitor.Signals.Engine.Rules.{Verdicts, verdicts, rule_matches}
use lp_monitor.Signals.Engine.Cooling.{is_fresh, is_newer, cool}
use lp_monitor.Signals.Engine.Decide.{
  HashPart, Due, is_upgrade, due_alert, heated, is_repeated, alerted, draft_of,
}

abbrev pub no_alert : SignalSnapshot → List RuleMatch → SignalDecision
no_alert next matches = record {
  next_snapshot = next;
  alert_draft = none;
  matches = matches;
  alert_drafts = [];
  evaluations = [];
}

-- The state, the drafts and the evaluations of a replay so far.
pub record Progress : Type 0 where
  pub state : SignalSnapshot
  pub drafts : List AlertDraft
  pub evaluations : List Evaluation

abbrev stamped : SignalInput → ℕ → Bool → Option AlertDraft → List AlertDraft
stamped input end_sec historical none = []
stamped input end_sec historical (some d) =
    record d {
      watermark_sec = input.watermark_sec;
      logical_time_sec = some end_sec;
      historical = some historical;
    }
    ∷ []

-- `missing(duration)`: a window that ends there and says nothing.
abbrev pub missing : RollingMetric → ℕ → RollingMetric
missing m duration = record m {
  start_sec = m.end_sec - duration;
  status = MinuteStatus.warming;
  usd_micros = none;
  usdg_notional_raw = none;
  raw_notional = none;
  swap_count = none;
  tx_count = none;
  active_minutes = none;
  add_count = none;
  remove_count = none;
  zero_delta_count = none;
  reasons = "historical-window-not-materialized" ∷ [];
}

unfoldable pub at_rolling : SignalInput → RollingMetric → SignalInput
at_rolling input m = record input {
  metrics = record input.metrics {
    rolling = some (record {
      one_minute = missing m 60;
      five_minutes = m;
      fifteen_minutes = missing m 900;
      one_hour = missing m 3600;
    });
    rolling_history_1m = [];
    rolling_history_5m =
        select (λ (p : RollingMetric). leb p.end_sec m.end_sec) input.metrics.rolling_history_5m;
  };
  watermark_sec = m.end_sec;
  coverage = SignalCoverage.complete;
}

abbrev aggregate_before : AggregateMetric → AggregateMetric → Bool
aggregate_before a b = ltb a.start_sec b.start_sec

unfoldable pub natural_windows : SignalInput → List AggregateMetric
natural_windows input = sort aggregate_before (
    select
      (λ (b : AggregateMetric).
        (b.start_sec % 300 == 0)
        && (b.end_sec == b.start_sec + 300)
        && leb b.end_sec input.watermark_sec)
      input.metrics.natural_5m_buckets)

unfoldable pub at_natural : SignalInput → List AggregateMetric → AggregateMetric → SignalInput
at_natural input five b = record input {
  metrics = record input.metrics {
    partial_current = none;
    minutes =
        select (λ (m : MinuteMetric). leb (m.minute_start_sec + 60) b.end_sec)
          input.metrics.minutes;
    natural_5m_buckets = select (λ (p : AggregateMetric). leb p.end_sec b.end_sec) five;
    natural_closed_5m = some b;
    recent_closed_1m = none;
    recent_closed_5x1m = none;
  };
  coverage = SignalCoverage.complete;
  watermark_sec = b.end_sec;
}

abbrev is_rechecking : SignalCoverage → Bool
is_rechecking SignalCoverage.rechecking = true
is_rechecking _ = false

abbrev timed : SignalInput → Option AlertDraft → List AlertDraft
timed input none = []
timed input (some d) =
    record d { logical_time_sec = some input.watermark_sec; historical = some false } ∷ []

module _ (hash : List HashPart → String) where
  -- What follows a due alert: silence if it repeats one, or the draft.
  unfoldable pub settle :
      SignalInput
      → SignalConfig
      → String
      → BaselinePair
      → Verdicts
      → Bool
      → Option Due
      → SignalSnapshot
      → List RuleMatch
      → SignalDecision
  settle input config version b v upgrade none next matches = no_alert next matches
  settle input config version b v upgrade (some due) next matches =
      let hot = heated input due next in
      if is_repeated hash input config upgrade due hot
      then no_alert hot matches
      else let final = alerted hash input config version v due hot in
        record {
          next_snapshot = final;
          alert_draft = some (draft_of hash input version b upgrade due final.episode_id);
          matches = matches;
          alert_drafts = [];
          evaluations = [];
        }

  -- `evaluateOne` behind its baselines.
  unfoldable pub decide :
      SignalInput → SignalConfig → String → SignalSnapshot → BaselinePair → SignalDecision
  decide input config version next b =
      let v = verdicts input config b in
      let matches = rule_matches input config b v in
      if is_uncovered input.coverage
      then no_alert next matches
      else let latest = last (five_windows input) in
        let fresh = is_fresh input latest next in
        let c = cool input config next in
        let upgrade = is_upgrade fresh latest config c.next in
        settle input config version b v upgrade (due_alert input b v fresh upgrade c) c.next matches

  unfoldable pub evaluate_one :
      SignalSnapshot → SignalInput → SignalConfig → String → Outcome SignalDecision
  evaluate_one previous input config version = do
    b ← baselines input config
    ok (decide input config version (begin previous input config version) b)

  -- One window of a replay: `at` is the input as it was when that window was the newest.
  unfoldable pub replay_window :
      SignalInput → SignalConfig → String → SignalInput → ℕ → Bool → Progress → Outcome Progress
  replay_window input config version at end_sec historical p = do
    d ← evaluate_one p.state at config version
    ok (record {
      state = d.next_snapshot;
      drafts = p.drafts ++ stamped input end_sec historical d.alert_draft;
      evaluations = p.evaluations ++ record { end_sec = end_sec; matches = d.matches } ∷ [];
    })

  unfoldable pub replay_rolling :
      SignalInput → SignalConfig → String → List RollingMetric → Progress → Outcome Progress
  replay_rolling input config version [] p = ok p
  replay_rolling input config version (m ∷ ms) p =
      let skip =
        not (is_closed m.status)
        || leb input.watermark_sec m.end_sec
        || not (is_newer m.end_sec p.state.last_five_end_sec) in
      (if skip
        then ok p
        else replay_window input config version (at_rolling input m) m.end_sec true p)
      >>= replay_rolling input config version ms

  unfoldable pub replay_natural :
      SignalInput
      → SignalConfig
      → String
      → List AggregateMetric
      → List AggregateMetric
      → Progress
      → Outcome Progress
  replay_natural input config version five [] p = ok p
  replay_natural input config version five (b ∷ bs) p =
      replay_window input config version (at_natural input five b) b.end_sec
        (ltb b.end_sec (input.watermark_sec / 300 * 300)) p
      >>= replay_natural input config version five bs

  -- The loop over the closed windows, rolling or natural.
  unfoldable pub replay : SignalInput → SignalConfig → String → Progress → Outcome Progress
  replay input config version p =
      if is_rechecking input.coverage
      then ok p
      else if is_some input.metrics.rolling
      then replay_rolling input config version input.metrics.rolling_history_5m p
      else let five = natural_windows input in
        let news =
          select (λ (b : AggregateMetric). is_newer b.end_sec p.state.last_five_end_sec) five in
        replay_natural input config version five news p

  unfoldable pub evaluate_prepared :
      SignalSnapshot → SignalInput → SignalConfig → String → Outcome SignalDecision
  evaluate_prepared previous input config version = do
    p ←
        replay input config version
          (record { state = under_version previous version; drafts = []; evaluations = [] })
    current ← evaluate_one p.state input config version
    let drafts = p.drafts ++ timed input current.alert_draft
    ok (record {
      next_snapshot = current.next_snapshot;
      alert_draft = last drafts;
      matches = current.matches;
      alert_drafts = drafts;
      evaluations = p.evaluations;
    })

  -- `evaluateSignal`: the settings are validated, and their version is computed, first.
  unfoldable pub evaluate_signal :
      (SignalConfig → String) → SignalSnapshot → SignalInput → SignalConfig → Outcome SignalDecision
  evaluate_signal digest previous input config = do
    prepared ← parse_signal_config config
    evaluate_prepared previous input prepared (signal_config_version digest prepared)

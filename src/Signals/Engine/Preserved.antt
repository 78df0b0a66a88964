-- ===== src/Signals/Engine/Preserved.antt =====
-- About the whole evaluation of src/signals/engine.ts, its replay included.
use lp_monitor.Prelude.{
  ℕ, ◌≤◌, if◌then◌else◌, ◌≡◌, Bool, true, false, String, List, [], ◌∷◌, select, Outcome, ok,
  >>=-eq-ok, ok_inj, arith,
}
use lp_monitor.Metrics.Types.{AggregateMetric, RollingMetric}
use lp_monitor.Signals.Config.{
  SignalConfig, parse_signal_config, schema_accepts, signal_config_version,
}
use lp_monitor.Signals.Types.{SignalSnapshot, SignalInput, SignalDecision}
use lp_monitor.Signals.Engine.Cooling.{is_newer}
use lp_monitor.Signals.Engine.Decide.{HashPart}
use lp_monitor.Signals.Engine.Evaluate.{
  Progress, evaluate_one, replay_window, replay_rolling, replay_natural, replay, at_rolling,
  at_natural, natural_windows, evaluate_prepared, evaluate_signal,
}
use lp_monitor.Signals.Engine.Snapshot.{
  IsWellFormed, under_version-IsWellFormed, evaluate_one-IsWellFormed,
}

module _ (hash : List HashPart → String) (input : SignalInput) (config : SignalConfig)
    (version : String) (needed : 1 ≤ config.cooling.buckets) where
  abbrev Keeps : (Progress → Outcome Progress) → Type 0
  Keeps step = (p q : Progress) → IsWellFormed p.state → step p ≡ ok q → IsWellFormed q.state

  Keeps-window :
      (at : SignalInput) (end_sec : ℕ) (historical : Bool)
      → Keeps (replay_window hash input config version at end_sec historical)
  unfolding replay_window
  Keeps-window at end_sec historical p q w e =
      let (d, evaluated, stored) = >>=-eq-ok (evaluate_one hash p.state at config version) _ e in
      let kept = evaluate_one-IsWellFormed config needed hash p.state at version d w evaluated in
      rw (← ok_inj stored) kept

  Keeps-rolling : (ms : List RollingMetric) → Keeps (replay_rolling hash input config version ms)
  unfolding replay_rolling
  Keeps-rolling [] p q w e = rw (← ok_inj e) w
  Keeps-rolling (m ∷ ms) p q w e =
      let (r, visited, rest) = >>=-eq-ok _ (replay_rolling hash input config version ms) e in
      Keeps-rolling ms r q (visit _ r visited) rest
    where
      visit :
          (skip : Bool) (r : Progress)
          → (if skip
              then ok p
              else replay_window hash input config version (at_rolling input m) m.end_sec true p)
            ≡ ok r
          → IsWellFormed r.state
      visit true r v = rw (← ok_inj v) w
      visit false r v = Keeps-window (at_rolling input m) m.end_sec true p r w v

  Keeps-natural :
      (five bs : List AggregateMetric) → Keeps (replay_natural hash input config version five bs)
  unfolding replay_natural
  Keeps-natural five [] p q w e = rw (← ok_inj e) w
  Keeps-natural five (b ∷ bs) p q w e =
      let (r, visited, rest) = >>=-eq-ok _ (replay_natural hash input config version five bs) e in
      Keeps-natural five bs r q (Keeps-window (at_natural input five b) b.end_sec _ p r w visited)
        rest

  Keeps-replay : Keeps (replay hash input config version)
  unfolding replay
  Keeps-replay p q w e = ground (
    arith,
    Keeps-rolling input.metrics.rolling_history_5m p q w,
    Keeps-natural (natural_windows input)
        (select (λ (b : AggregateMetric). is_newer b.end_sec p.state.last_five_end_sec)
          (natural_windows input))
        p q w,
    stays,
  )
    where
      stays : ok p ≡ ok q → IsWellFormed q.state
      stays h = rw (← ok_inj h) w

  evaluate_prepared-IsWellFormed :
      (previous : SignalSnapshot) (d : SignalDecision)
      → IsWellFormed previous
      → evaluate_prepared hash previous input config version ≡ ok d
      → IsWellFormed d.next_snapshot
  unfolding evaluate_prepared
  evaluate_prepared-IsWellFormed previous d w e =
      let (p, replayed, rest) = >>=-eq-ok (replay hash input config version _) _ e in
      let (current, evaluated, made) =
        >>=-eq-ok (evaluate_one hash p.state input config version) _ rest in
      let start = under_version-IsWellFormed previous version w in
      let behind = Keeps-replay _ p start replayed in
      rw (← ok_inj made) (
        evaluate_one-IsWellFormed config needed hash p.state input version current behind evaluated)

-- Settings that the schema accepts count at least one low window before a pool cools.
accepts-cooling : (c : SignalConfig) → schema_accepts c ≡ true → 1 ≤ c.cooling.buckets
unfolding schema_accepts
accepts-cooling c h = ground arith

parsed-cooling :
    (config prepared : SignalConfig)
    → parse_signal_config config ≡ ok prepared
    → 1 ≤ prepared.cooling.buckets
unfolding parse_signal_config
parsed-cooling config prepared e = ground (arith, accepts-cooling config)

-- Whatever the settings and the windows, if the evaluation of a pool from a well-formed snapshot
-- does not throw, the snapshot that it returns is well formed: a hot or cooling pool has its entry
-- threshold, the time of its heat and a counted window, and every state but `watch` has an episode
-- and the time of its last alert. The replayed windows are part of the evaluation.
pub evaluate_signal-IsWellFormed :
    (hash : List HashPart → String) (digest : SignalConfig → String) (previous : SignalSnapshot)
    (input : SignalInput) (config : SignalConfig) (d : SignalDecision)
    → IsWellFormed previous
    → evaluate_signal hash digest previous input config ≡ ok d
    → IsWellFormed d.next_snapshot
unfolding evaluate_signal
evaluate_signal-IsWellFormed hash digest previous input config d w e =
    let (prepared, parsed, evaluated) = >>=-eq-ok (parse_signal_config config) _ e in
    evaluate_prepared-IsWellFormed hash input prepared (signal_config_version digest prepared)
      (parsed-cooling config prepared parsed) previous d w evaluated

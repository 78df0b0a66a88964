-- ===== src/Signals/Engine/Repeats.antt =====
-- About repeated and silent evaluations of src/signals/engine.ts.
use lp_monitor.Prelude.{
  ℕ, ◌+◌, ◌≤◌, ◌≡◌, ◌∙◌, ◌⊎◌, inl, inr, Bool, true, false, Option, some, String, List, last, ok,
  arith,
}
use lp_monitor.Signals.Config.{SignalConfig}
use lp_monitor.Signals.Types.{SignalSnapshot, SignalInput, BaselinePair, AlertDraft, SignalDecision}
use lp_monitor.Signals.Engine.{Bucket, begin, five_windows}
use lp_monitor.Signals.Engine.Rules.{Verdicts, bucket_usd}
use lp_monitor.Signals.Engine.Cooling.{Cooled, is_hot, is_cooling, cool}
use lp_monitor.Signals.Engine.Untouched.{SameAlerts, cool-SameAlerts}
use lp_monitor.Signals.Engine.Decide.{
  HashPart, Due, is_upgrade, due_alert, heated, is_hot_kind, is_repeated, multiplies,
}
use lp_monitor.Signals.Engine.Evaluate.{evaluate_one}
use lp_monitor.Signals.Engine.Alerts.{evaluate_one-Fired}

-- A new alert of a hot pool that is no upgrade waits for the cooldown.
new-hot-waits :
    (hash : List HashPart → String) (input : SignalInput) (config : SignalConfig) (upgrade : Bool)
    (due : Due) (s : SignalSnapshot) (t : ℕ)
    → is_repeated hash input config upgrade due (heated input due s) ≡ false
    → is_hot_kind due.kind ≡ true
    → is_hot s.state ≡ true
    → config.cooldown.enabled ≡ true
    → s.last_alert_sec ≡ some t
    → (t + config.cooldown.threshold ≤ input.watermark_sec) ⊎ (upgrade ≡ true)
unfolding is_repeated heated
new-hot-waits hash input config upgrade due s t new kind hot on at = ground arith

-- A hot alert is due only where the cooling left the pool out of `cooling`.
hot-due :
    (input : SignalInput) (b : BaselinePair) (v : Verdicts) (fresh upgrade : Bool) (c : Cooled)
    (due : Due)
    → due_alert input b v fresh upgrade c ≡ some due
    → is_hot_kind due.kind ≡ true
    → is_cooling c.next.state ≡ false
unfolding due_alert
hot-due input b v fresh upgrade c due d hot = ground arith

still-hot :
    (s t : SignalSnapshot)
    → SameAlerts s t
    → is_hot s.state ≡ true
    → is_cooling t.state ≡ false
    → is_hot t.state ≡ true
still-hot s t same hot warm = ground arith

upgrade-volume :
    (fresh : Bool) (o : Option Bucket) (config : SignalConfig) (s t : SignalSnapshot)
    → SameAlerts s t
    → is_upgrade fresh o config t ≡ true
    → multiplies (bucket_usd o) s.last_alert_volume config.upgrade.threshold ≡ true
unfolding is_upgrade
upgrade-volume fresh o config s t same u = ground arith

-- While a pool is hot and the cooldown is on, an evaluation raises `hot` again only when the
-- cooldown since the last alert is over, or when the latest window reaches the configured multiple
-- of the last alert's volume.
pub hot_alert-respects-cooldown :
    (hash : List HashPart → String) (previous : SignalSnapshot) (input : SignalInput)
    (config : SignalConfig) (version : String) (d : SignalDecision) (a : AlertDraft) (t : ℕ)
    → evaluate_one hash previous input config version ≡ ok d
    → d.alert_draft ≡ some a
    → is_hot_kind a.kind ≡ true
    → is_hot (begin previous input config version).state ≡ true
    → config.cooldown.enabled ≡ true
    → (begin previous input config version).last_alert_sec ≡ some t
    → (t + config.cooldown.threshold ≤ input.watermark_sec)
      ⊎ (multiplies
            (bucket_usd (last (five_windows input)))
            (begin previous input config version).last_alert_volume
            config.upgrade.threshold
          ≡ true)
hot_alert-respects-cooldown hash previous input config version d a t e h kind hot on at =
    let s = begin previous input config version in
    let (b, known, fired) = evaluate_one-Fired hash input config version previous d a e h in
    let same = cool-SameAlerts config input s in
    let kind' : is_hot_kind fired.due.kind ≡ true = rw fired.drafted at kind in
    let warm = hot-due input b _ _ _ _ fired.due fired.came_due kind' in
    elim (new-hot-waits hash input config _ fired.due (cool input config s).next t fired.was_new
      kind' (still-hot s _ same hot warm) on (same.alert_sec ∙ at)) [
        | inl waited ↦ inl waited
        | inr upgraded ↦ inr (upgrade-volume _ _ config s _ same upgraded)
      ]

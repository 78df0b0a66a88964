-- ===== src/Signals/Engine/Evidence.antt =====
-- About the windows behind an alert of src/signals/engine.ts.
use lp_monitor.Prelude.{
  ℕ, ◌/◌, ◌*◌, if◌then◌else◌, ◌≡◌, refl, ◌⊎◌, inl, inr, Bool, true, ◌||◌, Option, none, some,
  is_some, String, List, last, last_but_one, ok, arith,
}
use mathlib.Core.Path.{subst}
use lp_monitor.Signals.Config.{SignalConfig}
use lp_monitor.Signals.Baseline.{meets_multiple}
use lp_monitor.Signals.Types.{
  AlertScale, SignalSnapshot, SignalInput, BaselinePair, AlertDraft, SignalDecision,
}
use lp_monitor.Signals.Engine.{Bucket, begin, five_windows, baselines}
use lp_monitor.Signals.Engine.Rules.{Verdicts, verdicts, reaches, is_one, is_high_before}
use lp_monitor.Signals.Engine.Cooling.{Cooled, is_hot, is_fresh, is_newer, cool}
use lp_monitor.Signals.Engine.Untouched.{SameAlerts, cool-SameAlerts}
use lp_monitor.Signals.Engine.Decide.{
  HashPart, Due, is_five, is_upgrade, due_alert, is_heat, multiplies,
}
use lp_monitor.Signals.Engine.Evaluate.{evaluate_one}
use lp_monitor.Signals.Engine.Alerts.{evaluate_one-Fired}

-- The windows allow a heat alert by one of the two rules, or by an upgrade of the last alert.
abbrev pub HeatEvidence :
    SignalInput → SignalConfig → BaselinePair → SignalSnapshot → Bucket → Type 0
HeatEvidence input config b s latest =
    (config.confirm_relative.enabled ≡ true)
      × (reaches latest.usd_micros config.confirm_relative.threshold ≡ true)
      × (meets_multiple latest.usd_micros b.five_minute config.confirm_relative.multiple ≡ true)
    ⊎ (config.confirm_consecutive.enabled ≡ true)
      × (reaches latest.usd_micros config.confirm_consecutive.threshold ≡ true)
      × ((is_one config.confirm_consecutive.buckets
            || is_high_before (last_but_one (five_windows input)) (some latest)
                config.confirm_consecutive.threshold)
          ≡ true)
    ⊎ (config.upgrade.enabled ≡ true)
      × (is_hot s.state ≡ true)
      × (s.last_alert_scale ≡ some AlertScale.five_minutes)
      × (multiplies latest.usd_micros s.last_alert_volume config.upgrade.threshold ≡ true)

abbrev pub boundary : SignalInput → ℕ
boundary input =
    if is_some input.metrics.rolling then input.watermark_sec else input.watermark_sec / 300 * 300

-- The latest window, newer than what was counted, ends at the boundary and is the evidence.
pub record IsBacked (input : SignalInput) (config : SignalConfig) (b : BaselinePair)
    (s : SignalSnapshot) : Type 0 where
  pub latest : Bucket
  pub is_latest : last (five_windows input) ≡ some latest
  pub at_boundary : latest.end_sec ≡ boundary input
  pub newer : is_newer latest.end_sec s.last_five_end_sec ≡ true
  pub evidence : HeatEvidence input config b s latest

-- A heat is due only on a fresh window and by one of the three conditions.
heat-due :
    (input : SignalInput) (b : BaselinePair) (v : Verdicts) (fresh upgrade : Bool) (c : Cooled)
    (due : Due)
    → due_alert input b v fresh upgrade c ≡ some due
    → is_heat due.kind ≡ true
    → (fresh ≡ true) × ((v.relative ≡ true) ⊎ (v.consecutive ≡ true) ⊎ (upgrade ≡ true))
unfolding due_alert
heat-due input b v fresh upgrade c due d heat = ground arith

is_five-eq : (o : Option AlertScale) → is_five o ≡ true → o ≡ some AlertScale.five_minutes
is_five-eq none h = ground arith
is_five-eq (some AlertScale.five_minutes) h = refl
is_five-eq (some AlertScale.one_minute) h = ground arith

module _ (input : SignalInput) (config : SignalConfig) where
  fresh-at_boundary :
      (s : SignalSnapshot) (latest : Bucket)
      → is_fresh input (some latest) s ≡ true
      → (latest.end_sec ≡ boundary input) × (is_newer latest.end_sec s.last_five_end_sec ≡ true)
  unfolding is_fresh
  fresh-at_boundary s latest fresh = ground arith

  relative-reaches :
      (b : BaselinePair) (latest : Bucket)
      → last (five_windows input) ≡ some latest
      → (verdicts input config b).relative ≡ true
      → (config.confirm_relative.enabled ≡ true)
        × (reaches latest.usd_micros config.confirm_relative.threshold ≡ true)
        × (meets_multiple latest.usd_micros b.five_minute config.confirm_relative.multiple ≡ true)
  unfolding verdicts
  relative-reaches b latest e r = let r' = rw e at r in ground (arith, r')

  consecutive-reaches :
      (b : BaselinePair) (latest : Bucket)
      → last (five_windows input) ≡ some latest
      → (verdicts input config b).consecutive ≡ true
      → (config.confirm_consecutive.enabled ≡ true)
        × (reaches latest.usd_micros config.confirm_consecutive.threshold ≡ true)
        × ((is_one config.confirm_consecutive.buckets
              || is_high_before
                  (last_but_one (five_windows input))
                  (some latest)
                  config.confirm_consecutive.threshold)
            ≡ true)
  unfolding verdicts
  consecutive-reaches b latest e r = let r' = rw e at r in ground (arith, r')

  upgrade-multiplies :
      (fresh : Bool) (latest : Bucket) (s t : SignalSnapshot)
      → SameAlerts s t
      → is_upgrade fresh (some latest) config t ≡ true
      → (config.upgrade.enabled ≡ true)
        × (is_hot s.state ≡ true)
        × (s.last_alert_scale ≡ some AlertScale.five_minutes)
        × (multiplies latest.usd_micros s.last_alert_volume config.upgrade.threshold ≡ true)
  unfolding is_upgrade
  upgrade-multiplies fresh latest s t same u = ground (arith, is_five-eq t.last_alert_scale)

  upgrade-fresh :
      (fresh : Bool) (o : Option Bucket) (t : SignalSnapshot)
      → is_upgrade fresh o config t ≡ true
      → fresh ≡ true
  unfolding is_upgrade
  upgrade-fresh fresh o t u = ground arith

  fresh-latest :
      (s : SignalSnapshot) (o : Option Bucket)
      → is_fresh input o s ≡ true
      → (latest : Bucket) × (o ≡ some latest)
  unfolding is_fresh
  fresh-latest s none fresh = cc
  fresh-latest s (some latest) fresh = (latest, refl)

  due-IsBacked :
      (b : BaselinePair) (s : SignalSnapshot) (due : Due)
      → due_alert input b
          (verdicts input config b)
          (is_fresh input (last (five_windows input)) s)
          (is_upgrade
            (is_fresh input (last (five_windows input)) s)
            (last (five_windows input))
            config
            (cool input config s).next)
          (cool input config s)
        ≡ some due
      → is_heat due.kind ≡ true
      → IsBacked input config b s
  due-IsBacked b s due d heat =
      let (fresh, why) = heat-due input b _ _ _ _ due d heat in
      let (latest, is_latest) = fresh-latest s (last (five_windows input)) fresh in
      let fresh' : is_fresh input (some latest) s ≡ true =
        subst (λ o. is_fresh input o s ≡ true) is_latest fresh in
      let (at, newer) = fresh-at_boundary s latest fresh' in
      record {
        latest = latest;
        is_latest = is_latest;
        at_boundary = at;
        newer = newer;
        evidence = elim why [
          | inl relative ↦ inl (relative-reaches b latest is_latest relative)
          | inr (inl consecutive) ↦ inr (inl (consecutive-reaches b latest is_latest consecutive))
          | inr (inr upgrade) ↦ inr (
              inr (
                upgrade-multiplies _ latest s (cool input config s).next
                  (cool-SameAlerts config input s)
                  (subst
                    (λ o.
                      is_upgrade (is_fresh input (last (five_windows input)) s) o config
                        (cool input config s).next
                      ≡ true)
                    is_latest upgrade)))
        ];
      }

-- A hot or reheat alert of an evaluation is backed: the latest five-minute window ends at the
-- boundary of the watermark, was not counted before, and, by a rule that is enabled, its volume
-- reaches the relative threshold and multiple, or the consecutive threshold (with the window before
-- it, unless one is enough), or the multiple of the last alert's volume while the pool was hot and
-- that alert was one of the five-minute scale.
pub heat_alert-IsBacked :
    (hash : List HashPart → String) (previous : SignalSnapshot) (input : SignalInput)
    (config : SignalConfig) (version : String) (d : SignalDecision) (a : AlertDraft)
    → evaluate_one hash previous input config version ≡ ok d
    → d.alert_draft ≡ some a
    → is_heat a.kind ≡ true
    → (b : BaselinePair) × (baselines input config ≡ ok b)
      × IsBacked input config b (begin previous input config version)
heat_alert-IsBacked hash previous input config version d a e h heat =
    let (b, known, fired) = evaluate_one-Fired hash input config version previous d a e h in
    (b, known, due-IsBacked input config b _ fired.due fired.came_due (rw fired.drafted at heat))

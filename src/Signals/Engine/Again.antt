-- ===== src/Signals/Engine/Again.antt =====
-- About the same windows evaluated again by src/signals/engine.ts.
use lp_monitor.Prelude.{
  ◌≡◌, refl, sym, ◌∙◌, inl, inr, Bool, true, false, Bool-cases, Option, none, some, String, eq_iff,
  List, last, ok, >>=-eq-ok, ok_inj, arith,
}
use mathlib.Core.Path.{subst}
use lp_monitor.Signals.Config.{SignalConfig}
use lp_monitor.Signals.Types.{
  SignalSnapshot, SignalInput, BaselinePair, AlertDraft, RuleMatch, SignalDecision,
}
use lp_monitor.Signals.Engine.{
  Bucket, is_uncovered, is_other_version, under_version, begin, five_windows, baselines,
}
use lp_monitor.Signals.Engine.Rules.{Verdicts, verdicts}
use lp_monitor.Signals.Engine.Cooling.{is_fresh, cool}
use lp_monitor.Signals.Engine.Counting.{cool-counts, cool-stale}
use lp_monitor.Signals.Engine.Untouched.{cool-SameAlerts}
use lp_monitor.Signals.Engine.Decide.{
  HashPart, Due, is_upgrade, due_alert, heated, is_candidate, is_repeated, alerted, advance_state,
  record_candidate,
}
use lp_monitor.Signals.Engine.Evaluate.{settle, decide, evaluate_one}
use lp_monitor.Signals.Engine.Alerts.{evaluate_one-Fired}

-- What an evaluation hands on of the windows and of the version.
record SameWindows (s t : SignalSnapshot) : Type 0 where
  five : t.last_five_end_sec ≡ s.last_five_end_sec
  version : t.config_version ≡ s.config_version

alerted-SameWindows :
    (hash : List HashPart → String) (input : SignalInput) (config : SignalConfig) (version : String)
    (v : Verdicts) (due : Due) (s : SignalSnapshot)
    → SameWindows s (alerted hash input config version v due (heated input due s))
unfolding alerted advance_state record_candidate heated
alerted-SameWindows hash input config version v due s = ground arith

heated-SameWindows :
    (input : SignalInput) (due : Due) (s : SignalSnapshot) → SameWindows s (heated input due s)
unfolding heated
heated-SameWindows input due s = ground arith

settle-SameWindows :
    (hash : List HashPart → String) (input : SignalInput) (config : SignalConfig) (version : String)
    (b : BaselinePair) (v : Verdicts) (upgrade : Bool) (o : Option Due) (s : SignalSnapshot)
    (matches : List RuleMatch)
    → SameWindows s (settle hash input config version b v upgrade o s matches).next_snapshot
unfolding settle
settle-SameWindows hash input config version b v upgrade none s matches = ground arith
settle-SameWindows hash input config version b v upgrade (some due) s matches =
    elim (Bool-cases (is_repeated hash input config upgrade due (heated input due s))) [
      | inl repeated ↦ rw repeated (heated-SameWindows input due s)
      | inr fired ↦ rw fired (alerted-SameWindows hash input config version v due s)
    ]

is_fresh-five :
    (input : SignalInput) (o : Option Bucket) (s t : SignalSnapshot)
    → t.last_five_end_sec ≡ s.last_five_end_sec
    → is_fresh input o t ≡ is_fresh input o s
unfolding is_fresh
is_fresh-five input none s t e = refl
is_fresh-five input (some latest) s t e = rw e refl

counted-is_stale :
    (input : SignalInput) (latest : Bucket) (s : SignalSnapshot)
    → s.last_five_end_sec ≡ some latest.end_sec
    → is_fresh input (some latest) s ≡ false
unfolding is_fresh
counted-is_stale input latest s e = ground arith

-- Once the cooling has looked at the windows, the latest of them is stale.
cool-is_stale :
    (input : SignalInput) (config : SignalConfig) (s : SignalSnapshot) (o : Option Bucket)
    → last (five_windows input) ≡ o
    → is_fresh input o (cool input config s).next ≡ false
cool-is_stale input config s none e = no_window (cool input config s).next
  where
    no_window : (t : SignalSnapshot) → is_fresh input none t ≡ false
    no_window t = unfold is_fresh in refl
cool-is_stale input config s (some latest) e = elim (Bool-cases (is_fresh input (some latest) s)) [
  | inl fresh ↦ counted-is_stale input latest _ (cool-counts config input s latest e fresh)
  | inr stale ↦
      rw (cool-stale config input s (subst (λ o. is_fresh input o s ≡ false) (sym e) stale)) stale
]

begin-SameWindows :
    (s : SignalSnapshot) (input : SignalInput) (config : SignalConfig) (version : String)
    → is_other_version s.config_version version ≡ false
    → (begin s input config version).last_five_end_sec ≡ s.last_five_end_sec
unfolding begin under_version
begin-SameWindows s input config version same = ground arith

begin-version :
    (s : SignalSnapshot) (input : SignalInput) (config : SignalConfig) (version : String)
    → (begin s input config version).config_version ≡ some version
unfolding begin
begin-version s input config version = ground arith

same_version :
    (o : Option String) (version : String) → o ≡ some version → is_other_version o version ≡ false
same_version o version e = rw (e, (eq_iff version version).1 refl) refl

-- On a stale window with nothing cooled only a candidate is due.
stale-due :
    (input : SignalInput) (b : BaselinePair) (v : Verdicts) (upgrade : Bool) (s : SignalSnapshot)
    (due : Due)
    → due_alert input b v false upgrade (record { next = s; cooled = false }) ≡ some due
    → is_candidate due.kind ≡ true
unfolding due_alert
stale-due input b v upgrade s due d = ground arith

decide-SameWindows :
    (hash : List HashPart → String) (input : SignalInput) (config : SignalConfig) (version : String)
    (s : SignalSnapshot) (b : BaselinePair)
    → is_uncovered input.coverage ≡ false
    → SameWindows (cool input config s).next (decide hash input config version s b).next_snapshot
unfolding decide
decide-SameWindows hash input config version s b covered =
    rw covered (settle-SameWindows hash input config version b _ _ _ _ _)

evaluate_one-SameWindows :
    (hash : List HashPart → String) (previous : SignalSnapshot) (input : SignalInput)
    (config : SignalConfig) (version : String) (d : SignalDecision)
    → is_uncovered input.coverage ≡ false
    → evaluate_one hash previous input config version ≡ ok d
    → SameWindows (cool input config (begin previous input config version)).next d.next_snapshot
unfolding evaluate_one
evaluate_one-SameWindows hash previous input config version d covered e =
    let (b, known, decided) = >>=-eq-ok (baselines input config) _ e in
    let s = begin previous input config version in
    subst (λ x. SameWindows (cool input config s).next x.next_snapshot) (ok_inj decided)
      (decide-SameWindows hash input config version s b covered)

-- If the same input is evaluated again from the snapshot that its evaluation left, the only alert
-- that can follow is a candidate: no heat and no cooling is raised twice from one window.
pub again-only_candidate :
    (hash : List HashPart → String) (previous : SignalSnapshot) (input : SignalInput)
    (config : SignalConfig) (version : String) (d d' : SignalDecision) (a : AlertDraft)
    → evaluate_one hash previous input config version ≡ ok d
    → evaluate_one hash d.next_snapshot input config version ≡ ok d'
    → d'.alert_draft ≡ some a
    → is_candidate a.kind ≡ true
again-only_candidate hash previous input config version d d' a e e' h =
    let s = begin previous input config version in
    let t = begin d.next_snapshot input config version in
    let (b, known, fired) =
      evaluate_one-Fired hash input config version d.next_snapshot d' a e' h in
    let kept = evaluate_one-SameWindows hash previous input config version d fired.covered e in
    let same = begin-SameWindows d.next_snapshot input config version (
      same_version _ version (
        kept.version
        ∙ (cool-SameAlerts config input s).version
        ∙ begin-version previous input config version)) in
    let stale : is_fresh input (last (five_windows input)) t ≡ false =
      is_fresh-five input _ (cool input config s).next t (same ∙ kept.five)
      ∙ cool-is_stale input config s _ refl in
    let due =
      subst
        (λ c.
          due_alert input b (verdicts input config b) (is_fresh input (last (five_windows input)) t)
            (is_upgrade (is_fresh input (last (five_windows input)) t) (last (five_windows input))
              config (cool input config t).next)
            c
          ≡ some fired.due)
        (cool-stale config input t stale) fired.came_due in
    let due' =
      subst
        (λ f.
          due_alert input b (verdicts input config b) f
            (is_upgrade (is_fresh input (last (five_windows input)) t) (last (five_windows input))
              config (cool input config t).next)
            (record { next = t; cooled = false })
          ≡ some fired.due)
        stale due in
    rw fired.drafted (stale-due input b _ _ t fired.due due')

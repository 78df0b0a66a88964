-- ===== src/Signals/Engine/Alerts.antt =====
-- About what stands behind an alert of src/signals/engine.ts.
use lp_monitor.Prelude.{
  ◌≡◌, refl, sym, ap, inl, inr, Bool, false, Bool-cases, Option, none, some, String, List, last, ok,
  >>=-eq-ok, ok_inj,
}
use mathlib.Core.Path.{subst}
use mathlib.Core.Option.{none-ne-some}
use lp_monitor.Signals.Config.{SignalConfig}
use lp_monitor.Signals.Types.{
  SignalSnapshot, SignalInput, BaselinePair, AlertDraft, RuleMatch, SignalDecision,
}
use lp_monitor.Signals.Engine.{is_uncovered, begin, five_windows, baselines}
use lp_monitor.Signals.Engine.Rules.{verdicts}
use lp_monitor.Signals.Engine.Cooling.{is_fresh, cool}
use lp_monitor.Signals.Engine.Decide.{
  HashPart, Due, is_upgrade, due_alert, heated, is_repeated, alerted, draft_of,
}
use lp_monitor.Signals.Engine.Evaluate.{settle, decide, evaluate_one}

module _ (hash : List HashPart → String) (input : SignalInput) (config : SignalConfig)
    (version : String) where
  abbrev pub freshness : SignalSnapshot → Bool
  freshness s = is_fresh input (last (five_windows input)) s

  abbrev pub upgrading : SignalSnapshot → Bool
  upgrading s =
      is_upgrade (freshness s) (last (five_windows input)) config (cool input config s).next

  -- How an alert came about from the snapshot `s`.
  pub record Fired (s : SignalSnapshot) (b : BaselinePair) (d : SignalDecision) (a : AlertDraft)
      : Type 0 where
    pub due : Due
    pub covered : is_uncovered input.coverage ≡ false
    pub came_due :
        due_alert input b
          (verdicts input config b)
          (freshness s)
          (upgrading s)
          (cool input config s)
        ≡ some due
    pub was_new :
        is_repeated hash input config
          (upgrading s)
          due
          (heated input due (cool input config s).next)
        ≡ false
    pub left :
        d.next_snapshot
        ≡ alerted hash input config version
            (verdicts input config b)
            due
            (heated input due (cool input config s).next)
    pub drafted : a.kind ≡ due.kind
    pub named : a.episode_id ≡ d.next_snapshot.episode_id

  settle-Fired :
      (s : SignalSnapshot) (b : BaselinePair) (matches : List RuleMatch) (o : Option Due)
      (a : AlertDraft)
      → is_uncovered input.coverage ≡ false
      → due_alert input b
          (verdicts input config b)
          (freshness s)
          (upgrading s)
          (cool input config s)
        ≡ o
      → (settle hash input config version b
          (verdicts input config b)
          (upgrading s)
          o
          (cool input config s).next
          matches).alert_draft
        ≡ some a
      → Fired s b
          (settle hash input config version b
            (verdicts input config b)
            (upgrading s)
            o
            (cool input config s).next
            matches)
          a
  unfolding settle draft_of
  settle-Fired s b matches none a covered e h = cc
  settle-Fired s b matches (some due) a covered e h =
      let next = heated input due (cool input config s).next in
      elim (Bool-cases (is_repeated hash input config (upgrading s) due next)) [
        | inl repeated ↦ absurd (none-ne-some a (rw repeated at h))
        | inr fired ↦
            let fired_draft = rw fired at h in
            rw fired (record {
              due = due;
              covered = covered;
              came_due = e;
              was_new = fired;
              left = refl;
              drafted = sym (
                  ap (λ (o : Option AlertDraft). elim o [ none ↦ due.kind | some x ↦ x.kind ])
                    fired_draft);
              named = sym (
                  ap (λ (o : Option AlertDraft). elim o [ none ↦ none | some x ↦ x.episode_id ])
                    fired_draft);
            })
      ]

  decide-Fired :
      (s : SignalSnapshot) (b : BaselinePair) (a : AlertDraft)
      → (decide hash input config version s b).alert_draft ≡ some a
      → Fired s b (decide hash input config version s b) a
  unfolding decide
  decide-Fired s b a h = elim (Bool-cases (is_uncovered input.coverage)) [
    | inl uncovered ↦ absurd (none-ne-some a (rw uncovered at h))
    | inr covered ↦ let h' = rw covered at h in rw covered (settle-Fired s b _ _ a covered refl h')
  ]

  -- Every alert of an evaluation came due on the snapshot that the evaluation began with.
  pub evaluate_one-Fired :
      (previous : SignalSnapshot) (d : SignalDecision) (a : AlertDraft)
      → evaluate_one hash previous input config version ≡ ok d
      → d.alert_draft ≡ some a
      → (b : BaselinePair) × (baselines input config ≡ ok b)
        × Fired (begin previous input config version) b d a
  unfolding evaluate_one
  evaluate_one-Fired previous d a e h =
      let (b, evaluated, decided) = >>=-eq-ok (baselines input config) _ e in
      let s = begin previous input config version in
      (
        b,
        evaluated,
        subst (λ x. x.alert_draft ≡ some a → Fired s b x a) (ok_inj decided) (decide-Fired s b a) h,
      )

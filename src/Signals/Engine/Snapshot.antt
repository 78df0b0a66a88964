-- ===== src/Signals/Engine/Snapshot.antt =====
-- About the snapshots of src/signals/engine.ts.
use lp_monitor.Prelude.{
  ℕ, ◌≤◌, ◌≡◌, refl, sym, inl, inr, Bool, true, false, not, ◌||◌, Bool-cases, Option, none, some,
  is_some, String, List, [], ◌∷◌, last, reverse, ok, >>=-eq-ok, ok_inj, arith,
}
use lp_monitor.Signals.Config.{SignalConfig}
use lp_monitor.Signals.Types.{
  SignalState, SignalSnapshot, SignalInput, BaselinePair, RuleMatch, SignalDecision,
}
use lp_monitor.Signals.Engine.{
  Bucket, is_uncovered, under_version, begin, five_windows, initial_signal_snapshot, baselines,
}
use lp_monitor.Signals.Engine.Rules.{Verdicts}
use lp_monitor.Signals.Engine.Cooling.{
  Cooled, is_low, count_lows, is_hot, is_cooling, is_fresh, cool, cool_latest, cool_rolling,
  cool_bucket, cool_buckets, uncounted,
}
use lp_monitor.Signals.Engine.Decide.{
  HashPart, Due, is_candidate_state, is_heat, due_alert, heated, is_repeated, alerted, episode_of,
  advance_state, record_candidate,
}
use lp_monitor.Signals.Engine.Counting.{fresh-counted}
use lp_monitor.Signals.Engine.Evaluate.{settle, decide, evaluate_one}

abbrev implies : Bool → Bool → Bool
implies a b = not a || b

abbrev is_warm : SignalState → Bool
is_warm state = is_hot state || is_cooling state

abbrev is_alerted : SignalState → Bool
is_alerted state = is_candidate_state state || is_warm state

-- A hot or cooling pool has the threshold that it entered with, the time of its heat and a counted
-- window; every state but `watch` has an episode and the time of its last alert.
pub record IsWellFormed (s : SignalSnapshot) : Type 0 where
  pub has_entry : implies (is_warm s.state) (is_some s.entry_threshold) ≡ true
  pub has_heat : implies (is_warm s.state) (is_some s.last_heat_sec) ≡ true
  pub has_window : implies (is_warm s.state) (is_some s.last_five_end_sec) ≡ true
  pub has_episode : implies (is_alerted s.state) (is_some s.episode_id) ≡ true
  pub has_alert : implies (is_alerted s.state) (is_some s.last_alert_sec) ≡ true

pub initial-IsWellFormed : IsWellFormed initial_signal_snapshot
initial-IsWellFormed = record {
  has_entry = refl;
  has_heat = refl;
  has_window = refl;
  has_episode = refl;
  has_alert = refl;
}

pub under_version-IsWellFormed :
    (s : SignalSnapshot) (version : String)
    → IsWellFormed s
    → IsWellFormed (under_version s version)
unfolding under_version
under_version-IsWellFormed s version w = ground arith

begin-IsWellFormed :
    (s : SignalSnapshot) (input : SignalInput) (config : SignalConfig) (version : String)
    → IsWellFormed s
    → IsWellFormed (begin s input config version)
unfolding begin
begin-IsWellFormed s input config version w =
    let u = under_version-IsWellFormed s version w in ground (arith, u)

module _ (config : SignalConfig) (needed : 1 ≤ config.cooling.buckets) where
  cool_bucket-IsWellFormed :
      (b : Bucket) (c : Cooled) → IsWellFormed c.next → IsWellFormed (cool_bucket config b c).next
  unfolding cool_bucket is_low
  cool_bucket-IsWellFormed b c w = ground (arith, needed)

  cool_buckets-IsWellFormed :
      (bs : List Bucket) (c : Cooled)
      → IsWellFormed c.next
      → IsWellFormed (cool_buckets config bs c).next
  unfolding cool_buckets
  cool_buckets-IsWellFormed [] c w = w
  cool_buckets-IsWellFormed (b ∷ bs) c w =
      cool_buckets-IsWellFormed bs (cool_bucket config b c) (cool_bucket-IsWellFormed b c w)

  count_lows-cold :
      (s : SignalSnapshot) (boundary lows : ℕ) (bs : List Bucket)
      → is_hot s.state ≡ false
      → count_lows config s boundary lows bs ≡ lows
  unfolding count_lows is_low
  count_lows-cold s boundary lows [] h = refl
  count_lows-cold s boundary lows (b ∷ bs) h = ground (arith, h)

  cool_rolling-IsWellFormed :
      (five : List Bucket) (latest : Bucket) (s : SignalSnapshot)
      → IsWellFormed s
      → IsWellFormed (cool_rolling config five latest s).next
  unfolding cool_rolling
  cool_rolling-IsWellFormed five latest s w =
      ground (arith, needed, count_lows-cold s latest.end_sec 0 (reverse five))

  cool_latest-IsWellFormed :
      (input : SignalInput) (s : SignalSnapshot) (o : Option Bucket)
      → IsWellFormed s
      → IsWellFormed (cool_latest input config s o).next
  unfolding cool_latest
  cool_latest-IsWellFormed input s none w = w
  cool_latest-IsWellFormed input s (some latest) w =
      let rolled = cool_rolling-IsWellFormed (five_windows input) latest s w in
      let walked =
        cool_buckets-IsWellFormed (uncounted (five_windows input) latest s.last_five_end_sec)
          (record { next = s; cooled = false }) w in
      ground (arith, rolled, walked)

  pub cool-IsWellFormed :
      (input : SignalInput) (s : SignalSnapshot)
      → IsWellFormed s
      → IsWellFormed (cool input config s).next
  unfolding cool
  cool-IsWellFormed input s w = cool_latest-IsWellFormed input s (last (five_windows input)) w

  alerted-IsWellFormed :
      (hash : List HashPart → String) (input : SignalInput) (version : String) (v : Verdicts)
      (due : Due) (s : SignalSnapshot)
      → IsWellFormed s
      → implies (is_heat due.kind) (is_some s.last_five_end_sec) ≡ true
      → IsWellFormed (alerted hash input config version v due (heated input due s))
  unfolding alerted heated episode_of advance_state record_candidate
  alerted-IsWellFormed hash input version v due s w counted = ground arith

  heated-IsWellFormed :
      (input : SignalInput) (due : Due) (s : SignalSnapshot)
      → IsWellFormed s
      → IsWellFormed (heated input due s)
  unfolding heated
  heated-IsWellFormed input due s w = ground arith

  settle-IsWellFormed :
      (hash : List HashPart → String) (input : SignalInput) (version : String) (b : BaselinePair)
      (v : Verdicts) (upgrade : Bool) (due : Option Due) (s : SignalSnapshot)
      (matches : List RuleMatch)
      → IsWellFormed s
      → ((d : Due) → due ≡ some d → implies (is_heat d.kind) (is_some s.last_five_end_sec) ≡ true)
      → IsWellFormed (settle hash input config version b v upgrade due s matches).next_snapshot
  unfolding settle
  settle-IsWellFormed hash input version b v upgrade none s matches w counted = w
  settle-IsWellFormed hash input version b v upgrade (some due) s matches w counted =
      elim (Bool-cases (is_repeated hash input config upgrade due (heated input due s))) [
        | inl repeated ↦ rw repeated (heated-IsWellFormed input due s w)
        | inr fired ↦
            rw fired (alerted-IsWellFormed hash input version v due s w (counted due refl))
      ]

  -- A heat is due only on a fresh window, which is counted by then.
  due_alert-counted :
      (input : SignalInput) (b : BaselinePair) (v : Verdicts) (s : SignalSnapshot) (upgrade : Bool)
      (due : Due)
      → due_alert input b v
          (is_fresh input (last (five_windows input)) s)
          upgrade
          (cool input config s)
        ≡ some due
      → implies (is_heat due.kind) (is_some (cool input config s).next.last_five_end_sec) ≡ true
  unfolding due_alert
  due_alert-counted input b v s upgrade due e = ground (arith, fresh-counted config input s)

  decide-IsWellFormed :
      (hash : List HashPart → String) (input : SignalInput) (version : String) (s : SignalSnapshot)
      (b : BaselinePair)
      → IsWellFormed s
      → IsWellFormed (decide hash input config version s b).next_snapshot
  unfolding decide
  decide-IsWellFormed hash input version s b w = elim (Bool-cases (is_uncovered input.coverage)) [
    | inl uncovered ↦ rw uncovered w
    | inr covered ↦ rw covered (
        settle-IsWellFormed hash input version b _ _ _ _ _ (cool-IsWellFormed input s w)
          (due_alert-counted input b _ s _))
  ]

  -- The snapshot of an evaluation is well formed if the one before it was.
  pub evaluate_one-IsWellFormed :
      (hash : List HashPart → String) (previous : SignalSnapshot) (input : SignalInput)
      (version : String) (d : SignalDecision)
      → IsWellFormed previous
      → evaluate_one hash previous input config version ≡ ok d
      → IsWellFormed d.next_snapshot
  unfolding evaluate_one
  evaluate_one-IsWellFormed hash previous input version d w e =
      let (b, evaluated, decided) = >>=-eq-ok (baselines input config) _ e in
      let kept =
        decide-IsWellFormed hash input version (begin previous input config version) b
          (begin-IsWellFormed previous input config version w) in
      rw (sym (ok_inj decided)) kept

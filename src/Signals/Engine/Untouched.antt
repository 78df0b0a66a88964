-- ===== src/Signals/Engine/Untouched.antt =====
-- What the cooling of src/signals/engine.ts leaves alone in a snapshot.
use lp_monitor.Prelude.{◌≡◌, ◌⊎◌, false, Option, none, some, List, [], ◌∷◌, last, arith}
use lp_monitor.Signals.Config.{SignalConfig}
use lp_monitor.Signals.Types.{SignalState, SignalSnapshot, SignalInput}
use lp_monitor.Signals.Engine.{Bucket, five_windows}
use lp_monitor.Signals.Engine.Cooling.{
  Cooled, cool, cool_latest, cool_rolling, cool_bucket, cool_buckets, uncounted,
}

-- Only the state, the count and the last window change; the state only to `cooling`.
pub record SameAlerts (s t : SignalSnapshot) : Type 0 where
  pub alert_sec : t.last_alert_sec ≡ s.last_alert_sec
  pub alert_volume : t.last_alert_volume ≡ s.last_alert_volume
  pub alert_scale : t.last_alert_scale ≡ s.last_alert_scale
  pub alert_kind : t.last_alert_kind ≡ s.last_alert_kind
  pub episode : t.episode_id ≡ s.episode_id
  pub version : t.config_version ≡ s.config_version
  pub candidate_start : t.candidate_minute_start_sec ≡ s.candidate_minute_start_sec
  pub candidate_print : t.candidate_fingerprint ≡ s.candidate_fingerprint
  pub state : (t.state ≡ s.state) ⊎ (t.state ≡ SignalState.cooling)

module _ (config : SignalConfig) where
  cool_bucket-SameAlerts :
      (b : Bucket) (s : SignalSnapshot) (c : Cooled)
      → SameAlerts s c.next
      → SameAlerts s (cool_bucket config b c).next
  unfolding cool_bucket
  cool_bucket-SameAlerts b s c k = ground arith

  cool_buckets-SameAlerts :
      (bs : List Bucket) (s : SignalSnapshot) (c : Cooled)
      → SameAlerts s c.next
      → SameAlerts s (cool_buckets config bs c).next
  unfolding cool_buckets
  cool_buckets-SameAlerts [] s c k = k
  cool_buckets-SameAlerts (b ∷ bs) s c k =
      cool_buckets-SameAlerts bs s (cool_bucket config b c) (cool_bucket-SameAlerts b s c k)

  SameAlerts-refl : (s : SignalSnapshot) → SameAlerts s s
  SameAlerts-refl s = ground arith

  cool_rolling-SameAlerts :
      (five : List Bucket) (latest : Bucket) (s : SignalSnapshot)
      → SameAlerts s (cool_rolling config five latest s).next
  unfolding cool_rolling
  cool_rolling-SameAlerts five latest s = ground arith

  cool_latest-SameAlerts :
      (input : SignalInput) (s : SignalSnapshot) (o : Option Bucket)
      → SameAlerts s (cool_latest input config s o).next
  unfolding cool_latest
  cool_latest-SameAlerts input s none = SameAlerts-refl s
  cool_latest-SameAlerts input s (some latest) = ground (
    arith,
    SameAlerts-refl s,
    cool_rolling-SameAlerts (five_windows input) latest s,
    cool_buckets-SameAlerts (uncounted (five_windows input) latest s.last_five_end_sec) s
        (record { next = s; cooled = false }) (SameAlerts-refl s),
  )

  pub cool-SameAlerts :
      (input : SignalInput) (s : SignalSnapshot) → SameAlerts s (cool input config s).next
  unfolding cool
  cool-SameAlerts input s = cool_latest-SameAlerts input s (last (five_windows input))

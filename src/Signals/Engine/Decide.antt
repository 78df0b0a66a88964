-- ===== src/Signals/Engine/Decide.antt =====
-- src/signals/engine.ts, fourth part: which alert is due, whether it repeats one, and what it
-- leaves in the snapshot. `hash` stands for the SHA-256 of the JSON of its parts.
use lp_monitor.Prelude.{
  ℕ, ◌+◌, ◌==◌, ltb, if◌then◌else◌, Bool, true, false, not, ◌&&◌, ◌||◌, Option, none, some, is_some,
  String, List, [], ◌∷◌, ◌++◌, last, ℤ, pos, ◌*ℤ◌, leb_ℤ,
}
use lp_monitor.Prelude.Text.{concat, same_optional}
use lp_monitor.Domain.{chain_id, pool_registration_id}
use lp_monitor.Metrics.Types.{MinuteMetric, RawNotional}
use lp_monitor.Signals.Baseline.{is_ready}
use lp_monitor.Signals.Config.{SignalConfig}
use lp_monitor.Signals.Types.{
  AlertKind, AlertScale, SignalState, SignalSnapshot, SignalInput, BaselinePair, AlertDraft,
}
use lp_monitor.Signals.Engine.{Bucket, judged_minute, five_windows, current_minute}
use lp_monitor.Signals.Engine.Rules.{Verdicts, minute_usd, bucket_usd, status_text}
use lp_monitor.Signals.Engine.Cooling.{Cooled, is_hot, is_cooling}

pub data HashPart : Type 0 where
  absent : HashPart
  text : String → HashPart
  number : ℕ → HashPart
  big : ℤ → HashPart
  texts : List String → HashPart
  kind : AlertKind → HashPart

abbrev pub is_five : Option AlertScale → Bool
is_five (some AlertScale.five_minutes) = true
is_five _ = false

-- `latest.usdMicros >= lastAlertVolume * threshold`, with both there.
abbrev pub multiplies : Option ℤ → Option ℤ → ℕ → Bool
multiplies none volume threshold = false
multiplies (some usd) none threshold = false
multiplies (some usd) (some volume) threshold = leb_ℤ (volume *ℤ pos threshold) usd

-- `next` is the snapshot behind the cooling.
unfoldable pub is_upgrade : Bool → Option Bucket → SignalConfig → SignalSnapshot → Bool
is_upgrade fresh latest config next =
    fresh
    && is_hot next.state
    && config.upgrade.enabled
    && is_five next.last_alert_scale
    && multiplies (bucket_usd latest) next.last_alert_volume config.upgrade.threshold

pub record Due : Type 0 where
  pub kind : AlertKind
  pub volume : Option ℤ
  pub scale : AlertScale
  pub reasons : List String

abbrev pub listed : Bool → String → List String
listed b reason = if b then reason ∷ [] else []

-- The alert that is due, if one is.
unfoldable pub due_alert : SignalInput → BaselinePair → Verdicts → Bool → Bool → Cooled → Option Due
due_alert input b v fresh upgrade c =
    let rolling = is_some input.metrics.rolling in
    let latest = bucket_usd (last (five_windows input)) in
    if fresh && (v.relative || v.consecutive || upgrade)
    then some (record {
      kind = if is_cooling c.next.state then AlertKind.reheat else AlertKind.hot;
      volume = latest;
      scale = AlertScale.five_minutes;
      reasons = listed v.relative "confirmRelative" ++ listed v.consecutive "confirmConsecutive";
    })
    else if c.cooled
    then some (record {
      kind = AlertKind.cooling;
      volume = latest;
      scale = AlertScale.five_minutes;
      reasons =
          (if rolling then "consecutive-low-rolling5m" else "three-complete-low-natural5m") ∷ [];
    })
    else if v.candidate && not (is_hot c.next.state)
    then some (record {
      kind = AlertKind.candidate;
      volume = minute_usd (judged_minute input);
      scale = AlertScale.one_minute;
      reasons =
          "candidate"
          ∷ (listed (not (is_ready b.minute.status))
                (concat (status_text b.minute.status) "/absolute-only")
              ++ (if rolling then "rolling-1m" else "partial") ∷ []);
    })
    else none

abbrev pub is_heat : AlertKind → Bool
is_heat AlertKind.hot = true
is_heat AlertKind.reheat = true
is_heat _ = false

abbrev pub is_candidate : AlertKind → Bool
is_candidate AlertKind.candidate = true
is_candidate _ = false

abbrev pub is_hot_kind : AlertKind → Bool
is_hot_kind AlertKind.hot = true
is_hot_kind _ = false

abbrev pub is_reheat : AlertKind → Bool
is_reheat AlertKind.reheat = true
is_reheat _ = false

abbrev pub is_candidate_state : SignalState → Bool
is_candidate_state SignalState.candidate = true
is_candidate_state _ = false

abbrev pub was_candidate : Option AlertKind → Bool
was_candidate none = false
was_candidate (some k) = is_candidate k

-- `kind === 'hot' || kind === 'reheat'` sets the time of the heat, also where no alert follows.
unfoldable pub heated : SignalInput → Due → SignalSnapshot → SignalSnapshot
heated input due next =
    if is_heat due.kind then record next { last_heat_sec = some input.watermark_sec } else next

abbrev pub same_start : Option ℕ → Option MinuteMetric → Bool
same_start none m = false
same_start (some start) none = false
same_start (some start) (some m) = start == m.minute_start_sec

abbrev part_of : Option ℕ → HashPart
part_of none = absent
part_of (some n) = number n

abbrev big_of : Option ℤ → HashPart
big_of none = absent
big_of (some n) = big n

abbrev raw_of : Option RawNotional → HashPart
raw_of none = absent
raw_of (some r) = big r.raw

-- `watermarkSec - lastAlertSec < threshold`, with the last alert there.
abbrev pub is_within : ℕ → Option ℕ → ℕ → Bool
is_within watermark none threshold = false
is_within watermark (some alerted) threshold = ltb watermark (alerted + threshold)

abbrev pub episode_start : SignalInput → Due → HashPart
episode_start input due =
    if is_candidate due.kind
    then number (current_minute input)
    else elim (last (five_windows input)) [ none ↦ absent | some b ↦ number b.end_sec ]

abbrev epoch_text : Option String → String
epoch_text none = ""
epoch_text (some e) = e

abbrev text_of : Option String → HashPart
text_of none = absent
text_of (some s) = text s

-- The state and the entry threshold behind an alert.
unfoldable pub advance_state : SignalConfig → Verdicts → Due → SignalSnapshot → SignalSnapshot
advance_state config v due next =
    if is_heat due.kind
    then record next {
      state = SignalState.hot;
      entry_threshold =
          if is_hot next.state
          then next.entry_threshold
          else some (
              if v.relative
              then config.confirm_relative.threshold
              else config.confirm_consecutive.threshold);
    }
    else if is_candidate due.kind && not (is_cooling next.state)
    then record next { state = SignalState.candidate }
    else next

abbrev start_of : Option MinuteMetric → Option ℕ
start_of none = none
start_of (some m) = some m.minute_start_sec

module _ (hash : List HashPart → String) where
  unfoldable pub fingerprint : Option MinuteMetric → String
  fingerprint none = ""
  fingerprint (some m) = hash (
      big_of m.usd_micros
      ∷ raw_of m.raw_notional
      ∷ part_of m.swap_count
      ∷ part_of m.tx_count
      ∷ part_of m.add_count
      ∷ part_of m.remove_count
      ∷ part_of m.zero_delta_count
      ∷ texts m.reasons
      ∷ [])

  -- The two early returns: the candidate of one minute again, and an alert inside the cooldown.
  unfoldable pub is_repeated : SignalInput → SignalConfig → Bool → Due → SignalSnapshot → Bool
  is_repeated input config upgrade due next =
      let minute = judged_minute input in
      let same_minute =
        is_candidate due.kind && same_start next.candidate_minute_start_sec minute in
      let same_level =
        is_hot_kind due.kind && is_hot next.state
        || is_candidate due.kind
          && (is_candidate_state next.state || was_candidate next.last_alert_kind) in
      same_minute && same_optional next.candidate_fingerprint (some (fingerprint minute))
      || same_level
        && not upgrade
        && not same_minute
        && config.cooldown.enabled
        && is_within input.watermark_sec next.last_alert_sec config.cooldown.threshold

  -- A new episode where there is none, and for a reheat.
  unfoldable pub episode_of : SignalInput → String → Due → SignalSnapshot → Option String
  episode_of input version due next =
      if not (is_some next.episode_id) || is_reheat due.kind
      then some (
          hash (
            text (epoch_text input.epoch)
            ∷ text version
            ∷ text (pool_registration_id input.pool)
            ∷ episode_start input due
            ∷ kind due.kind
            ∷ []))
      else next.episode_id

  unfoldable pub alert_id : SignalInput → String → Option String → Due → String
  alert_id input version episode due = hash (
      number chain_id
      ∷ text (pool_registration_id input.pool)
      ∷ text version
      ∷ text_of episode
      ∷ kind due.kind
      ∷ [])

  unfoldable pub record_candidate : SignalInput → Due → SignalSnapshot → SignalSnapshot
  record_candidate input due next =
      if is_candidate due.kind
      then record next {
        candidate_minute_start_sec = start_of (judged_minute input);
        candidate_fingerprint = some (fingerprint (judged_minute input));
      }
      else next

  -- The snapshot behind an alert that goes out.
  unfoldable pub alerted :
      SignalInput → SignalConfig → String → Verdicts → Due → SignalSnapshot → SignalSnapshot
  alerted input config version v due next =
      let named = record next { episode_id = episode_of input version due next } in
      record (record_candidate input due (advance_state config v due named)) {
        last_alert_sec = some input.watermark_sec;
        last_alert_volume = due.volume;
        last_alert_scale = some due.scale;
        last_alert_kind = some due.kind;
      }

  unfoldable pub draft_of :
      SignalInput → String → BaselinePair → Bool → Due → Option String → AlertDraft
  draft_of input version b upgrade due episode = record {
    id = alert_id input version episode due;
    historical = none;
    logical_time_sec = none;
    kind = due.kind;
    pool = input.pool;
    pool_id = pool_registration_id input.pool;
    rule_version = version;
    episode_id = episode;
    at_batch_id = input.batch_id;
    observed_at_ms = input.observed_at_ms;
    end_anchor = input.end_anchor;
    watermark_sec = input.watermark_sec;
    reasons = due.reasons ++ listed upgrade "upgrade";
    metrics = input.metrics;
    coverage = input.coverage;
    presentation = input.presentation;
    baseline = b;
  }

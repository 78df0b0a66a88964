-- ===== src/Metrics/Rolling/Window.antt =====
-- src/metrics/rolling.ts: what a rolling window reports, and its baseline.
pub mod Additive
use lp_monitor.Prelude.{
  ℕ, ◌+◌, ◌-◌, ◌/◌, ◌%◌, ◌==◌, ltb, leb, if◌then◌else◌, Bool, true, false, not, ◌&&◌, ◌||◌, Option,
  none, some, is_some, String, str_eq, List, [], ◌∷◌, map, length, select, every, ℤ, pos, negsuc,
  leb_ℤ, Outcome, ok, throw, ◌>>=◌,
}
use lp_monitor.Prelude.Text.{same_hex}
use lp_monitor.Domain.{LogTime, BlockAnchor}
use lp_monitor.Metrics.Types.{RawNotional, MinuteStatus, BaselineFields}
use lp_monitor.Metrics.Baseline.{volume_baseline}
use lp_monitor.Metrics.Windows.{
  MetricEvent, MinuteCoverage, no_baseline, distinct, total, raw_value, is_swap, usd_of, usdg_of,
  swap_count_of, tx_count_of, add_count_of, remove_count_of, zero_delta_count_of,
}
use lp_monitor.Metrics.Windows.Build.{distinct_numbers}
use lp_monitor.Metrics.Windows.Buckets.{
  is_closed, comparable_volume, reported_unit, fields_of, raw_of, slice_last,
}
use lp_monitor.Metrics.Rolling.{selected_events, window_reasons, window_status}

-- `RollingMetric`, with a start that may be before 0.
pub record RollingWindow : Type 0 where
  pub start_sec : ℤ
  pub end_sec : ℕ
  pub status : MinuteStatus
  pub reasons : List String
  pub usd_micros : Option ℤ
  pub usdg_notional_raw : Option ℤ
  pub raw_notional : Option RawNotional
  pub swap_count : Option ℕ
  pub tx_count : Option ℕ
  pub add_count : Option ℕ
  pub remove_count : Option ℕ
  pub zero_delta_count : Option ℕ
  pub active_minutes : Option ℕ
  pub baseline : BaselineFields

abbrev pub token_or_given : Option RawNotional → Option String → Option String
token_or_given none given = given
token_or_given (some raw) given = some raw.token

abbrev pub first_token : List (Option RawNotional) → Option String → Option String
first_token [] given = given
first_token (raw ∷ rest) given = token_or_given raw given

abbrev pub has_same_token : String → Option RawNotional → Bool
has_same_token token none = false
has_same_token token (some raw) = same_hex raw.token token

abbrev pub raw_sum : Option String → List (Option RawNotional) → Option RawNotional
raw_sum none raws = none
raw_sum (some token) raws =
    if every (has_same_token token) raws
    then some (record { token = token; raw = total (pos 0) (map raw_value raws) })
    else none

abbrev pub swap_raws : List MetricEvent → List (Option RawNotional)
swap_raws events = map (λ (e : MetricEvent). e.raw_notional) (select is_swap events)

-- The seconds behind the first second of the window.
abbrev pub since : ℤ → ℕ → ℕ
since (pos s) t = t - (s + 1)
since (negsuc k) t = t + k

abbrev pub ends_minute : ℤ → Bool
ends_minute (pos s) = s % 60 == 59
ends_minute (negsuc k) = k % 60 == 0

abbrev pub time_or_minute : Option ℕ → Option ℕ → ℕ
time_or_minute (some exact) minute = exact
time_or_minute none none = 0
time_or_minute none (some m) = m

abbrev pub minute_index : ℤ → MetricEvent → ℕ
minute_index start e =
    since start (time_or_minute e.time.exact_timestamp_sec e.time.minute_start_sec) / 60

abbrev pub is_exact : MetricEvent → Bool
is_exact e = is_some e.time.exact_timestamp_sec

unfoldable pub active_minutes_of : ℤ → List MetricEvent → Option ℕ
active_minutes_of start swaps =
    if every is_exact swaps || ends_minute start
    then some (length (distinct_numbers [] (map (minute_index start) swaps)))
    else none

-- A field of a window that answers.
abbrev pub if_available {ℓ} : {A : Type ℓ} → MinuteStatus → Option A → Option A
if_available MinuteStatus.closed value = value
if_available _ value = none

unfoldable pub window :
    List MetricEvent
    → List MinuteCoverage
    → ℤ
    → ℕ
    → BlockAnchor
    → Option String
    → Option ℕ
    → RollingWindow
window events coverage start end watermark raw_token birth =
    let selected = selected_events watermark start end events in
    let status = window_status coverage watermark start end birth events in
    record {
      start_sec = start;
      end_sec = end;
      status = status;
      reasons = distinct (window_reasons coverage watermark start end birth events);
      usd_micros = if_available status (usd_of selected);
      usdg_notional_raw = if_available status (usdg_of selected);
      raw_notional =
          if_available status
            (raw_sum (first_token (swap_raws selected) raw_token) (swap_raws selected));
      swap_count = if_available status (some (swap_count_of selected));
      tx_count = if_available status (some (tx_count_of selected));
      add_count = if_available status (some (add_count_of selected));
      remove_count = if_available status (some (remove_count_of selected));
      zero_delta_count = if_available status (some (zero_delta_count_of selected));
      active_minutes = if_available status (active_minutes_of start (select is_swap selected));
      baseline = no_baseline;
    }

abbrev pub same_exact_token : Option RawNotional → Option RawNotional → Bool
same_exact_token (some a) (some b) = str_eq a.token b.token
same_exact_token _ _ = false

abbrev pub same_unit : RollingWindow → RollingWindow → Bool
same_unit current h = elim current.usd_micros [
  | some usd ↦ is_some h.usd_micros
  | none ↦ same_exact_token current.raw_notional h.raw_notional
]

abbrev pub is_prior : RollingWindow → RollingWindow → Bool
is_prior current h =
    is_closed h.status && leb_ℤ (pos h.end_sec) current.start_sec && same_unit current h

abbrev pub unit_volume : RollingWindow → RollingWindow → Option ℤ
unit_volume current h = elim current.usd_micros [
  | some usd ↦ h.usd_micros
  | none ↦ raw_of h.raw_notional
]

unfoldable pub baseline : RollingWindow → List RollingWindow → ℕ → Outcome RollingWindow
baseline current history minimum =
    volume_baseline (comparable_volume current.usd_micros current.raw_notional)
      (map (unit_volume current) (slice_last minimum (select (is_prior current) history))) minimum
    >>= λ r. ok (record current {
      baseline = fields_of r (reported_unit current.usd_micros current.raw_notional);
    })

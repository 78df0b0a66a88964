-- ===== src/Metrics/Windows/Buckets.antt =====
-- src/metrics/windows.ts: the baselines of the minutes and the five-minute buckets over them. The
-- starts of the minutes of a pool are distinct.
pub mod Sound
use lp_monitor.Prelude.{
  ℕ, zero, suc, ◌+◌, ◌-◌, ◌*◌, ◌%◌, ◌==◌, ltb, leb, if◌then◌else◌, Bool, true, false, not, ◌&&◌,
  Option, none, some, is_some, String, str_eq, List, [], ◌∷◌, ◌++◌, map, length, select, drop, sort,
  ℤ, Outcome, ok, throw, ◌>>=◌,
}
use lp_monitor.Prelude.Text.{to_lower_case, concat, same_hex}
use lp_monitor.Metrics.Types.{
  RawNotional, MinuteStatus, MinuteMetric, AggregateMetric, BaselineFields,
}
use lp_monitor.Metrics.Baseline.{BaselineResult, volume_baseline}
use lp_monitor.Metrics.Baseline.Rolling.{
  HistoryItem, RollingBaselinePoint, RollingVolumeBaseline, create, next,
}
use lp_monitor.Metrics.Windows.{
  MetricEvent, no_baseline, sum_raw, tx_count_of, swap_count_of, add_count_of, remove_count_of,
  zero_delta_count_of, usd_of, usdg_of,
}

abbrev pub is_closed : MinuteStatus → Bool
is_closed MinuteStatus.closed = true
is_closed _ = false

abbrev pub comparable_volume : Option ℤ → Option RawNotional → Option ℤ
comparable_volume (some usd) raw = some usd
comparable_volume none none = none
comparable_volume none (some raw) = some raw.raw

abbrev pub token_of : Option RawNotional → Option String
token_of none = none
token_of (some raw) = some raw.token

abbrev pub raw_unit : RawNotional → String
raw_unit raw = concat "raw:" (to_lower_case raw.token)

abbrev pub unit_of : Option ℤ → Option RawNotional → Option String
unit_of (some usd) raw = some "usdMicros"
unit_of none none = none
unit_of none (some raw) = some (raw_unit raw)

abbrev pub usd_history : Option ℤ → List HistoryItem
usd_history none = []
usd_history (some usd) = record { unit = "usdMicros"; value = some usd } ∷ []

abbrev pub raw_history : Option RawNotional → List HistoryItem
raw_history none = []
raw_history (some raw) = record { unit = raw_unit raw; value = some raw.raw } ∷ []

abbrev pub point_of : MinuteMetric → RollingBaselinePoint
point_of m = record {
  eligible = is_closed m.status;
  unit = unit_of m.usd_micros m.raw_notional;
  current = comparable_volume m.usd_micros m.raw_notional;
  history = some (usd_history m.usd_micros ++ raw_history m.raw_notional);
}

abbrev pub reported_unit : Option ℤ → Option RawNotional → Option String
reported_unit (some usd) raw = some "usdMicros"
reported_unit none raw = token_of raw

abbrev pub fields_of : BaselineResult → Option String → BaselineFields
fields_of r unit = record {
  baseline_sample_count = r.sample_count;
  baseline_median = r.median;
  baseline_median_numerator = r.median_numerator;
  baseline_median_denominator = r.median_denominator;
  baseline_unit = unit;
  volume_multiplier = r.multiplier;
}

abbrev pub with_baseline : MinuteMetric → Option BaselineResult → MinuteMetric
with_baseline m none = m
with_baseline m (some r) = record m {
  baseline = fields_of r (reported_unit m.usd_micros m.raw_notional);
}

unfoldable pub apply_baselines :
    RollingVolumeBaseline → List MinuteMetric → Outcome (List MinuteMetric)
apply_baselines rolling [] = ok []
apply_baselines rolling (m ∷ rest) =
    next rolling (point_of m) >>= λ (r : Option BaselineResult × RollingVolumeBaseline).
    apply_baselines r.1 rest >>= λ others. ok (with_baseline m r.0 ∷ others)

unfoldable pub apply_minute_baselines : List MinuteMetric → ℕ → ℕ → Outcome (List MinuteMetric)
apply_minute_baselines minutes minimum limit =
    create minimum limit >>= λ rolling. apply_baselines rolling minutes

-- `eventByMinute.get(start) ?? []`.
abbrev pub starts_at : ℕ → MetricEvent → Bool
starts_at start e = elim e.time.minute_start_sec [ none ↦ false | some minute ↦ minute == start ]

abbrev pub events_at : List MetricEvent → ℕ → List MetricEvent
events_at events start = select (starts_at start) events

unfoldable pub events_of : List MetricEvent → List MinuteMetric → List MetricEvent
events_of events [] = []
events_of events (m ∷ rest) = events_at events m.minute_start_sec ++ events_of events rest

unfoldable pub last_start : MinuteMetric → List MinuteMetric → ℕ
last_start m [] = m.minute_start_sec
last_start m (next ∷ rest) = last_start next rest

abbrev pub is_active : MinuteMetric → Bool
is_active m = elim m.active_minutes [ none ↦ false | some n ↦ ltb 0 n ]

unfoldable pub aggregate : List MetricEvent → MinuteMetric → List MinuteMetric → AggregateMetric
aggregate events first rest =
    let found = events_of events (first ∷ rest) in
    record {
      start_sec = first.minute_start_sec;
      end_sec = last_start first rest + 60;
      usd_micros = usd_of found;
      usdg_notional_raw = usdg_of found;
      raw_notional = sum_raw (map (λ (m : MinuteMetric). m.raw_notional) (first ∷ rest));
      swap_count = swap_count_of found;
      tx_count = tx_count_of found;
      add_count = add_count_of found;
      remove_count = remove_count_of found;
      zero_delta_count = zero_delta_count_of found;
      active_minutes = length (select is_active (first ∷ rest));
      baseline = no_baseline;
    }

unfoldable pub minute_at : ℕ → List MinuteMetric → Option MinuteMetric
minute_at start [] = none
minute_at start (m ∷ rest) =
    let later = minute_at start rest in if m.minute_start_sec == start then some m else later

abbrev pub if_closed : Option MinuteMetric → Option MinuteMetric
if_closed none = none
if_closed (some m) = if is_closed m.status then some m else none

abbrev pub before_run : MinuteMetric → Option (List MinuteMetric) → Option (List MinuteMetric)
before_run m none = none
before_run m (some rest) = some (m ∷ rest)

abbrev pub run_of : Option MinuteMetric → Option (List MinuteMetric) → Option (List MinuteMetric)
run_of none run = none
run_of (some m) run = before_run m run

-- Closed minutes, each a minute after the one before it.
unfoldable pub closed_run : ℕ → ℕ → List MinuteMetric → Option (List MinuteMetric)
closed_run zero start minutes = some []
closed_run (suc n) start minutes =
    run_of (if_closed (minute_at start minutes)) (closed_run n (start + 60) minutes)

abbrev pub aggregate_run : List MetricEvent → Option (List MinuteMetric) → Option AggregateMetric
aggregate_run events none = none
aggregate_run events (some []) = none
aggregate_run events (some (first ∷ rest)) = some (aggregate events first rest)

unfoldable pub five_from : List MinuteMetric → List MetricEvent → ℕ → Option AggregateMetric
five_from minutes events start = aggregate_run events (closed_run 5 start minutes)

abbrev pub same_raw_scale : Option RawNotional → Option RawNotional → Bool
same_raw_scale (some a) (some b) = same_hex a.token b.token
same_raw_scale _ _ = false

abbrev pub same_aggregate_scale : AggregateMetric → AggregateMetric → Bool
same_aggregate_scale a b = elim a.usd_micros [
  | some usd ↦ is_some b.usd_micros
  | none ↦ same_raw_scale a.raw_notional b.raw_notional
]

abbrev pub raw_of : Option RawNotional → Option ℤ
raw_of none = none
raw_of (some raw) = some raw.raw

abbrev pub volume_like : AggregateMetric → AggregateMetric → Option ℤ
volume_like value item = elim value.usd_micros [
  | some usd ↦ item.usd_micros
  | none ↦ raw_of item.raw_notional
]

abbrev pub slice_last {ℓ} : {A : Type ℓ} → ℕ → List A → List A
slice_last limit xs = if limit == 0 then xs else drop (length xs - limit) xs

abbrev pub bucket_with : AggregateMetric → BaselineResult → AggregateMetric
bucket_with value r = record value {
  baseline = fields_of r (reported_unit value.usd_micros value.raw_notional);
}

unfoldable pub with_prior : AggregateMetric → List AggregateMetric → ℕ → Outcome AggregateMetric
with_prior value prior minimum =
    volume_baseline (comparable_volume value.usd_micros value.raw_notional)
      (map (volume_like value) prior) minimum
    >>= λ r. ok (bucket_with value r)

abbrev pub add_natural :
    List AggregateMetric → ℕ → ℕ → Option AggregateMetric → Outcome (List AggregateMetric)
add_natural natural minimum limit none = ok natural
add_natural natural minimum limit (some value) =
    with_prior value (slice_last limit (select (same_aggregate_scale value) natural)) minimum
    >>= λ bucket. ok (natural ++ bucket ∷ [])

-- A bucket takes its baseline from the buckets before it.
unfoldable pub natural_from :
    List MinuteMetric
    → List MetricEvent
    → ℕ
    → ℕ
    → List ℕ
    → List AggregateMetric
    → Outcome (List AggregateMetric)
natural_from minutes events minimum limit [] natural = ok natural
natural_from minutes events minimum limit (start ∷ rest) natural =
    add_natural natural minimum limit (five_from minutes events start) >>= λ natural'.
    natural_from minutes events minimum limit rest natural'

abbrev pub natural_starts : List MinuteMetric → List ℕ
natural_starts minutes =
    sort ltb
      (select (λ start. start % 300 == 0) (map (λ (m : MinuteMetric). m.minute_start_sec) minutes))

unfoldable pub build_natural_buckets :
    List MinuteMetric → List MetricEvent → ℕ → ℕ → Outcome (List AggregateMetric)
build_natural_buckets minutes events minimum limit =
    natural_from minutes events minimum limit (natural_starts minutes) []

-- The five minutes that start `back` seconds before `current`, which may be before 0.
abbrev pub five_back : List MinuteMetric → List MetricEvent → ℕ → ℕ → Option AggregateMetric
five_back minutes events current back =
    if ltb current back then none else five_from minutes events (current - back)

abbrev pub keep_alike :
    AggregateMetric → Option AggregateMetric → List AggregateMetric → List AggregateMetric
keep_alike value none rest = rest
keep_alike value (some prior) rest = if same_aggregate_scale value prior then prior ∷ rest else rest

-- The rounds of the loop, the earliest window first.
unfoldable pub prior_fives :
    List MinuteMetric → List MetricEvent → ℕ → AggregateMetric → ℕ → List AggregateMetric
prior_fives minutes events current value zero = []
prior_fives minutes events current value (suc n) =
    keep_alike value (five_back minutes events current (300 * suc n + 300))
      (prior_fives minutes events current value n)

abbrev pub recent_of :
    List MinuteMetric
    → List MetricEvent
    → ℕ
    → ℕ
    → ℕ
    → Option AggregateMetric
    → Outcome (Option AggregateMetric)
recent_of minutes events current minimum limit none = ok none
recent_of minutes events current minimum limit (some value) =
    with_prior value (prior_fives minutes events current value limit) minimum >>= λ bucket.
    ok (some bucket)

unfoldable pub recent_five :
    List MinuteMetric → List MetricEvent → ℕ → ℕ → ℕ → Outcome (Option AggregateMetric)
recent_five minutes events current minimum limit =
    recent_of minutes events current minimum limit (five_back minutes events current 300)

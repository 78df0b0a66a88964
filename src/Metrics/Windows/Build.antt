-- ===== src/Metrics/Windows/Build.antt =====
-- src/metrics/windows.ts: `buildMinuteMetrics`, the groups of the pools and the windows of each. How
-- `localeCompare` orders two pool ids is a parameter.
pub mod Dormant
pub mod Totals
use lp_monitor.Prelude.{
  ℕ, ◌+◌, ◌*◌, ◌/◌, ◌==◌, ltb, leb, if◌then◌else◌, Bool, true, false, not, ◌&&◌, Option, none, some,
  is_some, String, List, [], ◌∷◌, ◌++◌, map, select, any, last, sort, Outcome, ok, throw, ◌>>=◌,
}
use lp_monitor.Prelude.Dict.{Dict, lookup, insert}
use lp_monitor.Domain.{PoolRef, BlockAnchor, pool_registration_id}
use lp_monitor.Metrics.Types.{
  MinuteStatus, MinuteMetric, AggregateMetric, PoolMetricWindows, UnknownTimeBlockCount,
}
use lp_monitor.Metrics.Windows.{
  MetricEvent, MinuteCoverage, select_coverage, unknown_block_metric, minute_metric, is_before,
}
use lp_monitor.Metrics.Windows.Buckets.{
  is_closed, token_of, events_at, minute_at, apply_minute_baselines, build_natural_buckets,
  recent_five,
}

pub record MetricPool : Type 0 where
  pub pool : PoolRef
  pub discovered_at_block : Option ℕ
  pub raw_token : Option String

-- The options with their defaults filled in.
pub record BuildMinuteMetricOptions : Type 0 where
  pub internal_minutes_only : Bool
  pub pools : List MetricPool
  pub minimum_one_minute_samples : ℕ
  pub minimum_five_minute_samples : ℕ
  pub one_minute_baseline_limit : ℕ
  pub five_minute_baseline_limit : ℕ

pub record PoolGroup : Type 0 where
  pub pool : PoolRef
  pub events : List MetricEvent
  pub unknown : List (ℕ × List MetricEvent)
  pub raw_token : Option String
  pub discovered_at_block : Option ℕ

abbrev pub registered_group : MetricPool → PoolGroup
registered_group p = record {
  pool = p.pool;
  events = [];
  unknown = [];
  raw_token = p.raw_token;
  discovered_at_block = p.discovered_at_block;
}

unfoldable pub registered_groups : List MetricPool → Dict PoolGroup → Dict PoolGroup
registered_groups [] groups = groups
registered_groups (p ∷ rest) groups =
    registered_groups rest (insert (pool_registration_id p.pool) (registered_group p) groups)

abbrev pub first_group : PoolRef → MetricEvent → PoolGroup
first_group pool e = record {
  pool = pool;
  events = [];
  unknown = [];
  raw_token = token_of e.raw_notional;
  discovered_at_block = none;
}

abbrev pub group_or_first : PoolRef → MetricEvent → Option PoolGroup → PoolGroup
group_or_first pool e none = first_group pool e
group_or_first pool e (some group) = group

unfoldable pub push_unknown :
    ℕ → MetricEvent → List (ℕ × List MetricEvent) → List (ℕ × List MetricEvent)
push_unknown block e [] = (block, e ∷ []) ∷ []
push_unknown block e ((number, events) ∷ rest) =
    let later = push_unknown block e rest in
    if number == block then (number, events ++ e ∷ []) ∷ rest else (number, events) ∷ later

abbrev pub token_or : Option String → Option String → Option String
token_or (some token) other = some token
token_or none other = other

unfoldable pub add_to_group : MetricEvent → PoolGroup → PoolGroup
add_to_group e g =
    let raw_token = token_or g.raw_token (token_of e.raw_notional) in
    if is_some e.time.minute_start_sec
    then record g { events = g.events ++ e ∷ []; raw_token = raw_token }
    else record g { unknown = push_unknown e.ref.block_number e g.unknown; raw_token = raw_token }

unfoldable pub group_events : List MetricEvent → Dict PoolGroup → Dict PoolGroup
group_events [] groups = groups
group_events (e ∷ rest) groups = elim e.pool [
  | none ↦ group_events rest groups
  | some pool ↦ group_events rest (
      insert (pool_registration_id pool)
        (add_to_group e (group_or_first pool e (lookup (pool_registration_id pool) groups))) groups)
]

-- `new Map(coverage.map(...)).get(start)`: the last of one start counts.
abbrev pub coverage_or : Option MinuteCoverage → Option MinuteCoverage → Option MinuteCoverage
coverage_or (some later) here = some later
coverage_or none here = here

unfoldable pub coverage_at : ℕ → List MinuteCoverage → Option MinuteCoverage
coverage_at start [] = none
coverage_at start (c ∷ rest) =
    coverage_or (coverage_at start rest) (if c.minute_start_sec == start then some c else none)

unfoldable pub minutes_of : List MetricEvent → List ℕ
minutes_of [] = []
minutes_of (e ∷ rest) =
    let others = minutes_of rest in
    elim e.time.minute_start_sec [ none ↦ others | some m ↦ m ∷ others ]

unfoldable pub distinct_numbers : List ℕ → List ℕ → List ℕ
distinct_numbers seen [] = []
distinct_numbers seen (n ∷ rest) =
    let with_n = n ∷ distinct_numbers (n ∷ seen) rest in
    let without = distinct_numbers seen rest in if any (λ m. m == n) seen then without else with_n

unfoldable pub minute_starts : List MinuteCoverage → List MetricEvent → ℕ → List ℕ
minute_starts coverage events current = sort ltb (
    distinct_numbers [] (
      map (λ (c : MinuteCoverage). c.minute_start_sec) coverage
      ++ minutes_of events
      ++ current ∷ []))

unfoldable pub minutes_from :
    List ℕ
    → ℕ
    → List MetricEvent
    → List MinuteCoverage
    → Option String
    → Option ℕ
    → List MinuteMetric
minutes_from [] current events coverage raw_token birth = []
minutes_from (start ∷ rest) current events coverage raw_token birth =
    minute_metric start current (events_at events start) (coverage_at start coverage) raw_token
      birth
    ∷ minutes_from rest current events coverage raw_token birth

pub record WindowCore : Type 0 where
  pub minutes : List MinuteMetric
  pub natural_5m_buckets : List AggregateMetric
  pub partial_current : Option MinuteMetric
  pub recent_closed_1m : Option MinuteMetric
  pub recent_closed_5x1m : Option AggregateMetric
  pub natural_closed_5m : Option AggregateMetric

module _ (options : BuildMinuteMetricOptions) (current : ℕ) where
  abbrev pub core_of :
      List MinuteMetric → List AggregateMetric → Option AggregateMetric → WindowCore
  core_of minutes natural recent = record {
    minutes = minutes;
    natural_5m_buckets = natural;
    partial_current = minute_at current minutes;
    recent_closed_1m = last (
        select (λ (m : MinuteMetric). is_closed m.status && ltb m.minute_start_sec current)
          minutes);
    recent_closed_5x1m = recent;
    natural_closed_5m = last (select (λ (b : AggregateMetric). leb b.end_sec current) natural);
  }

  unfoldable pub core_from_minutes : List MetricEvent → List MinuteMetric → Outcome WindowCore
  core_from_minutes events minutes =
      if options.internal_minutes_only
      then ok (core_of minutes [] none)
      else build_natural_buckets minutes events options.minimum_five_minute_samples
          options.five_minute_baseline_limit
        >>= λ natural.
            recent_five minutes events current options.minimum_five_minute_samples
              options.five_minute_baseline_limit
            >>= λ recent. ok (core_of minutes natural recent)

  unfoldable pub window_core :
      List MetricEvent → List MinuteCoverage → Option String → Option ℕ → Outcome WindowCore
  window_core events coverage raw_token birth =
      let selected = select_coverage events coverage in
      apply_minute_baselines
        (minutes_from (minute_starts selected events current) current events selected raw_token
          birth)
        options.minimum_one_minute_samples options.one_minute_baseline_limit
      >>= λ minutes. core_from_minutes events minutes

-- `earliestDormantBlock`.
abbrev pub earlier_block : Option ℕ → Option ℕ → Option ℕ
earlier_block earliest none = earliest
earlier_block none (some block) = some block
earlier_block (some earliest) (some block) =
    if ltb block earliest then some block else some earliest

unfoldable pub earliest_block : Option ℕ → List MinuteCoverage → Option ℕ
earliest_block earliest [] = earliest
earliest_block earliest (c ∷ rest) = earliest_block (earlier_block earliest c.from_block) rest

-- The birth in the key of `dormantWindows`.
abbrev pub key_birth : Option ℕ → Option ℕ → Option ℕ
key_birth none earliest = none
key_birth (some birth) none = none
key_birth (some birth) (some earliest) = if leb birth earliest then none else some birth

unfoldable pub dormant_birth : List MinuteCoverage → Option ℕ → Option ℕ
dormant_birth coverage discovered =
    key_birth discovered (earliest_block none (select_coverage [] coverage))

abbrev pub windows_of : PoolGroup → String → WindowCore → PoolMetricWindows
windows_of g pool_id core = record {
  rolling = none;
  rolling_history_1m = [];
  rolling_history_5m = [];
  pool = g.pool;
  pool_id = pool_id;
  minutes = core.minutes;
  natural_5m_buckets = core.natural_5m_buckets;
  partial_current = core.partial_current;
  recent_closed_1m = core.recent_closed_1m;
  recent_closed_5x1m = core.recent_closed_5x1m;
  natural_closed_5m = core.natural_closed_5m;
  unknown_time_block_counts =
      map (λ (u : ℕ × List MetricEvent). unknown_block_metric u.0 u.1)
        (sort (λ (a b : ℕ × List MetricEvent). ltb a.0 b.0) g.unknown);
}

unfoldable pub build_groups :
    BuildMinuteMetricOptions
    → ℕ
    → List MinuteCoverage
    → Dict PoolGroup
    → Outcome (List PoolMetricWindows)
build_groups options current coverage [] = ok []
build_groups options current coverage ((pool_id, g) ∷ rest) =
    window_core options current g.events coverage g.raw_token g.discovered_at_block >>= λ core.
    build_groups options current coverage rest >>= λ others. ok (windows_of g pool_id core ∷ others)

unfoldable pub build_minute_metrics :
    (String → String → Bool)
    → List MetricEvent
    → List MinuteCoverage
    → BlockAnchor
    → BuildMinuteMetricOptions
    → Outcome (List PoolMetricWindows)
build_minute_metrics locale_before events coverage watermark options =
    build_groups options (watermark.timestamp_sec / 60 * 60) coverage (
      sort (λ (a b : String × PoolGroup). locale_before a.0 b.0)
        (group_events events (registered_groups options.pools [])))

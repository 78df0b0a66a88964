-- ===== src/Metrics/Windows/Build/Totals.antt =====
-- About `buildMinuteMetrics` of src/metrics/windows.ts: the windows of one pool.
use lp_monitor.Prelude.{
  ℕ, ◌≡◌, refl, inl, inr, Bool, Bool-cases, Option, none, some, String, List, [], ◌∷◌, All, ok,
  ◌>>=◌, >>=-eq-ok, ok_inj,
}
use mathlib.Core.Path.{subst}
use lp_monitor.Metrics.Types.{MinuteMetric, MinuteStatus}
use lp_monitor.Metrics.Baseline.{BaselineResult}
use lp_monitor.Metrics.Baseline.Rolling.{RollingVolumeBaseline, create, next}
use lp_monitor.Metrics.Windows.{
  MetricEvent, MinuteCoverage, select_coverage, minute_status, born_in_current_prefix,
  minute_of_status, minute_metric,
}
use lp_monitor.Metrics.Windows.Minute.{closed_minute_is_covered}
use lp_monitor.Metrics.Windows.Buckets.{
  events_at, point_of, with_baseline, apply_baselines, apply_minute_baselines,
  build_natural_buckets, recent_five,
}
use lp_monitor.Metrics.Windows.Buckets.Sound.{
  Reports, IsSumOfFive, RecentSum, closed_is, build_natural_buckets-IsSum, recent_five-IsSum,
}
use lp_monitor.Metrics.Windows.Build.{
  BuildMinuteMetricOptions, WindowCore, coverage_at, minute_starts, minutes_from, core_of,
  core_from_minutes, window_core,
}

start_is :
    (s : MinuteStatus) (born : Bool) (start : ℕ) (events : List MetricEvent)
    (coverage : Option MinuteCoverage) (token : Option String) (birth : Option ℕ)
    → (minute_of_status s born start events coverage token birth).minute_start_sec ≡ start
start_is MinuteStatus.closed born start events coverage token birth = refl
start_is MinuteStatus.partial born start events coverage token birth = refl
start_is MinuteStatus.gap born start events coverage token birth = refl
start_is MinuteStatus.warming born start events coverage token birth = refl

minute_start :
    (start current : ℕ) (events : List MetricEvent) (coverage : Option MinuteCoverage)
    (token : Option String) (birth : Option ℕ)
    → (minute_metric start current events coverage token birth).minute_start_sec ≡ start
unfolding minute_metric
minute_start start current events coverage token birth =
    start_is (minute_status start current coverage birth)
      (born_in_current_prefix start current coverage birth) start events coverage token birth

module _ (events : List MetricEvent) where
  minutes_from-Reports :
      (starts : List ℕ) (current : ℕ) (coverage : List MinuteCoverage) (token : Option String)
      (birth : Option ℕ)
      → All (Reports events) (minutes_from starts current events coverage token birth)
  unfolding minutes_from
  minutes_from-Reports [] current coverage token birth = tt
  minutes_from-Reports (start ∷ starts) current coverage token birth = (
    λ closed.
        let m =
          minute_metric start current (events_at events start) (coverage_at start coverage) token
            birth in
        let is = closed_is m.status closed in
        let (past, covered, born, usd, count) =
          closed_minute_is_covered start current (events_at events start)
            (coverage_at start coverage) token birth is in
        let at =
          minute_start start current (events_at events start) (coverage_at start coverage) token
            birth in
        rw at (usd, count),
    minutes_from-Reports starts current coverage token birth,
  )

  with_baseline-Reports :
      (m : MinuteMetric) (r : Option BaselineResult)
      → Reports events m
      → Reports events (with_baseline m r)
  with_baseline-Reports m none h = h
  with_baseline-Reports m (some r) h = h

  apply_baselines-Reports :
      (rolling : RollingVolumeBaseline) (ms after : List MinuteMetric)
      → All (Reports events) ms
      → apply_baselines rolling ms ≡ ok after
      → All (Reports events) after
  unfolding apply_baselines
  apply_baselines-Reports rolling [] after h e = subst (All (Reports events)) (ok_inj e) tt
  apply_baselines-Reports rolling (m ∷ ms) after h e =
      let (r, called, later) =
        >>=-eq-ok (next rolling (point_of m))
          (λ (r : Option BaselineResult × RollingVolumeBaseline).
            apply_baselines r.1 ms >>= λ others. ok (with_baseline m r.0 ∷ others))
          e in
      let (others, rest, made) =
        >>=-eq-ok (apply_baselines r.1 ms) (λ others. ok (with_baseline m r.0 ∷ others)) later in
      subst (All (Reports events)) (ok_inj made)
        (with_baseline-Reports m r.0 h.0, apply_baselines-Reports r.1 ms others h.1 rest)

  abbrev AreSums : ℕ → WindowCore → Type 0
  AreSums current core =
      All (IsSumOfFive core.minutes) core.natural_5m_buckets
      × RecentSum core.minutes current core.recent_closed_5x1m

  core_from_minutes-AreSums :
      (options : BuildMinuteMetricOptions) (current : ℕ) (minutes : List MinuteMetric)
      (core : WindowCore)
      → All (Reports events) minutes
      → core_from_minutes options current events minutes ≡ ok core
      → AreSums current core
  unfolding core_from_minutes
  core_from_minutes-AreSums options current minutes core h e =
      elim (Bool-cases options.internal_minutes_only) [
        | inl internal ↦
            let made : ok (core_of options current minutes [] none) ≡ ok core = rw internal at e in
            subst (AreSums current) (ok_inj made) (tt, tt)
        | inr full ↦
            let five = options.minimum_five_minute_samples in
            let limit = options.five_minute_baseline_limit in
            let (natural, built, later) =
              >>=-eq-ok (build_natural_buckets minutes events five limit) _ (rw full at e) in
            let (recent, last, made) =
              >>=-eq-ok (recent_five minutes events current five limit)
                (λ recent. ok (core_of options current minutes natural recent)) later in
            subst (AreSums current) (ok_inj made) (
              build_natural_buckets-IsSum events minutes natural five limit h built,
              recent_five-IsSum events minutes current five limit recent h last,
            )
      ]

-- Each bucket of a pool, a natural one or the recent one, is over five closed minutes of that pool,
-- each a minute after the one before it; it ends 300 seconds after its start, its dollar volume is the
-- sum of theirs, which is missing when one of theirs is, and its number of swaps is the sum of theirs.
-- The recent bucket ends where the current minute starts.
pub buckets_are_sums :
    (options : BuildMinuteMetricOptions) (current : ℕ) (events : List MetricEvent)
    (coverage : List MinuteCoverage) (token : Option String) (birth : Option ℕ) (core : WindowCore)
    → window_core options current events coverage token birth ≡ ok core
    → All (IsSumOfFive core.minutes) core.natural_5m_buckets
      × RecentSum core.minutes current core.recent_closed_5x1m
unfolding window_core apply_minute_baselines
buckets_are_sums options current events coverage token birth core e =
    let selected = select_coverage events coverage in
    let ms =
      minutes_from (minute_starts selected events current) current events selected token birth in
    let (minutes, applied, later) =
      >>=-eq-ok
        (apply_minute_baselines ms options.minimum_one_minute_samples
          options.one_minute_baseline_limit)
        (core_from_minutes options current events) e in
    let (rolling, created, run) =
      >>=-eq-ok (create options.minimum_one_minute_samples options.one_minute_baseline_limit)
        (λ rolling. apply_baselines rolling ms) applied in
    core_from_minutes-AreSums events options current minutes core
      (apply_baselines-Reports events rolling ms minutes
        (minutes_from-Reports events (minute_starts selected events current) current selected token
          birth)
        run)
      later

-- ===== src/Metrics/Windows/Minute.antt =====
-- About `minuteMetric` of src/metrics/windows.ts.
use lp_monitor.Prelude.{
  ℕ, ◌==◌, if◌then◌else◌, ◌≡◌, ◌≢◌, refl, sym, ◌∙◌, Bool, true, false, not, ◌&&◌, Option, none,
  some, String, List, arith,
}
use lp_monitor.Metrics.Types.{MinuteMetric, MinuteStatus}
use lp_monitor.Metrics.Windows.{
  MetricEvent, MinuteCoverage, before_birth, closes, prefix_valid, gap_or_warming,
  born_in_current_prefix, minute_status, minute_of_status, minute_metric, usd_of, swap_count_of,
  is_not_after, to_of,
}

-- What a closed minute rests on, and what it reports.
abbrev pub ClosedBy :
    ℕ → ℕ → List MetricEvent → Option MinuteCoverage → Option ℕ → MinuteMetric → Type 0
ClosedBy start current events coverage birth m =
    (start ≢ current)
    × (closes coverage ≡ true)
    × (before_birth coverage birth ≡ false)
    × (m.usd_micros ≡ usd_of events)
    × (m.swap_count ≡ some (swap_count_of events))

-- The status closed has one way to come about.
closed-status :
    (start current : ℕ) (coverage : Option MinuteCoverage) (birth : Option ℕ)
    → minute_status start current coverage birth ≡ MinuteStatus.closed
    → (start ≢ current) × (closes coverage ≡ true) × (before_birth coverage birth ≡ false)
unfolding minute_status born_in_current_prefix
closed-status start current coverage birth h =
    way (before_birth coverage birth) (start == current) (prefix_valid coverage) (closes coverage)
      (is_not_after birth (to_of coverage)) refl refl refl (no_gap coverage) h
  where
    no_gap : (c : Option MinuteCoverage) → gap_or_warming c ≢ MinuteStatus.closed
    no_gap none = λ e. cc
    no_gap (some c) = λ e. cc

    way :
        (early now prefix covered began : Bool)
        → before_birth coverage birth ≡ early
        → (start == current) ≡ now
        → closes coverage ≡ covered
        → gap_or_warming coverage ≢ MinuteStatus.closed
        → (if early && not (now && prefix && early && began)
            then MinuteStatus.warming
            else if now
            then if prefix then MinuteStatus.partial else gap_or_warming coverage
            else if covered
            then MinuteStatus.closed
            else gap_or_warming coverage)
          ≡ MinuteStatus.closed
        → (start ≢ current) × (closes coverage ≡ true) × (before_birth coverage birth ≡ false)
    way true true true covered true e1 e2 e3 ng k = cc
    way true true true covered false e1 e2 e3 ng k = cc
    way true true false covered began e1 e2 e3 ng k = cc
    way true false prefix covered began e1 e2 e3 ng k = cc
    way false true true covered began e1 e2 e3 ng k = cc
    way false true false covered began e1 e2 e3 ng k = absurd (ng k)
    way false false prefix false began e1 e2 e3 ng k = absurd (ng k)
    way false false prefix true began e1 e2 e3 ng k = (λ same. ground (arith, same, e2), e3, e1)

status_is :
    (s : MinuteStatus) (born : Bool) (start : ℕ) (events : List MetricEvent)
    (coverage : Option MinuteCoverage) (token : Option String) (birth : Option ℕ)
    → (minute_of_status s born start events coverage token birth).status ≡ s
status_is MinuteStatus.closed born start events coverage token birth = refl
status_is MinuteStatus.partial born start events coverage token birth = refl
status_is MinuteStatus.gap born start events coverage token birth = refl
status_is MinuteStatus.warming born start events coverage token birth = refl

-- A minute is reported as closed only when it is not the current one, the coverage of the minute is
-- complete with both of its blocks, and the pool was born by then; it then reports the sum of the
-- values of its swaps and their number.
pub closed_minute_is_covered :
    (start current : ℕ) (events : List MetricEvent) (coverage : Option MinuteCoverage)
    (token : Option String) (birth : Option ℕ)
    → (minute_metric start current events coverage token birth).status ≡ MinuteStatus.closed
    → ClosedBy start current events coverage birth
        (minute_metric start current events coverage token birth)
unfolding minute_metric
closed_minute_is_covered start current events coverage token birth h =
    let is : minute_status start current coverage birth ≡ MinuteStatus.closed =
      sym
        (status_is (minute_status start current coverage birth) _ start events coverage token birth)
      ∙ h in
    let (past, covered, born) = closed-status start current coverage birth is in
    rw is (past, covered, born, refl, refl)

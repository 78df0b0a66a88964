-- ===== src/Metrics/Rolling/Covered.antt =====
-- About the windows of src/metrics/rolling.ts that answer.
use lp_monitor.Prelude.{
  ℕ, zero, suc, ◌+◌, ◌-◌, ◌*◌, ◌/◌, ◌%◌, ◌≤◌, ◌<◌, ◌≡◌, refl, sym, ◌∙◌, ap, inl, inr, Bool, true,
  false, not, ◌&&◌, ◌||◌, Bool-cases, Option, none, some, is_some, String, str_eq, List, [], ◌∷◌,
  ◌++◌, any, ℤ, pos_part, is_negative, arith,
}
use mathlib.Core.Path.{subst}
use lp_monitor.Domain.{BlockAnchor}
use lp_monitor.Metrics.Types.{MinuteStatus}
use lp_monitor.Metrics.Windows.{
  MetricEvent, MinuteCoverage, distinct_from, distinct, is_before, before_birth,
}
use lp_monitor.Metrics.Windows.Build.{coverage_at, earliest_block, key_birth}
use lp_monitor.Metrics.Windows.Build.Dormant.{coverage_at-NotBefore, key-NotBefore, key_some}
use lp_monitor.Metrics.Rolling.{
  is_prefix, reason_if, minute_reasons, reasons_from, minutes_between, coverage_reasons,
  rolling_coverage, is_decided, window_reasons, status_of, window_status,
}

nil-append : (xs ys : List String) → xs ++ ys ≡ [] → (xs ≡ []) × (ys ≡ [])
nil-append [] ys e = (refl, e)
nil-append (x ∷ xs) ys e = cc

nil-distinct : (xs : List String) → distinct xs ≡ [] → xs ≡ []
unfolding distinct_from any
nil-distinct [] e = refl
nil-distinct (x ∷ xs) e = cc

nil-reason_if : (t : Bool) (reason : String) → reason_if t reason ≡ [] → t ≡ false
nil-reason_if true reason e = cc
nil-reason_if false reason e = refl

-- The minute has both of its blocks, is complete or the part up to the watermark, and the pool was
-- born by then.
abbrev pub CoveredMinute : ℕ → ℕ → Option ℕ → ℕ → MinuteCoverage → Type 0
CoveredMinute end watermark birth m c =
    (is_some c.from_block ≡ true)
    × (is_some c.to_block ≡ true)
    × ((c.complete || is_prefix m end watermark c) ≡ true)
    × (is_before c.from_block birth ≡ false)

minute-Covered :
    (m end watermark : ℕ) (birth : Option ℕ) (o : Option MinuteCoverage)
    → minute_reasons m end watermark birth o ≡ []
    → (c : MinuteCoverage) × (o ≡ some c) × CoveredMinute end watermark birth m c
minute-Covered m end watermark birth none e = cc
minute-Covered m end watermark birth (some c) e =
    elim (Bool-cases (is_some c.from_block && is_some c.to_block)) [
      | inr missing ↦ let clash : "coverage-missing" ∷ [] ≡ [] = rw missing at e in cc
      | inl blocks ↦
          let (gap, life) = nil-append _ _ (rw blocks at e) in
          let complete =
            nil-reason_if (not c.complete && not (is_prefix m end watermark c)) "coverage-gap"
              gap in
          (
            c,
            refl,
            (
              ground (arith, blocks),
              ground (arith, blocks),
              either c.complete (is_prefix m end watermark c) complete,
              nil-reason_if (is_before c.from_block birth) "pool-lifetime-incomplete" life,
            ),
          )
    ]
  where
    either : (a b : Bool) → (not a && not b) ≡ false → (a || b) ≡ true
    either true b h = refl
    either false true h = refl
    either false false h = cc

reasons-Covered :
    (coverage : List MinuteCoverage) (end watermark : ℕ) (birth : Option ℕ) (first count k : ℕ)
    → reasons_from coverage end watermark birth first count ≡ []
    → k < count
    → (c : MinuteCoverage) × (coverage_at (first + 60 * k) coverage ≡ some c)
      × CoveredMinute end watermark birth (first + 60 * k) c
unfolding reasons_from
reasons-Covered coverage end watermark birth first zero k e h = absurd (omega arith)
reasons-Covered coverage end watermark birth first (suc count) zero e h =
    let (here, later) =
      nil-append (minute_reasons first end watermark birth (coverage_at first coverage)) _ e in
    let same : first ≡ first + 60 * zero = omega arith in
    rw (← same) (minute-Covered first end watermark birth (coverage_at first coverage) here)
reasons-Covered coverage end watermark birth first (suc count) (suc k) e h =
    let (here, later) =
      nil-append (minute_reasons first end watermark birth (coverage_at first coverage)) _ e in
    let same : first + 60 + 60 * k ≡ first + 60 * suc k = omega arith in
    rw (← same)
      (reasons-Covered coverage end watermark birth (first + 60) count k later (omega arith))

born_by_key :
    (coverage : List MinuteCoverage) (m : ℕ) (c : MinuteCoverage) (birth key : Option ℕ)
    → key_birth birth (earliest_block none coverage) ≡ key
    → coverage_at m coverage ≡ some c
    → is_before c.from_block key ≡ false
    → is_before c.from_block birth ≡ false
born_by_key coverage m c birth none k at h =
    let all = key-NotBefore coverage birth (earliest_block none coverage) refl k in
    ap (λ o. before_birth o birth) (sym at) ∙ coverage_at-NotBefore m birth coverage all
born_by_key coverage m c birth (some b) k at h =
    ap (is_before c.from_block) (key_some birth (earliest_block none coverage) b k) ∙ h

closed-status_of :
    (start : ℤ) (reasons : List String)
    → status_of start reasons ≡ MinuteStatus.closed
    → reasons ≡ []
closed-status_of start [] h = refl
closed-status_of start (r ∷ rs) h =
    elim (Bool-cases (any (str_eq "pool-lifetime-incomplete") (r ∷ rs) || is_negative start)) [
      | inl young ↦ let clash : MinuteStatus.warming ≡ MinuteStatus.closed = rw young at h in cc
      | inr gap ↦ let clash : MinuteStatus.gap ≡ MinuteStatus.closed = rw gap at h in cc
    ]

-- A rolling window that is closed starts at 0 or later, leaves no event undecided, and every minute
-- that it overlaps has coverage: with both of its blocks, from the pool's birth on, and complete but
-- for the watermark's own minute.
pub closed_window_is_covered :
    (coverage : List MinuteCoverage) (watermark : BlockAnchor) (start : ℤ) (end : ℕ)
    (birth : Option ℕ) (events : List MetricEvent)
    → window_status coverage watermark start end birth events ≡ MinuteStatus.closed
    → (is_negative start ≡ false)
      × (any (λ e. not (is_some (is_decided watermark start end e))) events ≡ false)
      × ((m : ℕ)
          → m % 60 ≡ 0
          → pos_part start < m + 60
          → m ≤ end
          → (c : MinuteCoverage) × (coverage_at m coverage ≡ some c)
            × CoveredMinute end watermark.timestamp_sec birth m c)
unfolding window_status window_reasons rolling_coverage coverage_reasons
closed_window_is_covered coverage watermark start end birth events h =
    let key = key_birth birth (earliest_block none coverage) in
    let first = pos_part start / 60 * 60 in
    let empty = closed-status_of start _ h in
    let (known, decided) =
      nil-append (rolling_coverage coverage start end watermark.timestamp_sec birth) _ empty in
    let (started, minutes) =
      nil-append (reason_if (is_negative start) "warming") _ (nil-distinct _ known) in
    (
      nil-reason_if (is_negative start) "warming" started,
      nil-reason_if (any (λ e. not (is_some (is_decided watermark start end e))) events)
          "boundary-time-unknown" decided,
      λ m whole over up.
          let k = (m - first) / 60 in
          let at : first + 60 * k ≡ m = omega arith in
          let (c, found, (blocks, last, complete, born)) =
            reasons-Covered coverage end watermark.timestamp_sec key first
              (minutes_between first end) k minutes (omega arith) in
          let here : coverage_at m coverage ≡ some c = rw at at found in
          (
            c,
            here,
            (
              blocks,
              last,
              subst (λ n. (c.complete || is_prefix n end watermark.timestamp_sec c) ≡ true) at
                  complete,
              born_by_key coverage m c birth key refl here born,
            ),
          ),
    )

-- ===== src/Metrics/Rolling.antt =====
-- src/metrics/rolling.ts: which events a rolling window takes and whether it answers. The start of a
-- window may be before 0; the table `memo` of the coverage is left out.
pub mod Aligned
pub mod Covered
pub mod Window
use lp_monitor.Prelude.{
  ℕ, zero, suc, ◌+◌, ◌-◌, ◌*◌, ◌/◌, ◌==◌, ltb, leb, if◌then◌else◌, Bool, true, false, not, ◌&&◌,
  ◌||◌, Option, none, some, is_some, String, str_eq, List, [], ◌∷◌, ◌++◌, select, any, every, ℤ,
  pos, negsuc, pos_part, sub_ℕ, ltb_ℤ, leb_ℤ, is_negative,
}
use lp_monitor.Domain.{LogTime, BlockAnchor}
use lp_monitor.Metrics.Types.{MinuteStatus}
use lp_monitor.Metrics.Windows.{MetricEvent, MinuteCoverage, distinct, is_before}
use lp_monitor.Metrics.Windows.Build.{coverage_at, earliest_block, key_birth}

-- Before second 59 there is no complete minute and the end is -1.
unfoldable pub last_complete_minute_end : ℕ → ℤ
last_complete_minute_end timestamp_sec =
    if ltb timestamp_sec 59 then negsuc 0 else pos ((timestamp_sec - 59) / 60 * 60 + 59)

unfoldable pub live_window_end : ℕ → ℕ → ℕ
live_window_end watermark_sec available_from_sec =
    let aligned = last_complete_minute_end watermark_sec in
    if leb_ℤ (pos available_from_sec) aligned then pos_part aligned else watermark_sec

-- A minute may lie in the window, out of it, or across its edge.
abbrev pub minute_in_window : ℕ → ℤ → ℕ → Bool → Option Bool
minute_in_window m start end at_watermark =
    if leb_ℤ (pos (m + 59)) start || ltb end m
    then some false
    else if ltb_ℤ start (pos m) && (leb (m + 59) end || at_watermark)
    then some true
    else none

abbrev pub by_minute : Option ℕ → ℤ → ℕ → Bool → Option Bool
by_minute none start end at_watermark = none
by_minute (some m) start end at_watermark = minute_in_window m start end at_watermark

abbrev pub by_exact : Option ℕ → Option ℕ → ℤ → ℕ → Bool → Option Bool
by_exact (some exact) minute start end at_watermark =
    some (ltb_ℤ start (pos exact) && leb exact end)
by_exact none minute start end at_watermark = by_minute minute start end at_watermark

unfoldable pub in_rolling_window : LogTime → ℤ → ℕ → Bool → Option Bool
in_rolling_window time start end at_watermark =
    by_exact time.exact_timestamp_sec time.minute_start_sec start end at_watermark

-- The part of the watermark's own minute counts as covered.
abbrev pub is_prefix : ℕ → ℕ → ℕ → MinuteCoverage → Bool
is_prefix m end watermark c =
    (end == watermark) && (m == watermark / 60 * 60) && every (str_eq "watermark-partial") c.reasons

abbrev pub reason_if : Bool → String → List String
reason_if test reason = if test then reason ∷ [] else []

abbrev pub minute_reasons : ℕ → ℕ → ℕ → Option ℕ → Option MinuteCoverage → List String
minute_reasons m end watermark birth none = "coverage-missing" ∷ []
minute_reasons m end watermark birth (some c) =
    if not (is_some c.from_block && is_some c.to_block)
    then "coverage-missing" ∷ []
    else reason_if (not c.complete && not (is_prefix m end watermark c)) "coverage-gap"
      ++ reason_if (is_before c.from_block birth) "pool-lifetime-incomplete"

-- The loop over `count` minutes from `m`.
unfoldable pub reasons_from : List MinuteCoverage → ℕ → ℕ → Option ℕ → ℕ → ℕ → List String
reasons_from coverage end watermark birth m zero = []
reasons_from coverage end watermark birth m (suc count) =
    minute_reasons m end watermark birth (coverage_at m coverage)
    ++ reasons_from coverage end watermark birth (m + 60) count

abbrev pub minutes_between : ℕ → ℕ → ℕ
minutes_between first end = suc (end / 60) - first / 60

unfoldable pub coverage_reasons : List MinuteCoverage → ℤ → ℕ → ℕ → Option ℕ → List String
coverage_reasons coverage start end watermark birth =
    let first = pos_part start / 60 * 60 in
    distinct (
      reason_if (is_negative start) "warming"
      ++ reasons_from coverage end watermark birth first (minutes_between first end))

-- `reasons` of `prepareRollingCoverage`.
unfoldable pub rolling_coverage : List MinuteCoverage → ℤ → ℕ → ℕ → Option ℕ → List String
rolling_coverage coverage start end watermark birth =
    coverage_reasons coverage start end watermark (key_birth birth (earliest_block none coverage))

-- The loop of `window` over the events: those inside, and a reason for each that is undecided.
abbrev pub is_decided : BlockAnchor → ℤ → ℕ → MetricEvent → Option Bool
is_decided watermark start end e =
    if ltb watermark.number e.ref.block_number
    then some false
    else in_rolling_window e.time start end (end == watermark.timestamp_sec)

abbrev pub is_inside : Option Bool → Bool
is_inside none = false
is_inside (some inside) = inside

unfoldable pub selected_events : BlockAnchor → ℤ → ℕ → List MetricEvent → List MetricEvent
selected_events watermark start end events =
    select (λ e. is_inside (is_decided watermark start end e)) events

unfoldable pub window_reasons :
    List MinuteCoverage → BlockAnchor → ℤ → ℕ → Option ℕ → List MetricEvent → List String
window_reasons coverage watermark start end birth events =
    rolling_coverage coverage start end watermark.timestamp_sec birth
    ++ reason_if (any (λ e. not (is_some (is_decided watermark start end e))) events)
        "boundary-time-unknown"

abbrev pub status_of : ℤ → List String → MinuteStatus
status_of start [] = MinuteStatus.closed
status_of start (reason ∷ rest) =
    if any (str_eq "pool-lifetime-incomplete") (reason ∷ rest) || is_negative start
    then MinuteStatus.warming
    else MinuteStatus.gap

unfoldable pub window_status :
    List MinuteCoverage → BlockAnchor → ℤ → ℕ → Option ℕ → List MetricEvent → MinuteStatus
window_status coverage watermark start end birth events =
    status_of start (window_reasons coverage watermark start end birth events)

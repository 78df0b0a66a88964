-- ===== src/Signals/Baseline.antt =====
-- src/signals/baseline.ts: the baseline of one window from earlier windows like it.
use lp_monitor.Prelude.{
  ℕ, ◌+◌, ◌*◌, ◌==◌, ltb, leb, if◌then◌else◌, Bool, true, false, not, ◌&&◌, Option, none, some,
  is_some, String, List, [], ◌∷◌, map, select, take, any, sort, ℤ, pos, ◌*ℤ◌, leb_ℤ, is_negative,
  Outcome, ok, throw, ◌>>=◌,
}
use lp_monitor.Prelude.Text.{same_optional}
use lp_monitor.Metrics.Types.{MinuteStatus}
use lp_monitor.Metrics.Baseline.{BaselineResult, is_bad_minimum, volume_baseline}

pub record BaselineSample : Type 0 where
  pub start_sec : ℕ
  pub end_sec : ℕ
  pub status : MinuteStatus
  pub value : Option ℤ
  pub unit : Option String

pub data BaselineStatus : Type 0 where
  ready warming zero_baseline unpriced : BaselineStatus

pub record SignalBaseline : Type 0 where
  pub result : BaselineResult
  pub status : BaselineStatus
  pub unit : Option String

abbrev pub is_closed : MinuteStatus → Bool
is_closed MinuteStatus.closed = true
is_closed _ = false

-- `endSec - startSec` may be compared without a subtraction.
unfoldable pub is_comparable : BaselineSample → BaselineSample → Bool
is_comparable current s =
    is_closed s.status
    && leb s.end_sec current.start_sec
    && (s.end_sec + current.start_sec == current.end_sec + s.start_sec)
    && same_optional s.unit current.unit
    && is_some s.value

-- The filter over `seen`: of the windows with one start the first stays.
unfoldable pub dedupe : List ℕ → List BaselineSample → List BaselineSample
dedupe seen [] = []
dedupe seen (s ∷ rest) = elim (any (λ start. start == s.start_sec) seen) [
  | true ↦ dedupe seen rest
  | false ↦ s ∷ dedupe (s.start_sec ∷ seen) rest
]

-- The newest `count` windows before the current one that are like it, newest first.
unfoldable pub prior_samples : BaselineSample → List BaselineSample → ℕ → List BaselineSample
unfolding is_comparable dedupe
prior_samples current history count =
    take count (
      dedupe []
        (sort (λ a b. ltb b.start_sec a.start_sec) (select (is_comparable current) history)))

abbrev pub is_zero_median : Option ℕ → Bool
is_zero_median none = false
is_zero_median (some n) = n == 0

unfoldable pub baseline_status : BaselineSample → BaselineResult → ℕ → BaselineStatus
baseline_status current result count =
    if not (is_some current.value && is_some current.unit)
    then unpriced
    else if ltb result.sample_count count
    then warming
    else if is_zero_median result.median_numerator
    then zero_baseline
    else ready

abbrev pub is_ready : BaselineStatus → Bool
is_ready ready = true
is_ready _ = false

abbrev is_negative_value : Option ℤ → Bool
is_negative_value none = false
is_negative_value (some v) = is_negative v

unfoldable pub signal_baseline : BaselineSample → List BaselineSample → ℕ → Outcome SignalBaseline
unfolding prior_samples baseline_status
signal_baseline current history count =
    if is_bad_minimum count
    then throw "Invalid baseline count"
    else if is_negative_value current.value
    then throw "Negative volume"
    else do
      result ←
          volume_baseline current.value
            (map (λ (s : BaselineSample). s.value) (prior_samples current history count)) count
      let status = baseline_status current result count
      ok (record {
        result = record result { multiplier = if is_ready status then result.multiplier else none };
        status = status;
        unit = current.unit;
      })

-- `value * denominator >= numerator * multiple`.
unfoldable pub meets_multiple : Option ℤ → SignalBaseline → ℕ → Bool
meets_multiple none b multiple = false
meets_multiple (some value) b multiple = elim b.result.median_denominator [
  | none ↦ false
  | some denominator ↦ elim b.result.median_numerator [
    | none ↦ false
    | some numerator ↦
        is_ready b.status && leb_ℤ (pos (numerator * multiple)) (value *ℤ pos denominator)
  ]
]

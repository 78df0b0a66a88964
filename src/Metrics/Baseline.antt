-- ===== src/Metrics/Baseline.antt =====
-- src/metrics/baseline.ts, first half: the median of earlier volumes and the multiple of it.
pub mod Rolling
pub mod Sorted
pub mod Window
pub mod Prefix
pub mod Median
use lp_monitor.Prelude.{
  ℕ, suc, ◌+◌, ◌*◌, ◌-◌, ◌/◌, ◌%◌, ◌^◌, ◌==◌, ltb, leb, if◌then◌else◌, Option, none, some, Bool,
  ◌&&◌, List, [], ◌∷◌, filter_map, length, get_or, any, sort, ℤ, pos, ltb_ℤ, is_negative, magnitude,
  Outcome, ok, throw, ◌>>=◌,
}

-- `Number.isSafeInteger` of a number that is not negative.
abbrev pub is_safe_integer : ℕ → Bool
is_safe_integer n = leb n 9007199254740991

-- `Number(x)` of a bigint is finite below the midpoint above the largest double.
unfoldable pub is_finite : ℕ → Bool
is_finite x = ltb x (2 ^ 1024 - 2 ^ 970)

pub record Ratio : Type 0 where
  pub numerator : ℕ
  pub denominator : ℕ

-- `multiplier` is in millionths: the number before the division by 1_000_000.
pub record BaselineResult : Type 0 where
  pub sample_count : ℕ
  pub median : Option ℕ
  pub median_numerator : Option ℕ
  pub median_denominator : Option ℕ
  pub multiplier : Option ℕ

-- The middle of a sorted list that holds no negative value.
unfoldable pub middle_ratio : List ℤ → Ratio
middle_ratio sorted =
    let middle = length sorted / 2 in
    if length sorted % 2 == 1
    then record { numerator = magnitude (get_or sorted middle (pos 0)); denominator = 1 }
    else record {
      numerator =
          magnitude (get_or sorted (middle - 1) (pos 0)) + magnitude (get_or sorted middle (pos 0));
      denominator = 2;
    }

unfoldable pub median_ratio : List ℤ → Outcome (Option Ratio)
unfolding middle_ratio
median_ratio [] = ok none
median_ratio (v ∷ vs) =
    if any is_negative (v ∷ vs)
    then throw "Negative volume"
    else ok (some (middle_ratio (sort ltb_ℤ (v ∷ vs))))

abbrev pub whole_median : Option Ratio → Option ℕ
whole_median none = none
whole_median (some r) =
    if r.numerator % r.denominator == 0 then some (r.numerator / r.denominator) else none

unfoldable pub median_big_int : List ℤ → Outcome (Option ℕ)
unfolding median_ratio
median_big_int values = do ratio ← median_ratio values; ok (whole_median ratio)

-- The multiple of a positive median, if it is a finite number.
unfoldable pub multiplier_of : ℤ → Ratio → Outcome (Option ℕ)
unfolding is_finite
multiplier_of current r =
    if is_negative current
    then throw "Negative volume"
    else let value = magnitude current * r.denominator * 1000000 / r.numerator in
      ok (if is_finite value then some value else none)

abbrev pub is_zero_ratio : Ratio → Bool
is_zero_ratio r = r.numerator == 0

-- The early return without a multiple, and the multiple behind it.
unfoldable pub multiplier_or_null : Option ℤ → ℕ → ℕ → Option Ratio → Outcome (Option ℕ)
unfolding multiplier_of
multiplier_or_null none count minimum ratio = ok none
multiplier_or_null (some current) count minimum none = ok none
multiplier_or_null (some current) count minimum (some r) =
    if ltb count minimum
    then ok none
    else if is_zero_ratio r
    then ok none
    else multiplier_of current r

abbrev pub numerator_of : Option Ratio → Option ℕ
numerator_of none = none
numerator_of (some r) = some r.numerator

abbrev pub denominator_of : Option Ratio → Option ℕ
denominator_of none = none
denominator_of (some r) = some r.denominator

abbrev pub is_bad_minimum : ℕ → Bool
is_bad_minimum n = if is_safe_integer n then ltb n 1 else Bool.true

unfoldable pub volume_baseline : Option ℤ → List (Option ℤ) → ℕ → Outcome BaselineResult
unfolding median_ratio median_big_int multiplier_or_null
volume_baseline current preceding minimum =
    if is_bad_minimum minimum then throw "Invalid sample minimum" else do
      let samples = filter_map (λ v. v) preceding
      ratio ← median_ratio samples
      median ← median_big_int samples
      multiplier ← multiplier_or_null current (length samples) minimum ratio
      ok (record {
        sample_count = length samples;
        median = median;
        median_numerator = numerator_of ratio;
        median_denominator = denominator_of ratio;
        multiplier = multiplier;
      })

-- ===== src/Metrics/Baseline/Rolling.antt =====
-- src/metrics/baseline.ts, second half: baselines of a stream of points over a bounded history
-- that is kept sorted.
use lp_monitor.Prelude.{
  ℕ, zero, suc, ◌+◌, ◌/◌, ◌==◌, ltb, if◌then◌else◌, Bool, false, not, ◌&&◌, Option, none, some,
  String, List, [], ◌∷◌, ◌++◌, length, get_or, take, drop, ℤ, pos, ltb_ℤ, eqb_ℤ, is_negative,
  Outcome, ok, throw, ◌>>=◌,
}
use lp_monitor.Prelude.Dict.{Dict, lookup, insert}
use lp_monitor.Metrics.Baseline.{
  BaselineResult, Ratio, is_safe_integer, is_bad_minimum, middle_ratio, whole_median, numerator_of,
  denominator_of, multiplier_or_null,
}

pub record HistoryItem : Type 0 where
  pub unit : String
  pub value : Option ℤ

-- `history` is `none` where the source leaves the field out.
pub record RollingBaselinePoint : Type 0 where
  pub eligible : Bool
  pub unit : Option String
  pub current : Option ℤ
  pub history : Option (List HistoryItem)

pub record RollingHistory : Type 0 where
  pub queue : List (Option ℤ)
  pub sorted : List ℤ

abbrev pub no_history : RollingHistory
no_history = record { queue = []; sorted = [] }

abbrev pub ratio_of : List ℤ → Option Ratio
ratio_of [] = none
ratio_of (x ∷ xs) = some (middle_ratio (x ∷ xs))

abbrev pub starts_negative : List ℤ → Bool
starts_negative [] = false
starts_negative (x ∷ xs) = is_negative x

unfoldable pub baseline_from_sorted : Option ℤ → List ℤ → ℕ → Outcome BaselineResult
unfolding multiplier_or_null middle_ratio
baseline_from_sorted current sorted minimum =
    if is_bad_minimum minimum
    then throw "Invalid sample minimum"
    else if starts_negative sorted
    then throw "Negative volume"
    else do
      let ratio = ratio_of sorted
      multiplier ← multiplier_or_null current (length sorted) minimum ratio
      ok (record {
        sample_count = length sorted;
        median = whole_median ratio;
        median_numerator = numerator_of ratio;
        median_denominator = denominator_of ratio;
        multiplier = multiplier;
      })

-- The `while (low < high)` of `sortedInsert`. The fuel bounds the rounds: more than `high - low`.
unfoldable pub lower_bound : ℕ → List ℤ → ℤ → ℕ → ℕ → ℕ
lower_bound zero values value low high = low
lower_bound (suc fuel) values value low high =
    let middle = (low + high) / 2 in
    let right = lower_bound fuel values value (middle + 1) high in
    let left = lower_bound fuel values value low middle in
    if ltb low high then if ltb_ℤ (get_or values middle (pos 0)) value then right else left else low

-- `values.splice(low, 0, value)` at the place that the search finds.
unfoldable pub sorted_insert : List ℤ → ℤ → List ℤ
unfolding lower_bound
sorted_insert values value =
    let low = lower_bound (suc (length values)) values value 0 (length values) in
    take low values ++ value ∷ drop low values

-- `values.splice(values.indexOf(value), 1)` of a value that is there.
unfoldable pub remove_first : ℤ → List ℤ → List ℤ
remove_first value [] = []
remove_first value (x ∷ xs) =
    let rest = remove_first value xs in if eqb_ℤ x value then xs else x ∷ rest

-- `history.queue.shift()`, and what it leaves in `sorted`.
unfoldable pub shift : List (Option ℤ) → List ℤ → RollingHistory
unfolding remove_first
shift [] sorted = record { queue = []; sorted = sorted }
shift (none ∷ rest) sorted = record { queue = rest; sorted = sorted }
shift (some removed ∷ rest) sorted = record { queue = rest; sorted = remove_first removed sorted }

unfoldable pub push : Option ℤ → RollingHistory → RollingHistory
unfolding sorted_insert
push none h = record { queue = h.queue ++ none ∷ []; sorted = h.sorted }
push (some v) h = record { queue = h.queue ++ some v ∷ []; sorted = sorted_insert h.sorted v }

-- A value enters a history, which a positive limit keeps from growing past it.
unfoldable pub remember : ℕ → Option ℤ → RollingHistory → RollingHistory
unfolding shift push
remember limit v h =
    push v (if ltb 0 limit && (length h.queue == limit) then shift h.queue h.sorted else h)

unfoldable pub history_of : String → Dict RollingHistory → RollingHistory
unfolding lookup
history_of unit m = elim (lookup unit m) [ none ↦ no_history | some h ↦ h ]

-- The `for` loop of `next`.
unfoldable pub remember_all : ℕ → List HistoryItem → Dict RollingHistory → Dict RollingHistory
unfolding insert remember history_of
remember_all limit [] m = m
remember_all limit (item ∷ items) m =
    remember_all limit items
      (insert item.unit (remember limit item.value (history_of item.unit m)) m)

pub record RollingVolumeBaseline : Type 0 where
  pub minimum_samples : ℕ
  pub limit : ℕ
  pub histories : Dict RollingHistory

-- The constructor.
unfoldable pub create : ℕ → ℕ → Outcome RollingVolumeBaseline
create minimum limit =
    if is_safe_integer limit
    then ok (record { minimum_samples = minimum; limit = limit; histories = [] })
    else throw "Invalid baseline limit"

-- `point.unit === null ? undefined : histories.get(point.unit)`, and its sorted values.
abbrev pub prior_sorted : Option String → Dict RollingHistory → List ℤ
unfolding history_of
prior_sorted none m = []
prior_sorted (some unit) m = (history_of unit m).sorted

-- `point.history ?? (point.unit === null ? [] : [{ unit, value: current }])`.
abbrev pub new_items : RollingBaselinePoint → List HistoryItem
new_items p = elim p.history [
  | some items ↦ items
  | none ↦ elim p.unit [ none ↦ [] | some unit ↦ record { unit = unit; value = p.current } ∷ [] ]
]

unfoldable pub next :
    RollingVolumeBaseline
    → RollingBaselinePoint
    → Outcome (Option BaselineResult × RollingVolumeBaseline)
unfolding baseline_from_sorted remember_all history_of
next r point = if not point.eligible then ok (none, r) else do
  result ←
      baseline_from_sorted point.current (prior_sorted point.unit r.histories) r.minimum_samples
  ok (some result, record r { histories = remember_all r.limit (new_items point) r.histories })

unfoldable pub run :
    RollingVolumeBaseline → List RollingBaselinePoint → Outcome (List (Option BaselineResult))
unfolding next
run r [] = ok []
run r (point ∷ points) = do
  (result, r') ← next r point
  results ← run r' points
  ok (result ∷ results)

unfoldable pub rolling_volume_baselines :
    List RollingBaselinePoint → ℕ → ℕ → Outcome (List (Option BaselineResult))
unfolding create run
rolling_volume_baselines points minimum limit = do
  rolling ← create minimum limit
  run rolling points

-- ===== src/Metrics/Baseline/Prefix.antt =====
-- About `RollingVolumeBaseline` of src/metrics/baseline.ts and the complete eligible prefix.
use lp_monitor.Prelude.{
  ℕ, zero, suc, ◌-◌, ◌==◌, if◌then◌else◌, ◌≡◌, refl, ap, inl, inr, true, not, Bool-cases, Option,
  none, some, String, str_eq, eq_iff, List, [], ◌∷◌, ◌++◌, drop, filter_map, ℤ, ltb_ℤ, sort,
  Outcome, ok, throw, ◌>>=◌, arith,
}
use lp_monitor.Prelude.Dict.{Dict, insert, lookup-insert}
use lp_monitor.Metrics.Baseline.{BaselineResult, is_safe_integer, volume_baseline}
use lp_monitor.Metrics.Baseline.Rolling.{
  HistoryItem, RollingBaselinePoint, RollingHistory, RollingVolumeBaseline, new_items, prior_sorted,
  remember, history_of, remember_all, create, next, run, rolling_volume_baselines,
}
use lp_monitor.Metrics.Baseline.Median.{baseline_from_sorted-sort}
use lp_monitor.Metrics.Baseline.Window.{slice_last, samples, sorted_queue, remember-sorted_queue}
use mathlib.Core.List.{append_assoc, append-nil}

-- The values of one unit among the items, in order.
unfoldable pub values_of : String → List HistoryItem → List (Option ℤ)
values_of unit [] = []
values_of unit (item ∷ items) =
    let rest = values_of unit items in if str_eq item.unit unit then item.value ∷ rest else rest

unfoldable pub values_for : Option String → List HistoryItem → List (Option ℤ)
unfolding values_of
values_for none items = []
values_for (some unit) items = values_of unit items

-- The reference: every eligible point meets the last `limit` values of its unit among all the
-- items of the eligible points before it.
unfoldable pub prefix_baselines :
    ℕ → ℕ → List HistoryItem → List RollingBaselinePoint → Outcome (List (Option BaselineResult))
unfolding values_for
prefix_baselines minimum limit seen [] = ok []
prefix_baselines minimum limit seen (point ∷ points) =
    if not point.eligible
    then (do results ← prefix_baselines minimum limit seen points; ok (none ∷ results))
    else do
      result ← volume_baseline point.current (slice_last limit (values_for point.unit seen)) minimum
      results ← prefix_baselines minimum limit (seen ++ new_items point) points
      ok (some result ∷ results)

module _ (limit : ℕ) where
  -- Every unit's history is the sorted last values of that unit.
  abbrev Tracks : List HistoryItem → Dict RollingHistory → Type 0
  Tracks seen m =
      (unit : String) → history_of unit m ≡ sorted_queue (slice_last limit (values_of unit seen))

  Tracks-nil : Tracks [] []
  unfolding history_of values_of sorted_queue samples filter_map sort
  Tracks-nil unit = elim (Bool-cases (limit == 0)) [
    | inl whole ↦ rw whole refl
    | inr part ↦ rw part (nothing_left (0 - limit))
  ]
    where
      nothing_left : (n : ℕ) → history_of unit [] ≡ sorted_queue (drop n [])
      nothing_left zero = refl
      nothing_left (suc n) = refl

  values_of-append_one :
      (unit : String) (seen : List HistoryItem) (item : HistoryItem)
      → values_of unit (seen ++ item ∷ []) ≡ (
          if str_eq item.unit unit
          then values_of unit seen ++ item.value ∷ []
          else values_of unit seen)
  unfolding values_of
  values_of-append_one unit [] item = refl
  values_of-append_one unit (other ∷ seen) item =
      ground (arith, values_of-append_one unit seen item)

  history_of-insert :
      (k j : String) (h : RollingHistory) (m : Dict RollingHistory)
      → history_of j (insert k h m) ≡ (if str_eq k j then h else history_of j m)
  unfolding history_of
  history_of-insert k j h m = ground (arith, lookup-insert k j h m)

  remember-Tracks :
      (seen : List HistoryItem) (item : HistoryItem) (m : Dict RollingHistory)
      → Tracks seen m
      → Tracks
          (seen ++ item ∷ [])
          (insert item.unit (remember limit item.value (history_of item.unit m)) m)
  remember-Tracks seen item m t unit = elim (Bool-cases (str_eq item.unit unit)) [
    | inl same ↦
        rw
          (
            history_of-insert,
            values_of-append_one unit seen item,
            same,
            t item.unit,
            (eq_iff item.unit unit).0 same,
          )
          (remember-sorted_queue limit (values_of unit seen) item.value)
    | inr other ↦ rw (history_of-insert, values_of-append_one unit seen item, other) (t unit)
  ]

  remember_all-Tracks :
      (seen items : List HistoryItem) (m : Dict RollingHistory)
      → Tracks seen m
      → Tracks (seen ++ items) (remember_all limit items m)
  unfolding remember_all
  remember_all-Tracks seen [] m t = rw append-nil t
  remember_all-Tracks seen (item ∷ items) m t =
      rw (← append_assoc seen (item ∷ []) items)
        (remember_all-Tracks (seen ++ item ∷ []) items _ (remember-Tracks seen item m t))

  prior-sorted_queue :
      (unit : Option String) (seen : List HistoryItem) (m : Dict RollingHistory)
      → Tracks seen m
      → prior_sorted unit m ≡ sort ltb_ℤ (samples (slice_last limit (values_for unit seen)))
  unfolding values_for history_of sorted_queue samples
  prior-sorted_queue none seen m t = ap (λ (h : RollingHistory). h.sorted) (Tracks-nil "")
  prior-sorted_queue (some unit) seen m t = ap (λ (h : RollingHistory). h.sorted) (t unit)

  abbrev prepend :
      Option BaselineResult
      → Outcome (List (Option BaselineResult))
      → Outcome (List (Option BaselineResult))
  prepend result rest = rest >>= λ results. ok (result ∷ results)

  next-run :
      (result : Outcome BaselineResult) (r : RollingVolumeBaseline)
      (points : List RollingBaselinePoint) (rest : Outcome (List (Option BaselineResult)))
      → run r points ≡ rest
      → ((result >>= λ value. ok (some value, r))
          >>= λ (x : Option BaselineResult × RollingVolumeBaseline). prepend x.0 (run x.1 points))
        ≡ (result >>= λ value. prepend (some value) rest)
  next-run (ok value) r points rest e = ap (prepend (some value)) e
  next-run (throw message) r points rest e = refl

  run-eq-prefix_baselines :
      (minimum : ℕ) (seen : List HistoryItem) (m : Dict RollingHistory)
      (points : List RollingBaselinePoint)
      → Tracks seen m
      → run (record { minimum_samples = minimum; limit = limit; histories = m }) points
        ≡ prefix_baselines minimum limit seen points
  unfolding run next prefix_baselines samples
  run-eq-prefix_baselines minimum seen m [] t = refl
  run-eq-prefix_baselines minimum seen m (point ∷ points) t = elim (Bool-cases point.eligible) [
    | inr skipped ↦ rw (skipped, run-eq-prefix_baselines minimum seen m points t) refl
    | inl counted ↦
        rw
          (
            counted,
            prior-sorted_queue point.unit seen m t,
            baseline_from_sorted-sort point.current (slice_last limit (values_for point.unit seen))
                minimum,
          )
          (next-run _ _ points _ (
            run-eq-prefix_baselines minimum (seen ++ new_items point) _ points
              (remember_all-Tracks seen (new_items point) m t)))
  ]

-- For every list of points, minimum and safe limit, the rolling baselines are those of the
-- reference, which for each eligible point takes the last `limit` values (all of them for 0) of the
-- point's unit among the items of all earlier eligible points; where one throws, the other throws
-- the same error.
pub rolling_volume_baselines-eq-prefix_baselines :
    (points : List RollingBaselinePoint) (minimum limit : ℕ)
    → is_safe_integer limit ≡ true
    → rolling_volume_baselines points minimum limit ≡ prefix_baselines minimum limit [] points
unfolding rolling_volume_baselines create
rolling_volume_baselines-eq-prefix_baselines points minimum limit safe =
    rw safe (run-eq-prefix_baselines limit minimum [] [] points (Tracks-nil limit))

-- ===== src/Metrics/Baseline/Median.antt =====
-- One baseline (src/metrics/baseline.ts): from values in any order and from values that are sorted.
use lp_monitor.Prelude.{
  ℕ, if◌then◌else◌, ◌≡◌, refl, ap, ◌∙◌, inl, inr, false, ◌||◌, Bool-cases, Option, some, List, [],
  ◌∷◌, filter_map, any, All, ℤ, ltb_ℤ, is_negative, insert_sorted, sort, IsSorted, length-sort,
  sort-IsSorted, ok, throw, arith,
}
use lp_monitor.Metrics.Baseline.{
  middle_ratio, median_ratio, median_big_int, volume_baseline, is_bad_minimum,
}
use lp_monitor.Metrics.Baseline.Rolling.{ratio_of, starts_negative, baseline_from_sorted}
use lp_monitor.Metrics.Baseline.Sorted.{ltb_ℤ-IsOrder}

any-insert_sorted :
    (x : ℤ) (xs : List ℤ)
    → any is_negative (insert_sorted ltb_ℤ x xs) ≡ (is_negative x || any is_negative xs)
unfolding any insert_sorted
any-insert_sorted x [] = refl
any-insert_sorted x (y ∷ ys) = ground (arith, any-insert_sorted x ys)

any-sort : (xs : List ℤ) → any is_negative (sort ltb_ℤ xs) ≡ any is_negative xs
unfolding any sort
any-sort [] = refl
any-sort (x ∷ xs) = any-insert_sorted x (sort ltb_ℤ xs) ∙ ap (λ b. is_negative x || b) (any-sort xs)

none_negative :
    (x : ℤ) (xs : List ℤ)
    → is_negative x ≡ false
    → All (λ y. ltb_ℤ y x ≡ false) xs
    → any is_negative xs ≡ false
unfolding any
none_negative x [] h a = refl
none_negative x (y ∷ ys) h a = ground (arith, none_negative x ys h a.1)

-- The least of the sorted values decides whether one is negative.
starts_negative-eq-any : (xs : List ℤ) → IsSorted ltb_ℤ xs → starts_negative xs ≡ any is_negative xs
unfolding any
starts_negative-eq-any [] s = refl
starts_negative-eq-any (x ∷ xs) s = elim (Bool-cases (is_negative x)) [
  | inl h ↦ rw h refl
  | inr h ↦ rw (h, none_negative x xs h s.0) refl
]

ratio_of-insert_sorted :
    (x : ℤ) (xs : List ℤ)
    → ratio_of (insert_sorted ltb_ℤ x xs) ≡ some (middle_ratio (insert_sorted ltb_ℤ x xs))
unfolding insert_sorted
ratio_of-insert_sorted x [] = refl
ratio_of-insert_sorted x (y ∷ ys) = elim (Bool-cases (ltb_ℤ y x)) [
  | inl h ↦ rw h refl
  | inr h ↦ rw h refl
]

median_ratio-sort :
    (xs : List ℤ)
    → median_ratio xs ≡ (
        if starts_negative (sort ltb_ℤ xs)
        then throw "Negative volume"
        else ok (ratio_of (sort ltb_ℤ xs)))
unfolding median_ratio sort
median_ratio-sort [] = refl
median_ratio-sort (x ∷ xs) =
    rw
      (
        starts_negative-eq-any (sort ltb_ℤ (x ∷ xs)) (sort-IsSorted ltb_ℤ ltb_ℤ-IsOrder (x ∷ xs)),
        any-sort (x ∷ xs),
        ratio_of-insert_sorted x (sort ltb_ℤ xs),
      )
      refl

-- The baseline of the sorted values is the baseline of the values, its errors included.
pub baseline_from_sorted-sort :
    (current : Option ℤ) (preceding : List (Option ℤ)) (minimum : ℕ)
    → baseline_from_sorted current (sort ltb_ℤ (filter_map (λ v. v) preceding)) minimum
      ≡ volume_baseline current preceding minimum
unfolding baseline_from_sorted volume_baseline median_big_int
baseline_from_sorted-sort current preceding minimum =
    let xs = filter_map (λ (v : Option ℤ). v) preceding in
    rw (median_ratio-sort xs, length-sort ltb_ℤ xs)
      (elim (Bool-cases (is_bad_minimum minimum)) [
        | inl bad ↦ rw bad refl
        | inr good ↦ rw good (elim (Bool-cases (starts_negative (sort ltb_ℤ xs))) [
          | inl h ↦ rw h refl
          | inr h ↦ rw h refl
        ])
      ])

-- ===== src/Metrics/Baseline/Sorted.antt =====
-- About the sorted values of a rolling history of src/metrics/baseline.ts.
use lp_monitor.Prelude.{
  ℕ, zero, suc, ◌+◌, ◌-◌, ◌/◌, ◌≤◌, ◌<◌, ltb, ◌≡◌, refl, ap, ◌∙◌, inl, inr, true, false, Bool-cases,
  List, [], ◌∷◌, ◌++◌, length, get_or, take, drop, All, ℤ, pos, ltb_ℤ, insert_sorted, sort,
  IsSorted, IsOrder, arith,
}
use lp_monitor.Metrics.Baseline.Rolling.{lower_bound, sorted_insert, remove_first}

pub ltb_ℤ-IsOrder : IsOrder ltb_ℤ
ltb_ℤ-IsOrder = record { asymm = λ x y h. ground arith; trans = λ x y z h k. ground arith }

-- The first `low` values are below `value`, the values from `high` on are not.
abbrev IsBelow : List ℤ → ℤ → ℕ → Type 0
IsBelow values value low = (i : ℕ) → i < low → ltb_ℤ (get_or values i (pos 0)) value ≡ true

abbrev IsAbove : List ℤ → ℤ → ℕ → Type 0
IsAbove values value high =
    (i : ℕ) → high ≤ i → i < length values → ltb_ℤ (get_or values i (pos 0)) value ≡ false

-- Splicing at such a place is inserting in order.
splice-insert_sorted :
    (values : List ℤ) (value : ℤ) (low : ℕ)
    → low ≤ length values
    → IsBelow values value low
    → IsAbove values value low
    → take low values ++ value ∷ drop low values ≡ insert_sorted ltb_ℤ value values
unfolding insert_sorted
splice-insert_sorted [] value zero h below above = refl
splice-insert_sorted [] value (suc low) h below above = absurd (omega arith)
splice-insert_sorted (x ∷ xs) value zero h below above =
    rw (above 0 (omega arith) (omega arith)) refl
splice-insert_sorted (x ∷ xs) value (suc low) h below above = rw (below 0 (omega arith)) (
    ap (λ t. x ∷ t)
      (splice-insert_sorted xs value low (omega arith) (λ i p. below (suc i) (omega arith))
        (λ i p q. above (suc i) (omega arith) (omega arith))))

get_or_mono :
    (xs : List ℤ) (i j : ℕ)
    → IsSorted ltb_ℤ xs
    → i ≤ j
    → j < length xs
    → ltb_ℤ (get_or xs j (pos 0)) (get_or xs i (pos 0)) ≡ false
get_or_mono [] i j s p q = absurd (omega arith)
get_or_mono (x ∷ xs) zero zero s p q = ground arith
get_or_mono (x ∷ xs) zero (suc j) s p q = All-get_or xs j s.0 (omega arith)
  where
    All-get_or :
        (ys : List ℤ) (k : ℕ)
        → All (λ y. ltb_ℤ y x ≡ false) ys
        → k < length ys
        → ltb_ℤ (get_or ys k (pos 0)) x ≡ false
    All-get_or [] k a h = absurd (omega arith)
    All-get_or (y ∷ ys) zero a h = a.0
    All-get_or (y ∷ ys) (suc k) a h = All-get_or ys k a.1 (omega arith)
get_or_mono (x ∷ xs) (suc i) zero s p q = absurd (omega arith)
get_or_mono (x ∷ xs) (suc i) (suc j) s p q = get_or_mono xs i j s.1 (omega arith) (omega arith)

-- With enough fuel the search ends where the values stop to be below `value`.
lower_bound_lem :
    (fuel : ℕ) (values : List ℤ) (value : ℤ) (low high : ℕ)
    → IsSorted ltb_ℤ values
    → high - low < fuel
    → low ≤ high
    → high ≤ length values
    → IsBelow values value low
    → IsAbove values value high
    → (lower_bound fuel values value low high ≤ length values)
      × IsBelow values value (lower_bound fuel values value low high)
      × IsAbove values value (lower_bound fuel values value low high)
unfolding lower_bound
lower_bound_lem zero values value low high s f o len below above = absurd (omega arith)
lower_bound_lem (suc fuel) values value low high s f o len below above =
    elim (Bool-cases (ltb low high)) [
      | inr done ↦ rw done (omega arith, below, λ i p q. above i (ground arith) q)
      | inl more ↦
          rw more (elim (Bool-cases (ltb_ℤ (get_or values ((low + high) / 2) (pos 0)) value)) [
            | inl right ↦ rw right (
                lower_bound_lem fuel values value ((low + high) / 2 + 1) high s (ground arith)
                  (ground arith) len
                  (λ i p.
                    ground (
                      arith,
                      get_or_mono values i ((low + high) / 2) s (omega arith) (ground arith),
                    ))
                  above)
            | inr left ↦ rw left (
                lower_bound_lem fuel values value low ((low + high) / 2) s (ground arith)
                  (ground arith) (ground arith) below
                  (λ i p q. ground (arith, get_or_mono values ((low + high) / 2) i s p q)))
          ])
    ]

-- In a sorted list the binary search splices a value in where a linear insertion does, before the
-- first element that is not smaller.
pub sorted_insert-eq-insert_sorted :
    (values : List ℤ) (value : ℤ)
    → IsSorted ltb_ℤ values
    → sorted_insert values value ≡ insert_sorted ltb_ℤ value values
unfolding sorted_insert
sorted_insert-eq-insert_sorted values value s =
    let (fits, below, above) =
      lower_bound_lem (suc (length values)) values value 0 (length values) s (omega arith)
        (omega arith) (omega arith) (λ i p. absurd (omega arith)) (λ i p q. absurd (omega arith)) in
    splice-insert_sorted values value _ fits below above

pub remove_first-insert_sorted :
    (value : ℤ) (xs : List ℤ) → remove_first value (insert_sorted ltb_ℤ value xs) ≡ xs
unfolding remove_first insert_sorted
remove_first-insert_sorted value [] = ground arith
remove_first-insert_sorted value (x ∷ xs) = ground (arith, remove_first-insert_sorted value xs)

insert_sorted_comm :
    (a b : ℤ) (xs : List ℤ)
    → insert_sorted ltb_ℤ a (insert_sorted ltb_ℤ b xs)
      ≡ insert_sorted ltb_ℤ b (insert_sorted ltb_ℤ a xs)
unfolding insert_sorted
insert_sorted_comm a b [] = ground arith
insert_sorted_comm a b (x ∷ xs) = ground (arith, insert_sorted_comm a b xs)

-- A value that is appended before the sort can be inserted behind it.
pub sort-append_one :
    (xs : List ℤ) (a : ℤ) → sort ltb_ℤ (xs ++ a ∷ []) ≡ insert_sorted ltb_ℤ a (sort ltb_ℤ xs)
unfolding sort
sort-append_one [] a = refl
sort-append_one (x ∷ xs) a =
    ap (insert_sorted ltb_ℤ x) (sort-append_one xs a) ∙ insert_sorted_comm x a (sort ltb_ℤ xs)

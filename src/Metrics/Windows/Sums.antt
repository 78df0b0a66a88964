-- ===== src/Metrics/Windows/Sums.antt =====
-- About the sums and counts of src/metrics/windows.ts over events that are put together.
use lp_monitor.Prelude.{
  ◌+◌, ◌≡◌, refl, sym, ◌∙◌, ap, inl, inr, Bool, ◌&&◌, Bool-cases, Option, none, some, is_some, List,
  [], ◌∷◌, ◌++◌, map, length, length-append, select, every, ℤ, pos, ◌+ℤ◌, +ℤ_parts, eq_of_parts,
  arith,
}
use lp_monitor.Metrics.Windows.{MetricEvent, total, sum_valued, is_swap, usd_of, swap_count_of}

pub +ℤ_assoc : (a b c : ℤ) → (a +ℤ b) +ℤ c ≡ a +ℤ (b +ℤ c)
+ℤ_assoc a b c =
    eq_of_parts ((a +ℤ b) +ℤ c) (a +ℤ (b +ℤ c))
      (omega (arith, +ℤ_parts a b, +ℤ_parts b c, +ℤ_parts (a +ℤ b) c, +ℤ_parts a (b +ℤ c)))

pub +ℤ_zero : (a : ℤ) → a +ℤ pos 0 ≡ a
+ℤ_zero a = eq_of_parts (a +ℤ pos 0) a (omega (arith, +ℤ_parts a (pos 0)))

zero_+ℤ : (a : ℤ) → pos 0 +ℤ a ≡ a
zero_+ℤ a = eq_of_parts (pos 0 +ℤ a) a (omega (arith, +ℤ_parts (pos 0) a))

total_from : (a : ℤ) (xs : List (Option ℤ)) → total a xs ≡ a +ℤ total (pos 0) xs
unfolding total
total_from a [] = sym (+ℤ_zero a)
total_from a (none ∷ xs) = total_from a xs
total_from a (some v ∷ xs) =
    total_from (a +ℤ v) xs
    ∙ +ℤ_assoc a v (total (pos 0) xs)
    ∙ ap (λ t. a +ℤ t) (sym (ap (λ b. total b xs) (zero_+ℤ v) ∙ total_from v xs))

total-append : (a : ℤ) (xs ys : List (Option ℤ)) → total a (xs ++ ys) ≡ total (total a xs) ys
unfolding total
total-append a [] ys = refl
total-append a (none ∷ xs) ys = total-append a xs ys
total-append a (some v ∷ xs) ys = total-append (a +ℤ v) xs ys

every-append :
    (xs ys : List (Option ℤ)) → every is_some (xs ++ ys) ≡ (every is_some xs && every is_some ys)
unfolding every
every-append [] ys = refl
every-append (none ∷ xs) ys = refl
every-append (some v ∷ xs) ys = every-append xs ys

-- Two sums together, of which one that is missing makes the whole missing.
abbrev pub add_valued : Option ℤ → Option ℤ → Option ℤ
add_valued none b = none
add_valued (some a) none = none
add_valued (some a) (some b) = some (a +ℤ b)

pub sum_valued-append :
    (xs ys : List (Option ℤ)) → sum_valued (xs ++ ys) ≡ add_valued (sum_valued xs) (sum_valued ys)
unfolding sum_valued
sum_valued-append xs ys = elim (Bool-cases (every is_some xs)) [
  | inl x ↦ elim (Bool-cases (every is_some ys)) [
    | inl y ↦
        rw (every-append xs ys, x, y)
          (ap some (total-append (pos 0) xs ys ∙ total_from (total (pos 0) xs) ys))
    | inr y ↦ rw (every-append xs ys, x, y) refl
  ]
  | inr x ↦ rw (every-append xs ys, x) refl
]

pub sum_valued-cons :
    (v : Option ℤ) (xs : List (Option ℤ)) → sum_valued (v ∷ xs) ≡ add_valued v (sum_valued xs)
unfolding sum_valued every total
sum_valued-cons none xs = refl
sum_valued-cons (some v) xs = elim (Bool-cases (every is_some xs)) [
  | inl x ↦ rw x (ap some (ap (λ b. total b xs) (zero_+ℤ v) ∙ total_from v xs))
  | inr x ↦ rw x refl
]

select-append {ℓ} :
    {A : Type ℓ} (p : A → Bool) (xs ys : List A) → select p (xs ++ ys) ≡ select p xs ++ select p ys
unfolding select
select-append p [] ys = refl
select-append p (x ∷ xs) ys = elim (Bool-cases (p x)) [
  | inl e ↦ rw e (ap (λ t. x ∷ t) (select-append p xs ys))
  | inr e ↦ rw e (select-append p xs ys)
]

map-append {ℓ κ} :
    {A : Type ℓ} {B : Type κ} (f : A → B) (xs ys : List A) → map f (xs ++ ys) ≡ map f xs ++ map f ys
map-append f [] ys = refl
map-append f (x ∷ xs) ys = ap (λ t. f x ∷ t) (map-append f xs ys)

pub usd_of-append :
    (xs ys : List MetricEvent) → usd_of (xs ++ ys) ≡ add_valued (usd_of xs) (usd_of ys)
usd_of-append xs ys =
    ap (λ es. sum_valued (map (λ (e : MetricEvent). e.usd_micros) es)) (select-append is_swap xs ys)
    ∙ ap sum_valued
        (map-append (λ (e : MetricEvent). e.usd_micros) (select is_swap xs) (select is_swap ys))
    ∙ sum_valued-append _ _

pub swap_count_of-append :
    (xs ys : List MetricEvent) → swap_count_of (xs ++ ys) ≡ swap_count_of xs + swap_count_of ys
swap_count_of-append xs ys =
    ap length (select-append is_swap xs ys) ∙ length-append (select is_swap xs) (select is_swap ys)

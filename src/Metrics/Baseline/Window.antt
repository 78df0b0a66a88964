-- ===== src/Metrics/Baseline/Window.antt =====
-- About one history of `RollingVolumeBaseline` of src/metrics/baseline.ts.
use lp_monitor.Prelude.{
  ℕ, zero, suc, ◌-◌, ◌≤◌, ◌<◌, ◌==◌, ltb, if◌then◌else◌, ◌≡◌, refl, sym, ap, ◌∙◌, inl, inr, true,
  false, ◌&&◌, Bool-cases, Option, none, some, List, [], ◌∷◌, ◌++◌, length, drop, filter_map,
  length-append, length-drop, drop-append_left, drop-suc_of_cons, ℤ, ltb_ℤ, sort, sort-IsSorted,
  arith,
}
use lp_monitor.Metrics.Baseline.Rolling.{RollingHistory, shift, push, remember}
use lp_monitor.Metrics.Baseline.Sorted.{
  ltb_ℤ-IsOrder, sorted_insert-eq-insert_sorted, remove_first-insert_sorted, sort-append_one,
}

-- `values.slice(-limit)`: all of them for a limit of 0.
abbrev pub slice_last {ℓ} : {A : Type ℓ} → ℕ → List A → List A
slice_last limit xs = if limit == 0 then xs else drop (length xs - limit) xs

unfoldable pub samples : List (Option ℤ) → List ℤ
samples = filter_map (λ v. v)

shift-sorted :
    (v : Option ℤ) (rest : List (Option ℤ))
    → shift (v ∷ rest) (sort ltb_ℤ (samples (v ∷ rest)))
      ≡ record { queue = rest; sorted = sort ltb_ℤ (samples rest) }
unfolding shift samples filter_map sort
shift-sorted none rest = refl
shift-sorted (some v) rest =
    ap (λ s. record { queue = rest; sorted = s })
      (remove_first-insert_sorted v (sort ltb_ℤ (samples rest)))

samples-append_one :
    (xs : List (Option ℤ)) (v : ℤ) → samples (xs ++ some v ∷ []) ≡ samples xs ++ v ∷ []
unfolding samples filter_map
samples-append_one [] v = refl
samples-append_one (none ∷ xs) v = samples-append_one xs v
samples-append_one (some x ∷ xs) v = ap (λ t. x ∷ t) (samples-append_one xs v)

samples-append_none : (xs : List (Option ℤ)) → samples (xs ++ none ∷ []) ≡ samples xs
unfolding samples filter_map
samples-append_none [] = refl
samples-append_none (none ∷ xs) = samples-append_none xs
samples-append_none (some x ∷ xs) = ap (λ t. x ∷ t) (samples-append_none xs)

push-sorted :
    (v : Option ℤ) (q : List (Option ℤ))
    → push v (record { queue = q; sorted = sort ltb_ℤ (samples q) })
      ≡ record { queue = q ++ v ∷ []; sorted = sort ltb_ℤ (samples (q ++ v ∷ [])) }
unfolding push
push-sorted none q =
    ap (λ s. record { queue = q ++ none ∷ []; sorted = sort ltb_ℤ s }) (sym (samples-append_none q))
push-sorted (some v) q =
    ap (λ s. record { queue = q ++ some v ∷ []; sorted = s })
      (sorted_insert-eq-insert_sorted (sort ltb_ℤ (samples q)) v
          (sort-IsSorted ltb_ℤ ltb_ℤ-IsOrder (samples q))
        ∙ sym (sort-append_one (samples q) v)
        ∙ ap (sort ltb_ℤ) (sym (samples-append_one q v)))

unfoldable pub sorted_queue : List (Option ℤ) → RollingHistory
sorted_queue q = record { queue = q; sorted = sort ltb_ℤ (samples q) }

-- The last values after one more, when the window was full and when it was not.
slice_last-full :
    (limit : ℕ) (values : List (Option ℤ)) (v w : Option ℤ) (rest : List (Option ℤ))
    → (limit == 0) ≡ false
    → slice_last limit values ≡ w ∷ rest
    → length (slice_last limit values) ≡ limit
    → slice_last limit (values ++ v ∷ []) ≡ rest ++ v ∷ []
slice_last-full limit values v w rest positive q full =
    let n = length values - limit in
    let q' : drop n values ≡ w ∷ rest = rw positive at q in
    let full' : length (drop n values) ≡ limit = rw positive at full in
    let nonzero : suc zero ≤ limit = ground (arith, positive) in
    let more : length (values ++ v ∷ []) - limit ≡ suc n =
      omega (arith, length-append values (v ∷ []), length-drop n values) in
    rw
      (
        positive,
        more,
        drop-append_left (suc n) values (v ∷ []) (omega (arith, length-drop n values)),
      )
      (ap (λ t. t ++ v ∷ []) (drop-suc_of_cons n values w rest q'))

slice_last-room :
    (limit : ℕ) (values : List (Option ℤ)) (v : Option ℤ)
    → (ltb 0 limit && (length (slice_last limit values) == limit)) ≡ false
    → slice_last limit (values ++ v ∷ []) ≡ slice_last limit values ++ v ∷ []
slice_last-room limit values v room = elim (Bool-cases (limit == 0)) [
  | inl whole ↦ rw whole refl
  | inr part ↦
      let short : length values < limit =
        ground (arith, room, part, length-drop (length values - limit) values) in
      let none_now : length values - limit ≡ 0 = omega arith in
      let none_then : length (values ++ v ∷ []) - limit ≡ 0 =
        omega (arith, length-append values (v ∷ [])) in
      rw (part, none_then, none_now) refl
]

-- What `remember` makes of the sorted last values are the sorted last values with one more.
pub remember-sorted_queue :
    (limit : ℕ) (values : List (Option ℤ)) (v : Option ℤ)
    → remember limit v (sorted_queue (slice_last limit values))
      ≡ sorted_queue (slice_last limit (values ++ v ∷ []))
unfolding remember sorted_queue
remember-sorted_queue limit values v =
    elim (Bool-cases (ltb 0 limit && (length (slice_last limit values) == limit))) [
      | inr room ↦
          rw (room, slice_last-room limit values v room) (push-sorted v (slice_last limit values))
      | inl full ↦ rw full (split (slice_last limit values) refl full)
    ]
  where
    split :
        (q : List (Option ℤ))
        → slice_last limit values ≡ q
        → (ltb 0 limit && (length (slice_last limit values) == limit)) ≡ true
        → push v (shift (slice_last limit values) (sort ltb_ℤ (samples (slice_last limit values))))
          ≡ sorted_queue (slice_last limit (values ++ v ∷ []))
    split [] e full = absurd (ground (arith, full, ap length e))
    split (w ∷ rest) e full =
        rw
          (
            slice_last-full limit values v w rest (ground (arith, full)) e (ground (arith, full)),
            e,
            shift-sorted w rest,
          )
          (push-sorted v rest)

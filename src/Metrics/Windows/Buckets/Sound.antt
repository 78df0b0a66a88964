-- ===== src/Metrics/Windows/Buckets/Sound.antt =====
-- About the buckets of src/metrics/windows.ts: what a bucket says of the minutes in it.
use lp_monitor.Prelude.{
  ℕ, zero, suc, ◌+◌, ◌-◌, ◌*◌, ◌==◌, ltb, ◌≡◌, refl, sym, ◌∙◌, ap, inl, inr, true, Bool-cases,
  Option, none, some, List, [], ◌∷◌, ◌++◌, map, length, All, select, ℤ, ok, >>=-eq-ok, ok_inj,
  arith,
}
use mathlib.Core.Path.{subst}
use lp_monitor.Metrics.Types.{MinuteMetric, AggregateMetric, MinuteStatus}
use lp_monitor.Metrics.Baseline.{volume_baseline}
use lp_monitor.Metrics.Windows.{MetricEvent, sum_valued, usd_of, swap_count_of}
use lp_monitor.Metrics.Windows.Sums.{
  add_valued, usd_of-append, swap_count_of-append, sum_valued-cons,
}
use lp_monitor.Metrics.Windows.Buckets.{
  is_closed, events_at, events_of, last_start, aggregate, minute_at, if_closed, before_run, run_of,
  closed_run, aggregate_run, five_from, with_prior, slice_last, same_aggregate_scale, volume_like,
  comparable_volume, bucket_with, natural_from, add_natural, natural_starts, build_natural_buckets,
  five_back, prior_fives, recent_of, recent_five,
}

pub closed_is : (s : MinuteStatus) → is_closed s ≡ true → s ≡ MinuteStatus.closed
closed_is MinuteStatus.closed h = refl
closed_is MinuteStatus.partial h = cc
closed_is MinuteStatus.gap h = cc
closed_is MinuteStatus.warming h = cc

-- A closed minute reports the swaps of its minute.
abbrev pub Reports : List MetricEvent → MinuteMetric → Type 0
Reports events m =
    is_closed m.status ≡ true
    → (m.usd_micros ≡ usd_of (events_at events m.minute_start_sec))
      × (m.swap_count ≡ some (swap_count_of (events_at events m.minute_start_sec)))

abbrev pub usd_sum : List MinuteMetric → Option ℤ
usd_sum run = sum_valued (map (λ (m : MinuteMetric). m.usd_micros) run)

abbrev pub swaps_in : List MinuteMetric → ℕ
swaps_in [] = 0
swaps_in (m ∷ rest) = elim m.swap_count [ none ↦ 0 | some n ↦ n ] + swaps_in rest

module _ (minutes : List MinuteMetric) where
  -- Closed minutes of the pool, each a minute after the one before it, the first at `start`.
  abbrev pub IsRun : ℕ → List MinuteMetric → Type 0
  IsRun start [] = Unit
  IsRun start (m ∷ rest) =
      (minute_at start minutes ≡ some m)
      × (m.minute_start_sec ≡ start)
      × (m.status ≡ MinuteStatus.closed)
      × IsRun (start + 60) rest

  -- A bucket over five closed minutes, of which it holds the sums.
  abbrev pub IsSumOfFive : AggregateMetric → Type 0
  IsSumOfFive b =
      (run : List MinuteMetric) × (length run ≡ 5)
      × IsRun b.start_sec run
      × (b.end_sec ≡ b.start_sec + 300)
      × (b.usd_micros ≡ usd_sum run)
      × (b.swap_count ≡ swaps_in run)

  -- The five minutes before the current one, as one bucket.
  abbrev pub RecentSum : ℕ → Option AggregateMetric → Type 0
  RecentSum current none = Unit
  RecentSum current (some b) = IsSumOfFive b × (b.start_sec + 300 ≡ current)

module _ (events : List MetricEvent) (minutes : List MinuteMetric) where
  found_at :
      (start : ℕ) (ms : List MinuteMetric) (m : MinuteMetric)
      → All (Reports events) ms
      → minute_at start ms ≡ some m
      → (m.minute_start_sec ≡ start) × Reports events m
  unfolding minute_at
  found_at start [] m h e = cc
  found_at start (x ∷ ms) m h e = elim (Bool-cases (x.minute_start_sec == start)) [
    | inl here ↦
        let same : some x ≡ some m = rw here at e in
        let eq : x ≡ m = cc same in
        subst (λ y. (y.minute_start_sec ≡ start) × Reports events y) eq (ground (arith, here), h.0)
    | inr there ↦ found_at start ms m h.1 (rw there at e)
  ]

  abbrev Run : ℕ → ℕ → List MinuteMetric → Type 0
  Run n start run = (length run ≡ n) × IsRun minutes start run × All (Reports events) run

  closed_first :
      (n start : ℕ) (o : Option MinuteMetric) (r : Option (List MinuteMetric))
      (run : List MinuteMetric)
      → minute_at start minutes ≡ o
      → ((m : MinuteMetric) → o ≡ some m → (m.minute_start_sec ≡ start) × Reports events m)
      → ((rest : List MinuteMetric) → r ≡ some rest → Run n (start + 60) rest)
      → run_of (if_closed o) r ≡ some run
      → Run (suc n) start run
  closed_first n start none r run at_o found later e = cc
  closed_first n start (some m) r run at_o found later e = elim (Bool-cases (is_closed m.status)) [
    | inl closed ↦ joined r (λ rest k. later rest k) (rw closed at e) closed
    | inr other ↦ let clash : none ≡ some run = rw other at e in cc
  ]
    where
      joined :
          (r : Option (List MinuteMetric))
          → ((rest : List MinuteMetric) → r ≡ some rest → Run n (start + 60) rest)
          → before_run m r ≡ some run
          → is_closed m.status ≡ true
          → Run (suc n) start run
      joined none later k closed = cc
      joined (some rest) later k closed =
          let (len, is_run, reports) = later rest refl in
          let (number, report) = found m refl in
          let same : m ∷ rest ≡ run = cc in
          subst (λ x. Run (suc n) start x) same
            (ap suc len, (at_o, number, closed_is m.status closed, is_run), (report, reports))

  closed_run-Run :
      (n start : ℕ) (run : List MinuteMetric)
      → All (Reports events) minutes
      → closed_run n start minutes ≡ some run
      → Run n start run
  unfolding closed_run
  closed_run-Run zero start run h e =
      let same : [] ≡ run = cc in subst (λ x. Run zero start x) same (refl, tt, tt)
  closed_run-Run (suc n) start run h e =
      closed_first n start (minute_at start minutes) (closed_run n (start + 60) minutes) run refl
        (λ m k. found_at start minutes m h k) (λ rest k. closed_run-Run n (start + 60) rest h k) e

  is_closed_of : (s : MinuteStatus) → s ≡ MinuteStatus.closed → is_closed s ≡ true
  is_closed_of s h = rw h refl

  usd-run :
      (start : ℕ) (run : List MinuteMetric)
      → IsRun minutes start run
      → All (Reports events) run
      → usd_of (events_of events run) ≡ usd_sum run
  unfolding events_of select
  usd-run start [] is_run h = refl
  usd-run start (m ∷ rest) is_run h =
      let (usd, count) = h.0 (is_closed_of m.status is_run.2) in
      usd_of-append (events_at events m.minute_start_sec) (events_of events rest)
      ∙ ap (λ u. add_valued u (usd_of (events_of events rest))) (sym usd)
      ∙ ap (add_valued m.usd_micros) (usd-run (start + 60) rest is_run.3 h.1)
      ∙ sym (sum_valued-cons m.usd_micros (map (λ (m : MinuteMetric). m.usd_micros) rest))

  swaps-run :
      (start : ℕ) (run : List MinuteMetric)
      → IsRun minutes start run
      → All (Reports events) run
      → swap_count_of (events_of events run) ≡ swaps_in run
  unfolding events_of select
  swaps-run start [] is_run h = refl
  swaps-run start (m ∷ rest) is_run h =
      let (usd, count) = h.0 (is_closed_of m.status is_run.2) in
      let later = swaps-run (start + 60) rest is_run.3 h.1 in
      rw count (
        omega (
          arith,
          swap_count_of-append (events_at events m.minute_start_sec) (events_of events rest),
          later,
        ))

  last-run :
      (start : ℕ) (m : MinuteMetric) (rest : List MinuteMetric)
      → IsRun minutes start (m ∷ rest)
      → last_start m rest ≡ start + 60 * length rest
  unfolding last_start
  last-run start m [] is_run = omega (arith, is_run.1)
  last-run start m (n ∷ rest) is_run = omega (arith, last-run (start + 60) n rest is_run.3)

  aggregate-IsSum :
      (start : ℕ) (o : Option (List MinuteMetric)) (b : AggregateMetric)
      → ((run : List MinuteMetric) → o ≡ some run → Run 5 start run)
      → aggregate_run events o ≡ some b
      → IsSumOfFive minutes b × (b.start_sec ≡ start)
  unfolding aggregate
  aggregate-IsSum start none b is e = cc
  aggregate-IsSum start (some []) b is e = cc
  aggregate-IsSum start (some (first ∷ rest)) b is e =
      let (len, is_run, reports) = is (first ∷ rest) refl in
      let same : aggregate events first rest ≡ b = cc in
      let started : IsRun minutes first.minute_start_sec (first ∷ rest) =
        subst (λ s. IsRun minutes s (first ∷ rest)) (sym is_run.1) is_run in
      subst (λ x. IsSumOfFive minutes x × (x.start_sec ≡ start)) same
        (
          (
            first ∷ rest,
            len,
            started,
            omega (arith, last-run first.minute_start_sec first rest started, len),
            usd-run start (first ∷ rest) is_run reports,
            swaps-run start (first ∷ rest) is_run reports,
          ),
          is_run.1,
        )

  five_from-IsSum :
      (start : ℕ) (b : AggregateMetric)
      → All (Reports events) minutes
      → five_from minutes events start ≡ some b
      → IsSumOfFive minutes b × (b.start_sec ≡ start)
  unfolding five_from
  five_from-IsSum start b h e =
      aggregate-IsSum start (closed_run 5 start minutes) b (λ run k. closed_run-Run 5 start run h k)
        e

  -- A bucket keeps its sums when it gets its baseline.
  with_prior-IsSum :
      (value b : AggregateMetric) (prior : List AggregateMetric) (minimum : ℕ)
      → IsSumOfFive minutes value
      → with_prior value prior minimum ≡ ok b
      → IsSumOfFive minutes b × (b.start_sec ≡ value.start_sec)
  unfolding with_prior
  with_prior-IsSum value b prior minimum h e =
      let call =
        volume_baseline (comparable_volume value.usd_micros value.raw_notional)
          (map (volume_like value) prior) minimum in
      let (r, called, made) = >>=-eq-ok call (λ r. ok (bucket_with value r)) e in
      subst (λ x. IsSumOfFive minutes x × (x.start_sec ≡ value.start_sec)) {x = bucket_with value r}
        (ok_inj made) (h, refl)

  All-append :
      (xs : List AggregateMetric) (b : AggregateMetric)
      → All (IsSumOfFive minutes) xs
      → IsSumOfFive minutes b
      → All (IsSumOfFive minutes) (xs ++ b ∷ [])
  All-append [] b h p = (p, tt)
  All-append (x ∷ xs) b h p = (h.0, All-append xs b h.1 p)

  add_natural-IsSum :
      (natural after : List AggregateMetric) (minimum limit start : ℕ) (o : Option AggregateMetric)
      → All (Reports events) minutes
      → All (IsSumOfFive minutes) natural
      → five_from minutes events start ≡ o
      → add_natural natural minimum limit o ≡ ok after
      → All (IsSumOfFive minutes) after
  add_natural-IsSum natural after minimum limit start none h n e k =
      subst (All (IsSumOfFive minutes)) (ok_inj k) n
  add_natural-IsSum natural after minimum limit start (some value) h n e k =
      let prior = slice_last limit (select (same_aggregate_scale value) natural) in
      let (b, called, made) =
        >>=-eq-ok (with_prior value prior minimum) (λ b. ok (natural ++ b ∷ [])) k in
      let (sums, at) = five_from-IsSum start value h e in
      subst (All (IsSumOfFive minutes)) (ok_inj made)
        (All-append natural b n (with_prior-IsSum value b prior minimum sums called).0)

  natural_from-IsSum :
      (starts : List ℕ) (natural after : List AggregateMetric) (minimum limit : ℕ)
      → All (Reports events) minutes
      → All (IsSumOfFive minutes) natural
      → natural_from minutes events minimum limit starts natural ≡ ok after
      → All (IsSumOfFive minutes) after
  unfolding natural_from
  natural_from-IsSum [] natural after minimum limit h n k =
      subst (All (IsSumOfFive minutes)) (ok_inj k) n
  natural_from-IsSum (start ∷ starts) natural after minimum limit h n k =
      let call = add_natural natural minimum limit (five_from minutes events start) in
      let (next, called, later) =
        >>=-eq-ok call (natural_from minutes events minimum limit starts) k in
      natural_from-IsSum starts next after minimum limit h
        (add_natural-IsSum natural next minimum limit start (five_from minutes events start) h n
          refl called)
        later

  pub build_natural_buckets-IsSum :
      (after : List AggregateMetric) (minimum limit : ℕ)
      → All (Reports events) minutes
      → build_natural_buckets minutes events minimum limit ≡ ok after
      → All (IsSumOfFive minutes) after
  unfolding build_natural_buckets
  build_natural_buckets-IsSum after minimum limit h k =
      natural_from-IsSum (natural_starts minutes) [] after minimum limit h tt k

  recent_of-IsSum :
      (current minimum limit : ℕ) (o recent : Option AggregateMetric)
      → ((b : AggregateMetric) → o ≡ some b → IsSumOfFive minutes b × (b.start_sec + 300 ≡ current))
      → recent_of minutes events current minimum limit o ≡ ok recent
      → RecentSum minutes current recent
  recent_of-IsSum current minimum limit none recent is k =
      subst (RecentSum minutes current) (ok_inj k) tt
  recent_of-IsSum current minimum limit (some value) recent is k =
      let prior = prior_fives minutes events current value limit in
      let (b, called, made) = >>=-eq-ok (with_prior value prior minimum) (λ b. ok (some b)) k in
      let (sums, at) = is value refl in
      let (kept, start) = with_prior-IsSum value b prior minimum sums called in
      subst (RecentSum minutes current) {x = some b} (ok_inj made) (kept, omega (arith, start, at))

  pub recent_five-IsSum :
      (current minimum limit : ℕ) (recent : Option AggregateMetric)
      → All (Reports events) minutes
      → recent_five minutes events current minimum limit ≡ ok recent
      → RecentSum minutes current recent
  unfolding recent_five
  recent_five-IsSum current minimum limit recent h k =
      recent_of-IsSum current minimum limit (five_back minutes events current 300) recent
        (λ b e. started b e) k
    where
      started :
          (b : AggregateMetric)
          → five_back minutes events current 300 ≡ some b
          → IsSumOfFive minutes b × (b.start_sec + 300 ≡ current)
      started b e = elim (Bool-cases (ltb current 300)) [
        | inl early ↦ let clash : none ≡ some b = rw early at e in cc
        | inr late ↦
            let (sums, start) = five_from-IsSum (current - 300) b h (rw late at e) in
            (sums, ground (arith, start, late))
      ]

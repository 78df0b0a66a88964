-- ===== src/Metrics/Rolling/Window/Additive.antt =====
-- About what adjacent windows of src/metrics/rolling.ts report.
use lp_monitor.Prelude.{
  ℕ, ◌+◌, ◌==◌, ◌≤◌, ltb, leb, if◌then◌else◌, ◌≡◌, refl, sym, ◌∙◌, ap, inl, inr, Bool, true, false,
  not, ◌&&◌, ◌||◌, Bool-cases, Option, none, some, is_some, any, String, List, [], ◌∷◌, ◌++◌, All,
  select, ℤ, pos, negsuc, ◌+ℤ◌, +ℤ_parts, eq_of_parts, ◌≤ℤ◌, ltb_ℤ, arith,
}
use lp_monitor.Domain.{BlockAnchor}
use lp_monitor.Metrics.Types.{MinuteStatus}
use lp_monitor.Metrics.Windows.{MetricEvent, MinuteCoverage, usd_of, swap_count_of}
use lp_monitor.Metrics.Windows.Sums.{add_valued, +ℤ_assoc, usd_of-append, swap_count_of-append}
use lp_monitor.Metrics.Rolling.{
  minute_in_window, by_exact, in_rolling_window, is_decided, is_inside, selected_events,
  window_status,
}
use lp_monitor.Metrics.Rolling.Covered.{closed_window_is_covered}
use lp_monitor.Metrics.Rolling.Window.{window}

-- A measure of events that is put together from its parts, in any order.
module _ {V : Type 0} (op : V → V → V) (f : List MetricEvent → V)
    (append : (xs ys : List MetricEvent) → f (xs ++ ys) ≡ op (f xs) (f ys))
    (assoc : (a b c : V) → op (op a b) c ≡ op a (op b c)) (comm : (a b : V) → op a b ≡ op b a) where
  join :
      (a b : Bool) (e : MetricEvent) (whole first second : List MetricEvent)
      → (a && b) ≡ false
      → f whole ≡ op (f first) (f second)
      → f (if a || b then e ∷ whole else whole)
        ≡ op (f (if a then e ∷ first else first)) (f (if b then e ∷ second else second))
  join true true e whole first second never h = cc
  join false false e whole first second never h = h
  join true false e whole first second never h =
      append (e ∷ []) whole
      ∙ ap (op (f (e ∷ []))) h
      ∙ sym (assoc (f (e ∷ [])) (f first) (f second))
      ∙ ap (λ v. op v (f second)) (sym (append (e ∷ []) first))
  join false true e whole first second never h =
      append (e ∷ []) whole
      ∙ ap (op (f (e ∷ []))) h
      ∙ sym (assoc (f (e ∷ [])) (f first) (f second))
      ∙ ap (λ v. op v (f second)) (comm (f (e ∷ [])) (f first))
      ∙ assoc (f first) (f (e ∷ [])) (f second)
      ∙ ap (op (f first)) (sym (append (e ∷ []) second))

  abbrev Splits :
      (MetricEvent → Bool) → (MetricEvent → Bool) → (MetricEvent → Bool) → MetricEvent → Type 0
  Splits whole first second e = ((first e && second e) ≡ false) × (whole e ≡ (first e || second e))

  measure-split :
      (whole first second : MetricEvent → Bool) (es : List MetricEvent)
      → All (Splits whole first second) es
      → f (select whole es) ≡ op (f (select first es)) (f (select second es))
  unfolding select
  measure-split whole first second [] h = append [] []
  measure-split whole first second (e ∷ es) h = rw h.0.1 (
      join (first e) (second e) e (select whole es) (select first es) (select second es) h.0.0
        (measure-split whole first second es h.1))

+ℤ_comm : (a b : ℤ) → a +ℤ b ≡ b +ℤ a
+ℤ_comm a b = eq_of_parts (a +ℤ b) (b +ℤ a) (omega (arith, +ℤ_parts a b, +ℤ_parts b a))

add_valued_assoc :
    (a b c : Option ℤ) → add_valued (add_valued a b) c ≡ add_valued a (add_valued b c)
add_valued_assoc none b c = refl
add_valued_assoc (some a) none c = refl
add_valued_assoc (some a) (some b) none = refl
add_valued_assoc (some a) (some b) (some c) = ap some (+ℤ_assoc a b c)

add_valued_comm : (a b : Option ℤ) → add_valued a b ≡ add_valued b a
add_valued_comm none none = refl
add_valued_comm none (some b) = refl
add_valued_comm (some a) none = refl
add_valued_comm (some a) (some b) = ap some (+ℤ_comm a b)

-- A minute that all three windows decide lies in one of the two exactly when it lies in the third.
minute-split :
    (m : ℕ) (start : ℤ) (mid end : ℕ) (a b : Bool)
    → start ≤ℤ pos mid
    → mid ≤ end
    → is_some (minute_in_window m start mid a) ≡ true
    → is_some (minute_in_window m (pos mid) end b) ≡ true
    → is_some (minute_in_window m start end b) ≡ true
    → ((is_inside (minute_in_window m start mid a)
          && is_inside (minute_in_window m (pos mid) end b))
        ≡ false)
      × (is_inside (minute_in_window m start end b) ≡ (
          is_inside (minute_in_window m start mid a)
          || is_inside (minute_in_window m (pos mid) end b)))
minute-split m (pos s) mid end a b h k p q r = ground arith
minute-split m (negsuc s) mid end a b h k p q r = ground arith

exact-split :
    (t : ℕ) (start : ℤ) (mid end : ℕ)
    → start ≤ℤ pos mid
    → mid ≤ end
    → ((ltb_ℤ start (pos t) && leb t mid) && (ltb_ℤ (pos mid) (pos t) && leb t end) ≡ false)
      × ((ltb_ℤ start (pos t) && leb t end)
          ≡ ((ltb_ℤ start (pos t) && leb t mid) || (ltb_ℤ (pos mid) (pos t) && leb t end)))
exact-split t (pos s) mid end h k = ground arith
exact-split t (negsuc s) mid end h k = ground arith

time-split :
    (exact minute : Option ℕ) (start : ℤ) (mid end : ℕ) (a b : Bool)
    → start ≤ℤ pos mid
    → mid ≤ end
    → is_some (by_exact exact minute start mid a) ≡ true
    → is_some (by_exact exact minute (pos mid) end b) ≡ true
    → is_some (by_exact exact minute start end b) ≡ true
    → ((is_inside (by_exact exact minute start mid a)
          && is_inside (by_exact exact minute (pos mid) end b))
        ≡ false)
      × (is_inside (by_exact exact minute start end b) ≡ (
          is_inside (by_exact exact minute start mid a)
          || is_inside (by_exact exact minute (pos mid) end b)))
time-split (some t) minute start mid end a b h k p q r = exact-split t start mid end h k
time-split none none start mid end a b h k p q r = ground (arith, p)
time-split none (some m) start mid end a b h k p q r = minute-split m start mid end a b h k p q r

abbrev undecided : BlockAnchor → ℤ → ℕ → MetricEvent → Bool
undecided watermark from to e = not (is_some (is_decided watermark from to e))

module _ (watermark : BlockAnchor) (start : ℤ) (mid end : ℕ) (before : start ≤ℤ pos mid)
    (after : mid ≤ end) where
  abbrev In : ℤ → ℕ → MetricEvent → Bool
  In from to e = is_inside (is_decided watermark from to e)

  event-Splits :
      (e : MetricEvent)
      → undecided watermark start mid e ≡ false
      → undecided watermark (pos mid) end e ≡ false
      → undecided watermark start end e ≡ false
      → ((In start mid e && In (pos mid) end e) ≡ false)
        × (In start end e ≡ (In start mid e || In (pos mid) end e))
  unfolding in_rolling_window
  event-Splits e p q r = elim (Bool-cases (ltb watermark.number e.ref.block_number)) [
    | inl late ↦ rw late (refl, refl)
    | inr early ↦ rw early (
        time-split e.time.exact_timestamp_sec e.time.minute_start_sec start mid end
          (mid == watermark.timestamp_sec) (end == watermark.timestamp_sec) before after
          (decided _ (rw early at p)) (decided _ (rw early at q)) (decided _ (rw early at r)))
  ]
    where
      decided : (o : Option Bool) → not (is_some o) ≡ false → is_some o ≡ true
      decided none h = ground arith
      decided (some b) h = refl

  abbrev AllDecided : List MetricEvent → Type 0
  AllDecided es =
      (any (undecided watermark start mid) es ≡ false)
      × (any (undecided watermark (pos mid) end) es ≡ false)
      × (any (undecided watermark start end) es ≡ false)

  events-Splits :
      (es : List MetricEvent)
      → AllDecided es
      → All
          (λ e.
            ((In start mid e && In (pos mid) end e) ≡ false)
            × (In start end e ≡ (In start mid e || In (pos mid) end e)))
          es
  unfolding any
  events-Splits [] h = tt
  events-Splits (e ∷ es) (p, q, r) =
      let (p1, ps) = neither _ _ p in
      let (q1, qs) = neither _ _ q in
      let (r1, rs) = neither _ _ r in (event-Splits e p1 q1 r1, events-Splits es (ps, qs, rs))
    where
      neither : (a b : Bool) → (a || b) ≡ false → (a ≡ false) × (b ≡ false)
      neither a b h = ground arith

  usd-split :
      (es : List MetricEvent)
      → AllDecided es
      → usd_of (selected_events watermark start end es)
        ≡ add_valued
            (usd_of (selected_events watermark start mid es))
            (usd_of (selected_events watermark (pos mid) end es))
  unfolding selected_events
  usd-split es h =
      measure-split add_valued usd_of usd_of-append add_valued_assoc add_valued_comm (In start end)
        (In start mid) (In (pos mid) end) es (events-Splits es h)

  swaps-split :
      (es : List MetricEvent)
      → AllDecided es
      → swap_count_of (selected_events watermark start end es)
        ≡ swap_count_of (selected_events watermark start mid es)
          + swap_count_of (selected_events watermark (pos mid) end es)
  unfolding selected_events
  swaps-split es h =
      measure-split (λ a b. a + b) swap_count_of swap_count_of-append (λ a b c. omega arith)
        (λ a b. omega arith) (In start end) (In start mid) (In (pos mid) end) es
        (events-Splits es h)

-- What two windows together report, where both answer.
abbrev pub add_counts : Option ℕ → Option ℕ → Option ℕ
add_counts none b = none
add_counts (some a) none = none
add_counts (some a) (some b) = some (a + b)

-- When two adjacent windows and the window over both are closed, the window over both reports the sum
-- of the dollar volumes of the two, which is missing when one of theirs is, and the sum of their
-- numbers of swaps, whether the times of the events are exact or known to the minute.
pub adjacent_windows_add_up :
    (events : List MetricEvent) (coverage : List MinuteCoverage) (start : ℤ) (mid end : ℕ)
    (watermark : BlockAnchor) (token : Option String) (birth : Option ℕ)
    → start ≤ℤ pos mid
    → mid ≤ end
    → window_status coverage watermark start mid birth events ≡ MinuteStatus.closed
    → window_status coverage watermark (pos mid) end birth events ≡ MinuteStatus.closed
    → window_status coverage watermark start end birth events ≡ MinuteStatus.closed
    → ((window events coverage start end watermark token birth).usd_micros
        ≡ add_valued
            (window events coverage start mid watermark token birth).usd_micros
            (window events coverage (pos mid) end watermark token birth).usd_micros)
      × ((window events coverage start end watermark token birth).swap_count
          ≡ add_counts
              (window events coverage start mid watermark token birth).swap_count
              (window events coverage (pos mid) end watermark token birth).swap_count)
unfolding window
adjacent_windows_add_up events coverage start mid end watermark token birth before after first
      second whole =
    let decided : AllDecided watermark start mid end before after events = (
      (closed_window_is_covered coverage watermark start mid birth events first).1,
      (closed_window_is_covered coverage watermark (pos mid) end birth events second).1,
      (closed_window_is_covered coverage watermark start end birth events whole).1,
    ) in
    rw (first, second, whole)
      (
        usd-split watermark start mid end before after events decided,
        ap some (swaps-split watermark start mid end before after events decided),
      )

-- ===== src/Metrics/Windows/Build/Dormant.antt =====
-- About `dormantWindows` of src/metrics/windows.ts: pools without events that share their windows.
use lp_monitor.Prelude.{
  ℕ, ◌==◌, leb, if◌then◌else◌, ◌≡◌, refl, sym, ◌∙◌, ap, inl, inr, Bool, true, false, ◌&&◌,
  Bool-cases, Option, none, some, String, List, [], ◌∷◌, All, arith,
}
use lp_monitor.Metrics.Types.{MinuteStatus}
use lp_monitor.Metrics.Windows.{
  MetricEvent, MinuteCoverage, select_coverage, minute_metric, minute_status,
  born_in_current_prefix, before_birth, from_of, to_of, prefix_valid, is_not_after,
  minute_of_status, is_before,
}
use lp_monitor.Metrics.Windows.Buckets.{events_at}
use lp_monitor.Metrics.Windows.Build.{
  BuildMinuteMetricOptions, coverage_or, coverage_at, minute_starts, minutes_from, window_core,
  earlier_block, earliest_block, key_birth, dormant_birth,
}

never_before : (block : Option ℕ) → is_before block none ≡ false
never_before none = refl
never_before (some b) = refl

middle_false : (a b c d : Bool) → c ≡ false → (a && b && c && d) ≡ false
middle_false true true c d h = rw h refl
middle_false true false c d h = refl
middle_false false b c d h = refl

not_born :
    (start current : ℕ) (coverage : Option MinuteCoverage) (birth : Option ℕ)
    → before_birth coverage birth ≡ false
    → born_in_current_prefix start current coverage birth ≡ false
unfolding born_in_current_prefix
not_born start current coverage birth h =
    middle_false (start == current) (prefix_valid coverage) (before_birth coverage birth)
      (is_not_after birth (to_of coverage)) h

status-without_birth :
    (start current : ℕ) (coverage : Option MinuteCoverage) (birth : Option ℕ)
    → before_birth coverage birth ≡ false
    → minute_status start current coverage birth ≡ minute_status start current coverage none
unfolding minute_status
status-without_birth start current coverage birth h = rw (h, never_before (from_of coverage)) refl

of_status :
    (s : MinuteStatus) (start : ℕ) (events : List MetricEvent) (coverage : Option MinuteCoverage)
    (token : Option String) (birth : Option ℕ)
    → before_birth coverage birth ≡ false
    → minute_of_status s false start events coverage token birth
      ≡ minute_of_status s false start events coverage token none
of_status MinuteStatus.closed start events coverage token birth h = refl
of_status MinuteStatus.partial start events coverage token birth h = refl
of_status MinuteStatus.gap start events coverage token birth h =
    rw (h, never_before (from_of coverage)) refl
of_status MinuteStatus.warming start events coverage token birth h =
    rw (h, never_before (from_of coverage)) refl

-- A birth that no covered block precedes is as good as none.
minute_metric-without_birth :
    (start current : ℕ) (events : List MetricEvent) (coverage : Option MinuteCoverage)
    (token : Option String) (birth : Option ℕ)
    → before_birth coverage birth ≡ false
    → minute_metric start current events coverage token birth
      ≡ minute_metric start current events coverage token none
unfolding minute_metric
minute_metric-without_birth start current events coverage token birth h =
    rw
      (
        status-without_birth start current coverage birth h,
        not_born start current coverage birth h,
        not_born start current coverage none (never_before (from_of coverage)),
      )
      (of_status (minute_status start current coverage none) start events coverage token birth h)

abbrev pub NotBefore : Option ℕ → MinuteCoverage → Type 0
NotBefore birth c = is_before c.from_block birth ≡ false

pub coverage_at-NotBefore :
    (start : ℕ) (birth : Option ℕ) (cs : List MinuteCoverage)
    → All (NotBefore birth) cs
    → before_birth (coverage_at start cs) birth ≡ false
unfolding coverage_at
coverage_at-NotBefore start birth [] h = refl
coverage_at-NotBefore start birth (c ∷ cs) h =
    kept (coverage_at start cs) (coverage_at-NotBefore start birth cs h.1)
      (c.minute_start_sec == start)
  where
    kept :
        (later : Option MinuteCoverage)
        → before_birth later birth ≡ false
        → (here : Bool)
        → before_birth (coverage_or later (if here then some c else none)) birth ≡ false
    kept (some later) k here = k
    kept none k true = h.0
    kept none k false = refl

earlier-bounds :
    (birth : ℕ) (earliest block : Option ℕ)
    → is_before (earlier_block earliest block) (some birth) ≡ false
    → (is_before earliest (some birth) ≡ false) × (is_before block (some birth) ≡ false)
earlier-bounds birth none none h = (refl, refl)
earlier-bounds birth none (some b) h = (refl, h)
earlier-bounds birth (some e) none h = (h, refl)
earlier-bounds birth (some e) (some b) h = ground arith

earliest-NotBefore :
    (birth : ℕ) (earliest : Option ℕ) (cs : List MinuteCoverage)
    → is_before (earliest_block earliest cs) (some birth) ≡ false
    → (is_before earliest (some birth) ≡ false) × All (NotBefore (some birth)) cs
unfolding earliest_block
earliest-NotBefore birth earliest [] h = (h, tt)
earliest-NotBefore birth earliest (c ∷ cs) h =
    let (front, rest) = earliest-NotBefore birth (earlier_block earliest c.from_block) cs h in
    let (before, here) = earlier-bounds birth earliest c.from_block front in (before, (here, rest))

minutes-without_birth :
    (starts : List ℕ) (current : ℕ) (events : List MetricEvent) (cs : List MinuteCoverage)
    (token : Option String) (birth : Option ℕ)
    → All (NotBefore birth) cs
    → minutes_from starts current events cs token birth
      ≡ minutes_from starts current events cs token none
unfolding minutes_from
minutes-without_birth [] current events cs token birth h = refl
minutes-without_birth (start ∷ starts) current events cs token birth h =
    rw
      (
        minute_metric-without_birth start current (events_at events start) (coverage_at start cs)
            token birth (coverage_at-NotBefore start birth cs h),
        minutes-without_birth starts current events cs token birth h,
      )
      refl

none-NotBefore : (cs : List MinuteCoverage) → All (NotBefore none) cs
none-NotBefore [] = tt
none-NotBefore (c ∷ cs) = (never_before c.from_block, none-NotBefore cs)

-- The two ways in which keys are alike: the same birth, or births that no covered block precedes.
pub key-NotBefore :
    (cs : List MinuteCoverage) (birth earliest : Option ℕ)
    → earliest_block none cs ≡ earliest
    → key_birth birth earliest ≡ none
    → All (NotBefore birth) cs
key-NotBefore cs none earliest e h = none-NotBefore cs
key-NotBefore cs (some b) earliest e h =
    (earliest-NotBefore b none cs (ap (λ f. is_before f (some b)) e ∙ fine earliest h)).1
  where
    fine : (f : Option ℕ) → key_birth (some b) f ≡ none → is_before f (some b) ≡ false
    fine none k = refl
    fine (some f) k = elim (Bool-cases (leb b f)) [
      | inl le ↦ ground (arith, le)
      | inr gt ↦ let clash : some b ≡ none = rw gt at k in cc
    ]

pub key_some :
    (birth earliest : Option ℕ) (b : ℕ) → key_birth birth earliest ≡ some b → birth ≡ some b
key_some none earliest b h = cc
key_some (some a) none b h = cc
key_some (some a) (some e) b h = elim (Bool-cases (leb a e)) [
  | inl le ↦ let clash : none ≡ some b = rw le at h in cc
  | inr gt ↦ rw gt at h
]

module _ (options : BuildMinuteMetricOptions) (current : ℕ) (coverage : List MinuteCoverage)
    (token : Option String) where
  core-without_birth :
      (birth : Option ℕ)
      → dormant_birth coverage birth ≡ none
      → window_core options current [] coverage token birth
        ≡ window_core options current [] coverage token none
  unfolding window_core dormant_birth
  core-without_birth birth h =
      rw
        (minutes-without_birth (minute_starts (select_coverage [] coverage) [] current) current []
          (select_coverage [] coverage) token birth
          (key-NotBefore (select_coverage [] coverage) birth _ refl h))
        refl

  core-by_key :
      (first second key : Option ℕ)
      → dormant_birth coverage first ≡ key
      → dormant_birth coverage second ≡ key
      → window_core options current [] coverage token first
        ≡ window_core options current [] coverage token second
  unfolding dormant_birth
  core-by_key first second none h k = core-without_birth first h ∙ sym (core-without_birth second k)
  core-by_key first second (some b) h k =
      ap (λ d. window_core options current [] coverage token d)
        (birth first h ∙ sym (birth second k))
    where
      birth : (d : Option ℕ) → dormant_birth coverage d ≡ some b → d ≡ some b
      birth d e = key_some d _ b e

-- Two pools without events and with the same key, that is with the same token and with births that
-- are the same or that no covered block precedes, have the same windows: to share them through
-- `dormantWindows` changes no result.
pub dormant_key-is_enough :
    (options : BuildMinuteMetricOptions) (current : ℕ) (coverage : List MinuteCoverage)
    (token : Option String) (first second : Option ℕ)
    → dormant_birth coverage first ≡ dormant_birth coverage second
    → window_core options current [] coverage token first
      ≡ window_core options current [] coverage token second
dormant_key-is_enough options current coverage token first second h =
    core-by_key options current coverage token first second (dormant_birth coverage second) h refl

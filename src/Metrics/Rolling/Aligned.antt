-- ===== src/Metrics/Rolling/Aligned.antt =====
-- About `inRollingWindow` and the ends of live windows in src/metrics/rolling.ts.
use lp_monitor.Prelude.{
  ℕ, ◌+◌, ◌-◌, ◌*◌, ◌/◌, ◌%◌, ◌≤◌, ◌<◌, ltb, leb, if◌then◌else◌, ◌≡◌, ◌⊎◌, inr, inl, Bool, true,
  false, Bool-cases, ℤ, pos, negsuc, arith,
}
use lp_monitor.Metrics.Rolling.{last_complete_minute_end, live_window_end}

-- The last second of a minute, which may be before 0.
abbrev pub EndsMinute : ℤ → Type 0
EndsMinute (pos s) = (s + 1) % 60 ≡ 0
EndsMinute (negsuc k) = k % 60 ≡ 0

abbrev Recent : ℕ → ℕ → ℕ → Type 0
Recent watermark from end =
    (end ≤ watermark)
    × (watermark ≤ end + 59)
    × (from ≤ end)
    × ((watermark < from + 59) ⊎ EndsMinute (pos end))

chosen-Recent :
    (b : Bool) (watermark from e : ℕ)
    → b ≡ leb from e
    → from ≤ watermark
    → e ≤ watermark
    → watermark ≤ e + 59
    → EndsMinute (pos e)
    → Recent watermark from (if b then e else watermark)
chosen-Recent true watermark from e is h below near whole = (below, near, ground arith, inr whole)
chosen-Recent false watermark from e is h below near whole =
    let late : e < from = ground (arith, is) in
    (omega arith, omega arith, h, inl (omega (arith, late, near)))

-- Live windows end at most 59 seconds before the watermark and not behind it, and not before the
-- evidence starts when the watermark does not; with 59 seconds of evidence before the watermark or
-- more they end on the last second of a minute.
pub live_window_end_is_recent :
    (watermark from : ℕ)
    → from ≤ watermark
    → (live_window_end watermark from ≤ watermark)
      × (watermark ≤ live_window_end watermark from + 59)
      × (from ≤ live_window_end watermark from)
      × ((watermark < from + 59) ⊎ EndsMinute (pos (live_window_end watermark from)))
unfolding live_window_end last_complete_minute_end
live_window_end_is_recent watermark from h = elim (Bool-cases (ltb watermark 59)) [
  | inl young ↦ rw young (ground arith)
  | inr old ↦
      let aligned = (watermark - 59) / 60 * 60 + 59 in
      rw old (
        chosen-Recent (leb (from + 0) (aligned + 0)) watermark from aligned (ground arith) h
          (ground (arith, old)) (ground (arith, old)) (omega arith))
]

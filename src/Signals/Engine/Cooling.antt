-- ===== src/Signals/Engine/Cooling.antt =====
-- src/signals/engine.ts, third part: the count of low windows that cools a hot pool.
use lp_monitor.Prelude.{
  ℕ, ◌+◌, ◌*◌, ◌/◌, ◌==◌, ltb, leb, if◌then◌else◌, Bool, true, false, not, ◌&&◌, Option, none, some,
  is_some, List, [], ◌∷◌, reverse, last, select, pos, ◌*ℤ◌, ltb_ℤ,
}
use lp_monitor.Signals.Config.{SignalConfig}
use lp_monitor.Signals.Types.{SignalSnapshot, SignalState, SignalInput}
use lp_monitor.Signals.Engine.{Bucket, five_windows}

abbrev pub is_hot : SignalState → Bool
is_hot SignalState.hot = true
is_hot _ = false

abbrev pub is_cooling : SignalState → Bool
is_cooling SignalState.cooling = true
is_cooling _ = false

-- `lastFiveEndSec === null || endSec > lastFiveEndSec`.
abbrev pub is_newer : ℕ → Option ℕ → Bool
is_newer end_sec none = true
is_newer end_sec (some seen) = ltb seen end_sec

-- The latest window ends at the last boundary and has not been counted.
unfoldable pub is_fresh : SignalInput → Option Bucket → SignalSnapshot → Bool
is_fresh input none next = false
is_fresh input (some latest) next =
    (latest.end_sec == (
      if is_some input.metrics.rolling
      then input.watermark_sec
      else input.watermark_sec / 300 * 300))
    && is_newer latest.end_sec next.last_five_end_sec

-- The window is under the cooling share of the volume that the pool entered with.
unfoldable pub is_low : SignalConfig → SignalSnapshot → Bucket → Bool
is_low config next b = is_hot next.state && (elim next.entry_threshold [
  | none ↦ false
  | some entry ↦ elim b.usd_micros [
    | none ↦ false
    | some usd ↦ ltb_ℤ (usd *ℤ pos 100) (pos (entry * config.cooling.threshold))
  ]
])

abbrev pub starts_before_heat : Option ℕ → ℕ → Bool
starts_before_heat none start = false
starts_before_heat (some heat) start = ltb start heat

-- The loop over the rolling windows, newest first: how many low ones meet end to start.
unfoldable pub count_lows : SignalConfig → SignalSnapshot → ℕ → ℕ → List Bucket → ℕ
count_lows config next boundary lows [] = lows
count_lows config next boundary lows (b ∷ bs) =
    let rest = count_lows config next b.start_sec (lows + 1) bs in
    if (b.end_sec == boundary)
      && not (starts_before_heat next.last_heat_sec b.start_sec)
      && is_low config next b
    then rest
    else lows

pub record Cooled : Type 0 where
  pub next : SignalSnapshot
  pub cooled : Bool

unfoldable pub cool_rolling : SignalConfig → List Bucket → Bucket → SignalSnapshot → Cooled
cool_rolling config five latest next =
    let lows = count_lows config next latest.end_sec 0 (reverse five) in
    let counted = record next { low_buckets = lows; last_five_end_sec = some latest.end_sec } in
    if config.cooling.enabled && leb config.cooling.buckets lows
    then record { next = record counted { state = SignalState.cooling }; cooled = true }
    else record { next = counted; cooled = false }

abbrev pub is_adjacent : Option ℕ → ℕ → Bool
is_adjacent none start = false
is_adjacent (some seen) start = start == seen

-- One window of the loop over the natural buckets.
unfoldable pub cool_bucket : SignalConfig → Bucket → Cooled → Cooled
cool_bucket config b c =
    let lows =
      if is_low config c.next b
      then (if is_adjacent c.next.last_five_end_sec b.start_sec then c.next.low_buckets else 0) + 1
      else 0 in
    let counted = record c.next { low_buckets = lows; last_five_end_sec = some b.end_sec } in
    if config.cooling.enabled && leb config.cooling.buckets lows
    then record { next = record counted { state = SignalState.cooling }; cooled = true }
    else record { next = counted; cooled = c.cooled }

unfoldable pub cool_buckets : SignalConfig → List Bucket → Cooled → Cooled
cool_buckets config [] c = c
cool_buckets config (b ∷ bs) c = cool_buckets config bs (cool_bucket config b c)

-- Without an earlier count only the latest window is counted.
unfoldable pub uncounted : List Bucket → Bucket → Option ℕ → List Bucket
uncounted five latest none = latest ∷ []
uncounted five latest (some seen) = select (λ b. ltb seen b.end_sec) five

-- Both `if (fresh …)` blocks, on the latest window if there is one.
unfoldable pub cool_latest : SignalInput → SignalConfig → SignalSnapshot → Option Bucket → Cooled
cool_latest input config next none = record { next = next; cooled = false }
cool_latest input config next (some latest) =
    if not (is_fresh input (some latest) next)
    then record { next = next; cooled = false }
    else if is_some input.metrics.rolling
    then cool_rolling config (five_windows input) latest next
    else cool_buckets config (uncounted (five_windows input) latest next.last_five_end_sec)
        (record { next = next; cooled = false })

unfoldable pub cool : SignalInput → SignalConfig → SignalSnapshot → Cooled
cool input config next = cool_latest input config next (last (five_windows input))

-- ===== src/Rpc/ResolveTime.antt =====
-- src/rpc/resolve-time.ts: where the search for the first block at a time looks next, and what is
-- asked of a sampled block. A rate is the two numbers of which the source takes the quotient.
pub mod Probe
use lp_monitor.Prelude.{
  ℕ, ◌+◌, ◌-◌, ◌*◌, ◌/◌, ◌==◌, ltb, leb, if◌then◌else◌, Bool, not, ◌&&◌, ◌||◌, List, any, Outcome,
  ok, throw,
}
use lp_monitor.Metrics.Baseline.{is_safe_integer}
use lp_monitor.Domain.{BlockAnchor}

pub record BlockRate : Type 0 where
  pub blocks : ℕ
  pub seconds : ℕ

-- Anchors of one time have the rate 0.
unfoldable pub bracket_block_rate : ℕ → ℕ → ℕ → ℕ → BlockRate
bracket_block_rate before_number before_sec at_number at_sec = record {
  blocks = at_number - before_number;
  seconds = at_sec - before_sec;
}

-- The blocks of one second: the rounded rate if it is at least 1, and else one block.
unfoldable pub block_step : BlockRate → ℕ
block_step r =
    if (r.seconds == 0) || ltb r.blocks r.seconds
    then 1
    else (2 * r.blocks + r.seconds) / (2 * r.seconds)

abbrev pub clamped : ℕ → ℕ → ℕ
clamped span offset = if ltb offset 1 then 1 else if leb span offset then span - 1 else offset

unfoldable pub interpolate_probe : ℕ → ℕ → ℕ → ℕ → ℕ → BlockRate → ℕ
interpolate_probe before_number before_sec at_number at_sec target rate =
    let span = at_number - before_number in
    let seconds = at_sec - before_sec in
    let elapsed = target - before_sec in
    if leb span 1
    then before_number
    else if leb at_sec before_sec || leb target before_sec
    then before_number + span / 2
    else if leb seconds elapsed
    then if leb (at_number - block_step rate) before_number
      then before_number + span / 2
      else at_number - block_step rate
    else before_number + clamped span (span * elapsed / seconds)

-- A block behind a later one, or before an earlier one, in time.
abbrev pub is_out_of_order : BlockAnchor → BlockAnchor → Bool
is_out_of_order anchor sampled =
    (ltb sampled.number anchor.number && ltb anchor.timestamp_sec sampled.timestamp_sec)
    || (ltb anchor.number sampled.number && ltb sampled.timestamp_sec anchor.timestamp_sec)

abbrev pub is_invalid : BlockAnchor → Bool
is_invalid a =
    not (is_safe_integer a.timestamp_sec) || ((a.timestamp_sec == 0) && not (a.number == 0))

unfoldable pub validate_time_anchor : BlockAnchor → List BlockAnchor → Outcome (Unit {0})
validate_time_anchor anchor sampled =
    if is_invalid anchor
    then throw "Invalid block anchor"
    else if any (is_out_of_order anchor) sampled
    then throw "Nonmonotonic sampled anchors"
    else ok tt

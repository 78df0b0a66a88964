-- ===== src/Rpc/ResolveTime/Probe.antt =====
-- About `interpolateProbe` of src/rpc/resolve-time.ts.
use lp_monitor.Prelude.{
  ℕ, ◌+◌, ◌-◌, ◌*◌, ◌/◌, ◌≤◌, ◌<◌, leb, if◌then◌else◌, ◌≡◌, Bool, true, false, ◌||◌, arith,
}
use lp_monitor.Rpc.ResolveTime.{BlockRate, block_step, clamped, interpolate_probe}

rounded_positive : (b s : ℕ) → 0 < s → s ≤ b → 1 ≤ (2 * b + s) / (2 * s)
rounded_positive b s p q = grind arith

block_step_positive : (r : BlockRate) → 1 ≤ block_step r
unfolding block_step
block_step_positive r = ground (arith, rounded_positive r.blocks r.seconds)

-- A probe behind one step or in the middle lies inside the bracket.
inside :
    (before at step offset : ℕ) (same flat : Bool)
    → before + 1 < at
    → 1 ≤ step
    → let probe =
        if same
        then before + (at - before) / 2
        else if flat
        then if leb (at - step) before then before + (at - before) / 2 else at - step
        else before + clamped (at - before) offset in
      (before < probe) × (probe < at)
inside before at step offset true flat wide one = (omega arith, omega arith)
inside before at step offset false true wide one = ground arith
inside before at step offset false false wide one = ground arith

-- Whatever the times and the rate, a probe of a bracket that is wider than one block lies strictly
-- inside it, so the search narrows the bracket with each block that it samples.
pub probe_is_inside :
    (before before_sec at at_sec target : ℕ) (rate : BlockRate)
    → before + 1 < at
    → (before < interpolate_probe before before_sec at at_sec target rate)
      × (interpolate_probe before before_sec at at_sec target rate < at)
unfolding interpolate_probe
probe_is_inside before before_sec at at_sec target rate wide =
    let open_bracket : leb (at - before) 1 ≡ false = ground arith in
    rw open_bracket (
      inside before at (block_step rate) _ (leb at_sec before_sec || leb target before_sec) _ wide
        (block_step_positive rate))

-- ===== src/Ingest/TimeIndex/Boundary.antt =====
-- About the search of src/ingest/time-index.ts for the first block of a minute.
use lp_monitor.Prelude.{
  ℕ, zero, suc, ◌+◌, ◌-◌, ◌==◌, ◌≤◌, ◌<◌, ltb, leb, ◌≡◌, refl, inl, inr, Bool, true, false, not,
  ◌||◌, Bool-cases, All, Outcome, ok, ◌>>=◌, arith,
}
use lp_monitor.Metrics.Baseline.{is_safe_integer}
use lp_monitor.Domain.{BlockAnchor}
use lp_monitor.Rpc.ResolveTime.{BlockRate, interpolate_probe}
use lp_monitor.Rpc.ResolveTime.Probe.{probe_is_inside}
use lp_monitor.Ingest.Reorg.{Reader}
use lp_monitor.Ingest.TimeIndex.{
  Samples, MinuteBoundary, proven, narrow, has_no_bracket, resolve_minute_boundary,
}
use lp_monitor.Ingest.TimeIndex.Chain.{
  Chain, OnChain, Honest, later_time, add_anchor-Added, get_anchor-Fetched,
}

module _ (c : Chain) where
  -- Two blocks of the chain that follow each other, the second the first one at the time.
  pub record IsBoundary (target : ℕ) (b : MinuteBoundary) : Type 0 where
    pub target_is : b.timestamp_sec ≡ target
    pub first_is : b.first_block ≡ b.at.number
    pub before_on : OnChain c b.before
    pub at_on : OnChain c b.at
    pub adjacent : suc b.before.number ≡ b.at.number
    pub is_before : b.before.timestamp_sec < target
    pub is_at : target ≤ b.at.timestamp_sec

  abbrev pub Resolved : ℕ → Outcome (MinuteBoundary × Samples) → Type 0
  Resolved target o =
      (b : MinuteBoundary) × (s : Samples) × (o ≡ ok (b, s))
      × IsBoundary target b
      × All (OnChain c) s.cache

  proven-Resolved :
      (target : ℕ) (before at : BlockAnchor) (s : Samples)
      → OnChain c before
      → OnChain c at
      → suc before.number ≡ at.number
      → before.timestamp_sec < target
      → target ≤ at.timestamp_sec
      → All (OnChain c) s.cache
      → Resolved target (proven target before at s)
  proven-Resolved target before at s on_b on_a next below above h =
      let fine : (leb target before.timestamp_sec || ltb at.timestamp_sec target) ≡ false =
        ground arith in
      rw fine (
        record { timestamp_sec = target; first_block = at.number; before = before; at = at },
        s,
        refl,
        record {
          target_is = refl;
          first_is = refl;
          before_on = on_b;
          at_on = on_a;
          adjacent = next;
          is_before = below;
          is_at = above;
        },
        h,
      )

  chosen-Resolved :
      (target : ℕ) (b : Bool) (x y : Outcome (MinuteBoundary × Samples))
      → (b ≡ true → Resolved target x)
      → (b ≡ false → Resolved target y)
      → Resolved target (elim b [ true ↦ x | false ↦ y ])
  chosen-Resolved target true x y p q = p refl
  chosen-Resolved target false x y p q = q refl

  then-Resolved :
      {A : Type 0} (target : ℕ) (m : Outcome A) (f : A → Outcome (MinuteBoundary × Samples)) (a : A)
      → m ≡ ok a
      → Resolved target (f a)
      → Resolved target (m >>= f)
  then-Resolved target m f a e p = rw e p

  narrow-Resolved :
      (reader : Reader) (target : ℕ) (rate : BlockRate) (fuel : ℕ) (before at : BlockAnchor)
      (s : Samples)
      → Honest c reader
      → OnChain c before
      → OnChain c at
      → before.number < at.number
      → at.number - before.number < fuel
      → before.timestamp_sec < target
      → target ≤ at.timestamp_sec
      → All (OnChain c) s.cache
      → Resolved target (narrow reader target rate fuel before at s)
  unfolding narrow
  narrow-Resolved reader target rate zero before at s honest on_b on_a order enough below above h =
      absurd (omega arith)
  narrow-Resolved reader target rate (suc fuel) before at s honest on_b on_a order enough below
        above h =
      elim (Bool-cases (leb (at.number - before.number) 1)) [
        | inl done ↦
            rw done (proven-Resolved target before at s on_b on_a (ground arith) below above h)
        | inr wide ↦
            let probe =
              interpolate_probe before.number before.timestamp_sec at.number at.timestamp_sec target
                rate in
            let (low, high) =
              probe_is_inside before.number before.timestamp_sec at.number at.timestamp_sec target
                rate (ground arith) in
            let (a, t, got, number, on, h') = get_anchor-Fetched c reader probe s honest h in
            rw wide (
              then-Resolved target _ _ (a, t) got
                (chosen-Resolved target (leb target a.timestamp_sec) _ _
                  (λ reached.
                    narrow-Resolved reader target rate fuel before a t honest on_b on
                      (omega (arith, low, number)) (omega (arith, low, high, number, enough)) below
                      (ground (arith, reached)) h')
                  (λ missed.
                    narrow-Resolved reader target rate fuel a at t honest on on_a
                      (omega (arith, high, number)) (omega (arith, low, high, number, enough))
                      (ground (arith, missed)) above h')))
      ]

  pub resolve-Resolved :
      (reader : Reader) (target : ℕ) (lo hi : BlockAnchor) (s : Samples)
      → Honest c reader
      → OnChain c lo
      → OnChain c hi
      → All (OnChain c) s.cache
      → is_safe_integer target ≡ true
      → lo.timestamp_sec < target
      → target ≤ hi.timestamp_sec
      → Resolved target (resolve_minute_boundary reader target lo hi s)
  unfolding resolve_minute_boundary
  resolve-Resolved reader target lo hi s honest on_lo on_hi h safe below above =
      let order : lo.number < hi.number =
        later_time c lo.number hi.number (omega (arith, on_lo.1, on_hi.1, below, above)) in
      let valid : (not (is_safe_integer target) || (target == 0)) ≡ false =
        rw safe (ground arith) in
      let bracket : has_no_bracket target lo hi ≡ false = ground arith in
      let (one, added, h1) = add_anchor-Added c lo s.cache on_lo h in
      let (two, added', h2) = add_anchor-Added c hi one on_hi h1 in
      rw (valid, added, added', bracket)
        (narrow-Resolved reader target _ _ lo hi _ honest on_lo on_hi order (omega arith) below
          above h2)

-- On a chain whose blocks the reader answers, and from a bracket of two of its blocks around a safe
-- time, the search does not throw: it ends with the first block of the chain at that time or later,
-- and with the block before it, and has only sampled blocks of the chain.
pub boundary_is_first :
    (c : Chain) (reader : Reader) (target : ℕ) (lo hi : BlockAnchor) (s : Samples)
    → Honest c reader
    → OnChain c lo
    → OnChain c hi
    → All (OnChain c) s.cache
    → is_safe_integer target ≡ true
    → lo.timestamp_sec < target
    → target ≤ hi.timestamp_sec
    → (b : MinuteBoundary) × (t : Samples) × (resolve_minute_boundary reader target lo hi s
        ≡ ok (b, t))
      × (target ≤ c.time_of b.first_block)
      × ((n : ℕ) → n < b.first_block → c.time_of n < target)
      × (b.before.number + 1 ≡ b.first_block)
      × All (OnChain c) t.cache
boundary_is_first c reader target lo hi s honest on_lo on_hi h safe below above =
    let (b, t, e, r, h') =
      resolve-Resolved c reader target lo hi s honest on_lo on_hi h safe below above in
    (
      b,
      t,
      e,
      rw r.first_is (omega (arith, r.is_at, r.at_on.1)),
      λ n less. omega (
        arith,
        r.is_before,
        r.before_on.1,
        c.in_order n b.before.number (omega (arith, less, r.first_is, r.adjacent)),
      ),
      omega (arith, r.first_is, r.adjacent),
      h',
    )

-- ===== src/Ingest/LogTime/Target.antt =====
-- About one target of the loop of `resolveLogTimes` in src/ingest/log-time.ts.
use lp_monitor.Prelude.{
  ℕ, ◌==◌, ◌≤◌, ◌<◌, ltb, leb, ◌≡◌, refl, sym, ◌∙◌, ap, inl, inr, Bool, true, false, ◌&&◌, ◌||◌,
  Bool-cases, Option, none, some, List, [], ◌∷◌, All, any, Outcome, ok, arith,
}
use mathlib.Core.Path.{subst}
use lp_monitor.Metrics.Baseline.{is_safe_integer}
use lp_monitor.Domain.{BlockAnchor}
use lp_monitor.Ingest.Reorg.{Reader}
use lp_monitor.Ingest.TimeIndex.{MinuteBoundary, Samples, find_anchor}
use lp_monitor.Ingest.TimeIndex.Chain.{Chain, OnChain, Honest, find_anchor-OnChain, same_on_chain}
use lp_monitor.Ingest.TimeIndex.Boundary.{IsBoundary, resolve-Resolved}
use lp_monitor.Ingest.LogTime.{
  boundary_is_valid, is_lower_than, lowest, replace_anchor, cache_over, cache_anchor, brackets,
  from_genesis, ask_genesis, below_or_genesis, lower_anchor, resolve_target,
}
use lp_monitor.Ingest.LogTime.Minute.{IfSome, highest-IfSome, lowest-IfSome}

abbrev reaches : ℕ → BlockAnchor → Bool
reaches target a = leb target a.timestamp_sec

lowest-some :
    (p : BlockAnchor → Bool) (xs : List BlockAnchor) (b : BlockAnchor)
    → (a : BlockAnchor) × (lowest p xs (some b) ≡ some a)
unfolding lowest
lowest-some p [] b = (b, refl)
lowest-some p (x ∷ xs) b = elim (Bool-cases (p x && is_lower_than x (some b))) [
  | inl e ↦ rw e (lowest-some p xs x)
  | inr e ↦ rw e (lowest-some p xs b)
]

lowest-any :
    (p : BlockAnchor → Bool) (xs : List BlockAnchor)
    → any p xs ≡ true
    → (a : BlockAnchor) × (lowest p xs none ≡ some a)
unfolding lowest any
lowest-any p [] e = cc
lowest-any p (x ∷ xs) e = elim (Bool-cases (p x)) [
  | inl h ↦ rw h (lowest-some p xs x)
  | inr h ↦ let later : any p xs ≡ true = rw h at e in rw h (lowest-any p xs later)
]

module _ (c : Chain) (target : ℕ) where
  -- Blocks of the chain, one of them at the target or later.
  abbrev Reaching : List BlockAnchor → Type 0
  Reaching cache = All (OnChain c) cache × (any (reaches target) cache ≡ true)

  replace-Reaching :
      (a : BlockAnchor) (cache : List BlockAnchor)
      → OnChain c a
      → All (OnChain c) cache
      → All (OnChain c) (replace_anchor a cache)
        × (any (reaches target) cache ≡ true → any (reaches target) (replace_anchor a cache) ≡ true)
  unfolding replace_anchor any
  replace-Reaching a [] on h = ((on, tt), λ e. cc)
  replace-Reaching a (x ∷ xs) on h =
      let (later, kept) = replace-Reaching a xs on h.1 in
      elim (Bool-cases (x.number == a.number)) [
        | inl same ↦
            let number : x.number ≡ a.number = ground (arith, same) in
            let time : x.timestamp_sec ≡ a.timestamp_sec = h.0.1 ∙ ap c.time_of number ∙ sym on.1 in
            rw same
              ((on, h.1), λ e. subst (λ t. (leb target t || any (reaches target) xs) ≡ true) time e)
        | inr other ↦ rw other ((h.0, later), λ e. or_later (reaches target x) _ _ kept e)
      ]
    where
      or_later : (b x y : Bool) → (x ≡ true → y ≡ true) → (b || x) ≡ true → (b || y) ≡ true
      or_later true x y p e = refl
      or_later false x y p e = p e

  abbrev Cached : Outcome (List BlockAnchor) → Type 0
  Cached o = (cache : List BlockAnchor) × (o ≡ ok cache) × Reaching cache

  cache_over-Cached :
      (a : BlockAnchor) (cache : List BlockAnchor) (o : Option BlockAnchor)
      → OnChain c a
      → Reaching cache
      → find_anchor a.number cache ≡ o
      → Cached (cache_over a cache o)
  cache_over-Cached a cache none on h e =
      let (all, kept) = replace-Reaching a cache on h.0 in (_, refl, (all, kept h.1))
  cache_over-Cached a cache (some x) on h e =
      let (number, on_x) = find_anchor-OnChain c a.number cache x h.0 e in
      let (all, kept) = replace-Reaching a cache on h.0 in
      rw (same_on_chain c x a on_x on number) (_, refl, (all, kept h.1))

  abbrev Lower : Outcome (BlockAnchor × Samples) → Type 0
  Lower o =
      (a : BlockAnchor) × (s : Samples) × (o ≡ ok (a, s))
      × OnChain c a
      × (a.timestamp_sec < target)
      × Reaching s.cache

  from_genesis-Lower :
      (s : Samples) (a : BlockAnchor)
      → OnChain c a
      → a.number ≡ 0
      → c.time_of 0 < target
      → Reaching s.cache
      → Lower (from_genesis target s a)
  unfolding cache_anchor
  from_genesis-Lower s a on zeroth begun h =
      let first : (a.number == 0) ≡ true = ground arith in
      let (cache, cached, h') = cache_over-Cached a s.cache _ on h refl in
      let below : a.timestamp_sec < target = rw (on.1, zeroth) begun in
      let early : leb target a.timestamp_sec ≡ false = ground arith in
      rw (first, cached, early) (a, _, refl, on, below, h')

  ask_genesis-Lower :
      (reader : Reader) (s : Samples) (o : Option BlockAnchor)
      → Honest c reader
      → c.time_of 0 < target
      → Reaching s.cache
      → find_anchor 0 s.cache ≡ o
      → Lower (ask_genesis reader target s o)
  ask_genesis-Lower reader s (some a) honest begun h e =
      let (number, on) = find_anchor-OnChain c 0 s.cache a h.0 e in
      from_genesis-Lower s a on number begun h
  ask_genesis-Lower reader s none honest begun h e =
      let (a, answered, number, on) = honest s.calls 0 in
      rw answered (from_genesis-Lower _ a on number begun h)

  below_or_genesis-Lower :
      (reader : Reader) (s : Samples) (o : Option BlockAnchor)
      → Honest c reader
      → c.time_of 0 < target
      → Reaching s.cache
      → IfSome (λ a. OnChain c a × (a.timestamp_sec < target)) o
      → Lower (below_or_genesis reader target s o)
  below_or_genesis-Lower reader s none honest begun h k =
      ask_genesis-Lower reader s _ honest begun h refl
  below_or_genesis-Lower reader s (some a) honest begun h k = (a, s, refl, k.0, k.1, h)

  lower_anchor-Lower :
      (reader : Reader) (s : Samples)
      → Honest c reader
      → c.time_of 0 < target
      → Reaching s.cache
      → Lower (lower_anchor reader target s)
  unfolding lower_anchor brackets
  lower_anchor-Lower reader s honest begun h = below_or_genesis-Lower reader s _ honest begun h (
      highest-IfSome (λ a. ltb a.timestamp_sec target)
        (λ a. OnChain c a × (a.timestamp_sec < target)) (OnChain c)
        (λ a q e. (q, ground (arith, e))) s.cache none h.0 tt)

  upper :
      (cache : List BlockAnchor)
      → Reaching cache
      → (a : BlockAnchor) × ((brackets target cache).1 ≡ some a)
        × OnChain c a
        × (target ≤ a.timestamp_sec)
  unfolding brackets
  upper cache h =
      let (a, e) = lowest-any (reaches target) cache h.1 in
      let on =
        lowest-IfSome (reaches target) (λ a. OnChain c a × (target ≤ a.timestamp_sec)) (OnChain c)
          (λ a q e. (q, ground (arith, e))) cache none h.0 tt in
      let on_a : IfSome (λ a. OnChain c a × (target ≤ a.timestamp_sec)) (some a) =
        subst (λ o. IfSome (λ a. OnChain c a × (target ≤ a.timestamp_sec)) o) e on in
      (a, e, on_a.0, on_a.1)

  boundary-IsValid :
      (b : MinuteBoundary)
      → is_safe_integer target ≡ true
      → IsBoundary c target b
      → boundary_is_valid b ≡ true
  boundary-IsValid b safe r =
      let safe_b : is_safe_integer b.timestamp_sec ≡ true =
        subst (λ t. is_safe_integer t ≡ true) (sym r.target_is) safe in
      rw safe_b (ground (arith, r.target_is, r.first_is, r.adjacent, r.is_before, r.is_at))

-- A target past the chain's first block and not past a sampled block is always resolved, on a chain
-- whose blocks the reader answers: there is no failure, the boundary is valid and at the target, its
-- blocks and all samples are of the chain.
pub target_is_resolved :
    (c : Chain) (reader : Reader) (target : ℕ) (s : Samples)
    → Honest c reader
    → All (OnChain c) s.cache
    → any (λ a. leb target a.timestamp_sec) s.cache ≡ true
    → is_safe_integer target ≡ true
    → c.time_of 0 < target
    → (b : MinuteBoundary) × (t : Samples) × (resolve_target reader target s ≡ ok (b, t))
      × (b.timestamp_sec ≡ target)
      × (boundary_is_valid b ≡ true)
      × OnChain c b.before
      × OnChain c b.at
      × All (OnChain c) t.cache
unfolding resolve_target
target_is_resolved c reader target s honest on reached safe begun =
    let (lo, t, found, on_lo, below, h) =
      lower_anchor-Lower c target reader s honest begun (on, reached) in
    let (hi, bracket, on_hi, above) = upper c target t.cache h in
    let (b, u, e, r, h') =
      resolve-Resolved c reader target lo hi t honest on_lo on_hi h.0 safe below above in
    rw (found, bracket)
      (b, u, e, r.target_is, boundary-IsValid c target b safe r, r.before_on, r.at_on, h')

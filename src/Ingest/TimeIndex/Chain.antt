-- ===== src/Ingest/TimeIndex/Chain.antt =====
-- A chain as src/ingest/time-index.ts and src/ingest/log-time.ts take it: the hash and the time of
-- each block, and blocks that were sampled from it.
use lp_monitor.Prelude.{
  ℕ, ◌+◌, ◌==◌, ◌≤◌, ◌<◌, ltb, ◌≡◌, refl, sym, ◌∙◌, ap, inl, inr, true, false, Bool-cases, Option,
  none, some, String, eq_iff, List, [], ◌∷◌, ◌++◌, All, any, Outcome, ok, arith,
}
use mathlib.Core.Path.{subst}
use lp_monitor.Metrics.Baseline.{is_safe_integer}
use lp_monitor.Domain.{BlockAnchor}
use lp_monitor.Rpc.ResolveTime.{is_out_of_order, is_invalid, validate_time_anchor}
use lp_monitor.Ingest.Reorg.{Reader}
use lp_monitor.Ingest.TimeIndex.{
  Samples, find_anchor, same_anchor, set_anchor, add_anchor, add_anchors, fetched, get_anchor,
}

-- Time does not run backwards, is a safe integer, and is 0 at the first block at most.
pub record Chain : Type 0 where
  pub hash_of : ℕ → String
  pub time_of : ℕ → ℕ
  pub in_order : (m n : ℕ) → m ≤ n → time_of m ≤ time_of n
  pub is_safe : (n : ℕ) → is_safe_integer (time_of n) ≡ true
  pub is_started : (n : ℕ) → time_of n ≡ 0 → n ≡ 0

module _ (c : Chain) where
  abbrev pub OnChain : BlockAnchor → Type 0
  OnChain a = (a.hash ≡ c.hash_of a.number) × (a.timestamp_sec ≡ c.time_of a.number)

  -- Every call is answered with the block of the chain that was asked for.
  abbrev pub Honest : Reader → Type 0
  Honest reader = (k n : ℕ) → (a : BlockAnchor) × (reader k n ≡ ok a) × (a.number ≡ n) × OnChain a

  pub later_time : (m n : ℕ) → c.time_of m < c.time_of n → m < n
  later_time m n h = elim (Bool-cases (ltb m n)) [
    | inl less ↦ ground arith
    | inr not_less ↦
        let order : n ≤ m = ground arith in absurd (omega (arith, h, c.in_order n m order))
  ]

  in_place : (a s : BlockAnchor) → OnChain a → OnChain s → is_out_of_order a s ≡ false
  in_place a s on_a on_s =
      ground (arith, on_a.1, on_s.1, c.in_order s.number a.number, c.in_order a.number s.number)

  none_out_of_order :
      (a : BlockAnchor) (cache : List BlockAnchor)
      → OnChain a
      → All OnChain cache
      → any (is_out_of_order a) cache ≡ false
  unfolding any
  none_out_of_order a [] on h = refl
  none_out_of_order a (s ∷ rest) on h = rw (in_place a s on h.0) (none_out_of_order a rest on h.1)

  valid : (a : BlockAnchor) → OnChain a → is_invalid a ≡ false
  valid a on =
      let safe : is_safe_integer a.timestamp_sec ≡ true =
        subst (λ t. is_safe_integer t ≡ true) (sym on.1) (c.is_safe a.number) in
      rw safe (ground (arith, on.1, c.is_started a.number))

  validate_on_chain :
      (a : BlockAnchor) (cache : List BlockAnchor)
      → OnChain a
      → All OnChain cache
      → validate_time_anchor a cache ≡ ok tt
  unfolding validate_time_anchor
  validate_on_chain a cache on h = rw (valid a on, none_out_of_order a cache on h) refl

  pub find_anchor-OnChain :
      (n : ℕ) (cache : List BlockAnchor) (a : BlockAnchor)
      → All OnChain cache
      → find_anchor n cache ≡ some a
      → (a.number ≡ n) × OnChain a
  unfolding find_anchor
  find_anchor-OnChain n [] a h e = cc
  find_anchor-OnChain n (x ∷ rest) a h e = elim (Bool-cases (x.number == n)) [
    | inl here ↦
        let same : some x ≡ some a = rw here at e in
        let eq : x ≡ a = cc same in subst (λ y. (y.number ≡ n) × OnChain y) eq (ground arith, h.0)
    | inr there ↦ find_anchor-OnChain n rest a h.1 (rw there at e)
  ]

  All-append :
      (xs : List BlockAnchor) (a : BlockAnchor)
      → All OnChain xs
      → OnChain a
      → All OnChain (xs ++ a ∷ [])
  All-append [] a h on = (on, tt)
  All-append (x ∷ xs) a h on = (h.0, All-append xs a h.1 on)

  pub same_on_chain :
      (a b : BlockAnchor) → OnChain a → OnChain b → a.number ≡ b.number → same_anchor a b ≡ true
  same_on_chain a b on_a on_b e =
      let hashes : a.hash ≡ b.hash = on_a.0 ∙ ap c.hash_of e ∙ sym on_b.0 in
      let times : a.timestamp_sec ≡ b.timestamp_sec = on_a.1 ∙ ap c.time_of e ∙ sym on_b.1 in
      ground (arith, hashes, times, eq_iff a.hash b.hash)

  abbrev pub Added : Outcome (List BlockAnchor) → Type 0
  Added o = (cache : List BlockAnchor) × (o ≡ ok cache) × All OnChain cache

  set_anchor-Added :
      (a : BlockAnchor) (cache : List BlockAnchor) (o : Option BlockAnchor)
      → OnChain a
      → All OnChain cache
      → find_anchor a.number cache ≡ o
      → Added (set_anchor a cache o)
  set_anchor-Added a cache none on h e = (_, refl, All-append cache a h on)
  set_anchor-Added a cache (some x) on h e =
      let (number, on_x) = find_anchor-OnChain a.number cache x h e in
      rw (same_on_chain x a on_x on number) (cache, refl, h)

  -- A block of the chain can always be added to blocks of the chain.
  pub add_anchor-Added :
      (a : BlockAnchor) (cache : List BlockAnchor)
      → OnChain a
      → All OnChain cache
      → Added (add_anchor a cache)
  unfolding add_anchor
  add_anchor-Added a cache on h =
      rw (validate_on_chain a cache on h) (set_anchor-Added a cache _ on h refl)

  pub add_anchors-Added :
      (as_added cache : List BlockAnchor)
      → All OnChain as_added
      → All OnChain cache
      → Added (add_anchors as_added cache)
  unfolding add_anchors
  add_anchors-Added [] cache on h = (cache, refl, h)
  add_anchors-Added (a ∷ rest) cache on h =
      let (next, e, h') = add_anchor-Added a cache on.0 h in
      rw e (add_anchors-Added rest next on.1 h')

  -- The block that was asked for, and samples that are still of the chain.
  abbrev pub Fetched : ℕ → Outcome (BlockAnchor × Samples) → Type 0
  Fetched n o =
      (a : BlockAnchor) × (s : Samples) × (o ≡ ok (a, s))
      × (a.number ≡ n)
      × OnChain a
      × All OnChain s.cache

  fetched-Fetched :
      (reader : Reader) (n : ℕ) (s : Samples) (o : Option BlockAnchor)
      → Honest reader
      → All OnChain s.cache
      → find_anchor n s.cache ≡ o
      → Fetched n (fetched reader n s o)
  fetched-Fetched reader n s (some a) honest h e =
      let (number, on) = find_anchor-OnChain n s.cache a h e in (a, s, refl, number, on, h)
  fetched-Fetched reader n s none honest h e =
      let (a, answered, number, on) = honest s.calls n in
      let (cache, added, on_cache) = add_anchor-Added a s.cache on h in
      let same : (a.number == n) ≡ true = ground arith in
      rw (answered, same, added)
        (a, record { calls = s.calls + 1; cache = cache }, refl, number, on, on_cache)

  pub get_anchor-Fetched :
      (reader : Reader) (n : ℕ) (s : Samples)
      → Honest reader
      → All OnChain s.cache
      → Fetched n (get_anchor reader n s)
  unfolding get_anchor
  get_anchor-Fetched reader n s honest h = fetched-Fetched reader n s _ honest h refl

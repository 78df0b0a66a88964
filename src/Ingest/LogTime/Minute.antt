-- ===== src/Ingest/LogTime/Minute.antt =====
-- About `assignLogMinutes` of src/ingest/log-time.ts.
use lp_monitor.Prelude.{
  ℕ, ◌+◌, ◌*◌, ◌/◌, ◌%◌, ◌≤◌, ◌<◌, ltb, leb, if◌then◌else◌, ◌≡◌, refl, sym, ◌∙◌, ap, ◌⊎◌, inl, inr,
  Bool, true, false, ◌&&◌, Bool-cases, Option, none, some, String, str_eq, eq_iff, List, [], ◌∷◌,
  All, select, sort, All-sort, ok, arith,
}
use lp_monitor.Prelude.Dict.{Dict, lookup, insert, lookup-insert}
use mathlib.Core.Path.{subst}
use lp_monitor.Domain.{BlockAnchor, LogTime, TimeSource}
use lp_monitor.Ingest.TimeIndex.{MinuteBoundary, find_anchor, comes_first, sorted_anchors}
use lp_monitor.Ingest.TimeIndex.Chain.{Chain, OnChain, find_anchor-OnChain, add_anchors-Added}
use lp_monitor.Ingest.LogTime.{
  TimedLog, minute_time, unresolved_time, boundary_is_valid, is_higher_than, is_lower_than, highest,
  lowest, around, by_upper, by_boundaries, by_neighbours, by_sample, assign_one, assign_all,
  is_earlier, assign_log_minutes,
}

abbrev pub IfSome : (BlockAnchor → Type 0) → Option BlockAnchor → Type 0
IfSome P none = Unit
IfSome P (some a) = P a

-- What the loop keeps is one of the blocks that pass.
module _ (passes : BlockAnchor → Bool) (P Q : BlockAnchor → Type 0)
    (passing : (a : BlockAnchor) → Q a → passes a ≡ true → P a) where
  chosen-IfSome :
      (a : BlockAnchor) (o : Option BlockAnchor) (t : Bool)
      → Q a
      → IfSome P o
      → IfSome P (if passes a && t then some a else o)
  chosen-IfSome a o t q h = kept (passes a && t) (λ e. passing a q (ground (arith, e)))
    where
      kept : (b : Bool) → (b ≡ true → P a) → IfSome P (if b then some a else o)
      kept true p = p refl
      kept false p = h

  pub highest-IfSome :
      (xs : List BlockAnchor) (o : Option BlockAnchor)
      → All Q xs
      → IfSome P o
      → IfSome P (highest passes xs o)
  unfolding highest
  highest-IfSome [] o qs h = h
  highest-IfSome (a ∷ xs) o qs h =
      highest-IfSome xs _ qs.1 (chosen-IfSome a o (is_higher_than a o) qs.0 h)

  pub lowest-IfSome :
      (xs : List BlockAnchor) (o : Option BlockAnchor)
      → All Q xs
      → IfSome P o
      → IfSome P (lowest passes xs o)
  unfolding lowest
  lowest-IfSome [] o qs h = h
  lowest-IfSome (a ∷ xs) o qs h =
      lowest-IfSome xs _ qs.1 (chosen-IfSome a o (is_lower_than a o) qs.0 h)

module _ (c : Chain) where
  -- A boundary at a whole minute, with both of its blocks on the chain.
  abbrev pub BoundaryOnChain : MinuteBoundary → Type 0
  BoundaryOnChain b = OnChain c b.before × OnChain c b.at × (b.timestamp_sec % 60 ≡ 0)

  -- What a valid boundary says of the chain.
  abbrev Divides : MinuteBoundary → Type 0
  Divides b =
      (b.timestamp_sec % 60 ≡ 0)
      × ((n : ℕ) → b.first_block ≤ n → b.timestamp_sec ≤ c.time_of n)
      × ((n : ℕ) → n < b.first_block → c.time_of n < b.timestamp_sec)

  divides : (b : MinuteBoundary) → BoundaryOnChain b → boundary_is_valid b ≡ true → Divides b
  divides b (before, at, whole) valid =
      let first : b.first_block ≡ b.at.number = ground (arith, valid) in
      let next : b.before.number + 1 ≡ b.at.number = ground (arith, valid) in
      let below : b.before.timestamp_sec < b.timestamp_sec = ground (arith, valid) in
      let above : b.timestamp_sec ≤ b.at.timestamp_sec = ground (arith, valid) in
      (
        whole,
        λ n h. omega (arith, above, at.1, c.in_order b.at.number n (omega (arith, first, h))),
        λ n h.
            omega (
              arith,
              below,
              before.1,
              c.in_order n b.before.number (omega (arith, first, next, h)),
            ),
      )

  -- The time of a block, or nothing.
  abbrev pub IsTrue : ℕ → LogTime → Type 0
  IsTrue n t = (t ≡ unresolved_time) ⊎ (t ≡ minute_time (c.time_of n))

  same_minute : (a n : ℕ) → a / 60 ≡ c.time_of n / 60 → IsTrue n (minute_time a)
  same_minute a n h = inr (
      ap
        (λ (m : ℕ). record {
          minute_start_sec = some (m * 60);
          exact_timestamp_sec = none;
          source = TimeSource.minute_boundary;
        })
        h)

  when-IsTrue :
      (n : ℕ) (t : Bool) (x y : LogTime)
      → (t ≡ true → IsTrue n x)
      → IsTrue n y
      → IsTrue n (if t then x else y)
  when-IsTrue n true x y p q = p refl
  when-IsTrue n false x y p q = q

  by_sample-IsTrue :
      (log : TimedLog) (o : Option BlockAnchor) (otherwise : LogTime)
      → IfSome (λ a. (a.number ≡ log.block_number) × OnChain c a) o
      → IsTrue log.block_number otherwise
      → IsTrue log.block_number (by_sample log o otherwise)
  by_sample-IsTrue log none otherwise h q = q
  by_sample-IsTrue log (some a) otherwise h q =
      when-IsTrue log.block_number _ _ _ (λ e. inl refl)
        (same_minute a.timestamp_sec log.block_number (ap (λ t. t / 60) (h.1.1 ∙ ap c.time_of h.0)))

  by_neighbours-IsTrue :
      (n : ℕ) (lower upper : Option BlockAnchor) (otherwise : LogTime)
      → IfSome (λ a. (a.number < n) × OnChain c a) lower
      → IfSome (λ a. (n < a.number) × OnChain c a) upper
      → IsTrue n otherwise
      → IsTrue n (by_neighbours lower upper otherwise)
  by_neighbours-IsTrue n none upper otherwise h k q = q
  by_neighbours-IsTrue n (some lower) none otherwise h k q = q
  by_neighbours-IsTrue n (some lower) (some upper) otherwise h k q =
      when-IsTrue n _ _ _
        (λ e.
          let equal : lower.timestamp_sec / 60 ≡ upper.timestamp_sec / 60 = ground (arith, e) in
          let from = c.in_order lower.number n (omega (arith, h.0)) in
          let to = c.in_order n upper.number (omega (arith, k.0)) in
          same_minute lower.timestamp_sec n (omega (arith, equal, from, to, h.1.1, k.1.1)))
        q

  by_upper-IsTrue :
      (n : ℕ) (prior : MinuteBoundary) (upper : Option BlockAnchor)
      → Divides prior
      → prior.first_block ≤ n
      → IfSome (λ a. (n ≤ a.number) × OnChain c a) upper
      → IsTrue n (by_upper prior upper)
  by_upper-IsTrue n prior none d first k = inl refl
  by_upper-IsTrue n prior (some upper) d first k =
      when-IsTrue n _ _ _
        (λ e.
          let near : upper.timestamp_sec < prior.timestamp_sec + 60 = ground (arith, e) in
          same_minute prior.timestamp_sec n
            (omega (arith, near, d.0, d.1 n first, c.in_order n upper.number k.0, k.1.1)))
        (inl refl)

  abbrev Lower : ℕ → Option MinuteBoundary → Type 0
  Lower n none = Unit
  Lower n (some b) = Divides b × (b.first_block ≤ n)

  abbrev Upper : ℕ → Option MinuteBoundary → Type 0
  Upper n none = Unit
  Upper n (some b) = Divides b × (n < b.first_block)

  behind :
      (n : ℕ) (anchors : List BlockAnchor)
      → All (OnChain c) anchors
      → IfSome (λ a. (n ≤ a.number) × OnChain c a) (lowest (λ a. leb n a.number) anchors none)
  behind n anchors on =
      lowest-IfSome (λ a. leb n a.number) (λ a. (n ≤ a.number) × OnChain c a) (OnChain c)
        (λ a q e. (ground (arith, e), q)) anchors none on tt

  by_boundaries-IsTrue :
      (n : ℕ) (anchors : List BlockAnchor) (prior next : Option MinuteBoundary)
      → All (OnChain c) anchors
      → Lower n prior
      → Upper n next
      → IsTrue n (by_boundaries n anchors prior next)
  by_boundaries-IsTrue n anchors none next on h k = inl refl
  by_boundaries-IsTrue n anchors (some prior) none on h k =
      by_upper-IsTrue n prior _ h.0 h.1 (behind n anchors on)
  by_boundaries-IsTrue n anchors (some prior) (some b) on h k =
      when-IsTrue n _ _ _
        (λ e.
          let full : prior.timestamp_sec + 60 ≡ b.timestamp_sec = ground (arith, e) in
          same_minute prior.timestamp_sec n (omega (arith, full, h.0.0, h.0.1 n h.1, k.0.2 n k.1)))
        (by_upper-IsTrue n prior _ h.0 h.1 (behind n anchors on))

  around-Sides :
      (n : ℕ) (bs : List MinuteBoundary) (prior : Option MinuteBoundary)
      → All Divides bs
      → Lower n prior
      → Lower n (around n bs prior).0 × Upper n (around n bs prior).1
  unfolding around
  around-Sides n [] prior ds h = (h, tt)
  around-Sides n (b ∷ bs) prior ds h = elim (Bool-cases (leb b.first_block n)) [
    | inl e ↦ rw e (around-Sides n bs (some b) ds.1 (ds.0, ground (arith, e)))
    | inr e ↦ rw e (h, (ds.0, ground (arith, e)))
  ]

  sampled :
      (n : ℕ) (anchors : List BlockAnchor) (o : Option BlockAnchor)
      → All (OnChain c) anchors
      → find_anchor n anchors ≡ o
      → IfSome (λ a. (a.number ≡ n) × OnChain c a) o
  sampled n anchors none on e = tt
  sampled n anchors (some a) on e = find_anchor-OnChain c n anchors a on e

  assign_one-IsTrue :
      (anchors : List BlockAnchor) (usable : List MinuteBoundary) (log : TimedLog)
      → All (OnChain c) anchors
      → All Divides usable
      → IsTrue log.block_number (assign_one anchors usable log)
  unfolding assign_one
  assign_one-IsTrue anchors usable log on ds =
      let n = log.block_number in
      let (lower, upper) = around-Sides n usable none ds tt in
      by_sample-IsTrue log _ _ (sampled n anchors _ on refl) (
        by_neighbours-IsTrue n _ _ _
          (highest-IfSome (λ a. ltb a.number n) (λ a. (a.number < n) × OnChain c a) (OnChain c)
            (λ a q e. (ground (arith, e), q)) anchors none on tt)
          (lowest-IfSome (λ a. ltb n a.number) (λ a. (n < a.number) × OnChain c a) (OnChain c)
            (λ a q e. (ground (arith, e), q)) anchors none on tt)
          (by_boundaries-IsTrue n anchors _ _ on lower upper))

  -- Every time that is in the table is that of the block of its key.
  abbrev AllTrue : (String → ℕ) → Dict LogTime → Type 0
  AllTrue block_of d = (k : String) (t : LogTime) → lookup k d ≡ some t → IsTrue (block_of k) t

  assign_all-AllTrue :
      (block_of : String → ℕ) (time_of : TimedLog → LogTime)
      → ((log : TimedLog) → IsTrue log.block_number (time_of log))
      → (logs : List TimedLog) (d : Dict LogTime)
      → All (λ log. log.block_number ≡ block_of log.key) logs
      → AllTrue block_of d
      → AllTrue block_of (assign_all time_of logs d)
  unfolding assign_all
  assign_all-AllTrue block_of time_of each [] d keys h = h
  assign_all-AllTrue block_of time_of each (log ∷ logs) d keys h =
      assign_all-AllTrue block_of time_of each logs _ keys.1
        (λ k t e. added k t (lookup-insert log.key k _ d) e)
    where
      added :
          (k : String) (t : LogTime)
          → lookup k (insert log.key (time_of log) d)
            ≡ (if str_eq log.key k then some (time_of log) else lookup k d)
          → lookup k (insert log.key (time_of log) d) ≡ some t
          → IsTrue (block_of k) t
      added k t set e = elim (Bool-cases (str_eq log.key k)) [
        | inl same ↦
            let here : some (time_of log) ≡ some t = rw same at (sym set ∙ e) in
            let value : time_of log ≡ t = cc here in
            let key : log.key ≡ k = ground (arith, same, eq_iff log.key k) in
            subst (λ u. IsTrue (block_of k) u) value
              (subst (λ n. IsTrue n (time_of log)) (keys.0 ∙ ap block_of key) (each log))
        | inr other ↦ h k t (rw other at (sym set ∙ e))
      ]

  usable-Divides :
      (bs : List MinuteBoundary)
      → All BoundaryOnChain bs
      → All Divides (select boundary_is_valid bs)
  unfolding select
  usable-Divides [] h = tt
  usable-Divides (b ∷ bs) h = elim (Bool-cases (boundary_is_valid b)) [
    | inl valid ↦ rw valid (divides b h.0 valid, usable-Divides bs h.1)
    | inr other ↦ rw other (usable-Divides bs h.1)
  ]

  sorted_on_chain :
      (anchors : List BlockAnchor)
      → All (OnChain c) anchors
      → (xs : List BlockAnchor) × (sorted_anchors anchors ≡ ok xs) × All (OnChain c) xs
  unfolding sorted_anchors
  sorted_on_chain anchors on =
      let (cache, e, h) = add_anchors-Added c anchors [] on tt in
      rw e (sort comes_first cache, refl, All-sort comes_first (OnChain c) cache h)

-- With sampled blocks and boundaries of a chain, the boundaries at whole minutes, and keys that tell
-- the blocks of the logs: each time that the table has for a key is unresolved, or the minute in
-- which the chain has the block of that key.
pub assigned_minute_is_true :
    (c : Chain) (block_of : String → ℕ) (logs : List TimedLog) (anchors : List BlockAnchor)
    (boundaries : List MinuteBoundary)
    → All (OnChain c) anchors
    → All (BoundaryOnChain c) boundaries
    → All (λ log. log.block_number ≡ block_of log.key) logs
    → (key : String) (t : LogTime)
    → lookup key (assign_log_minutes logs anchors boundaries) ≡ some t
    → (t ≡ unresolved_time) ⊎ (t ≡ minute_time (c.time_of (block_of key)))
unfolding assign_log_minutes lookup
assigned_minute_is_true c block_of logs anchors boundaries on bs keys key t e =
    let (xs, sorted, on_xs) = sorted_on_chain c anchors on in
    let usable = sort is_earlier (select boundary_is_valid boundaries) in
    let here : lookup key (assign_all (assign_one xs usable) logs []) ≡ some t = rw sorted at e in
    assign_all-AllTrue c block_of (assign_one xs usable)
      (λ log.
        assign_one-IsTrue c xs usable log on_xs
          (All-sort is_earlier (Divides c) _ (usable-Divides c boundaries bs)))
      logs [] keys (λ k u f. cc) key t here

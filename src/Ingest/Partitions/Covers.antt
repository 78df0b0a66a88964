-- ===== src/Ingest/Partitions/Covers.antt =====
-- About `completePartitions` of src/ingest/completeness.ts.
use lp_monitor.Prelude.{
  ℕ, ◌≤◌, leb, ◌≡◌, refl, ap, Bool, true, ◌&&◌, Bool-cases, inl, inr, Option, none, some, String,
  str_eq, eq_iff, List, [], ◌∷◌, ◌++◌, map, select, any, every, arith,
}
use mathlib.Core.Path.{subst}
use lp_monitor.Prelude.Text.{same_optional, to_lower_case}
use lp_monitor.Ingest.Completeness.{
  BlockInterval, FetchShardManifest, RecordedRangeBatch, covers_intervals,
}
use lp_monitor.Ingest.Completeness.Intervals.{holds, Covered, covers_intervals-iff-Covered}
use lp_monitor.Ingest.Partitions.{
  is_full, Selector, Key, same_selector, same_key, entries_for, prepend, expand, entries_of,
  ranges_of, all_covered, complete_partitions,
}

abbrev spans : RecordedRangeBatch → Key × BlockInterval → Bool
spans batch e = leb e.1.from_block batch.from_block && leb batch.to_block e.1.to_block

entries_for-spans :
    (batch : RecordedRangeBatch) (s : FetchShardManifest) (selectors : List Selector)
    (rest : List (Key × BlockInterval))
    → is_full batch s ≡ true
    → every (spans batch) rest ≡ true
    → every (spans batch) (entries_for s selectors ++ rest) ≡ true
unfolding every
entries_for-spans batch s [] rest f h = h
entries_for-spans batch s (x ∷ xs) rest f h =
    ground (arith, f, entries_for-spans batch s xs rest f h)

prepend-some :
    (s : FetchShardManifest) (a : Option (List Selector)) (b : Option (List (Key × BlockInterval)))
    (es : List (Key × BlockInterval))
    → prepend s a b ≡ some es
    → (selectors : List Selector) × (rest : List (Key × BlockInterval)) × (b ≡ some rest)
      × (entries_for s selectors ++ rest ≡ es)
prepend-some s none b es e = cc
prepend-some s (some selectors) none es e = cc
prepend-some s (some selectors) (some rest) es e = (selectors, rest, refl, cc)

and_both : (a b : Bool) → (a && b) ≡ true → (a ≡ true) × (b ≡ true)
and_both a b h = ground arith

entries_of-spans :
    (batch : RecordedRangeBatch) (shards : List FetchShardManifest)
    (es : List (Key × BlockInterval))
    → every (is_full batch) shards ≡ true
    → entries_of shards ≡ some es
    → every (spans batch) es ≡ true
unfolding every entries_of
entries_of-spans batch [] es f e =
    subst
      (λ (o : Option (List (Key × BlockInterval))).
        every (spans batch) (elim o [ none ↦ [] | some x ↦ x ]) ≡ true)
      e refl
entries_of-spans batch (s ∷ ss) es f e =
    let (here, later) = and_both _ _ f in
    let (selectors, rest, known, made) =
      prepend-some s
        (expand (map (λ a. some (to_lower_case a) ∷ []) s.request.address) s.request.topics)
        (entries_of ss) es e in
    subst (λ x. every (spans batch) x ≡ true) made
      (entries_for-spans batch s selectors rest here (entries_of-spans batch ss rest later known))

-- A partition whose entries all span the batch holds each of its blocks.
spanned-holds :
    (batch : RecordedRangeBatch) (key : Key) (n : ℕ) (es : List (Key × BlockInterval))
    → every (spans batch) es ≡ true
    → any (same_key key) es ≡ true
    → batch.from_block ≤ n
    → n ≤ batch.to_block
    → any (holds n) (map (λ (e : Key × BlockInterval). e.1) (select (same_key key) es)) ≡ true
unfolding every any select
spanned-holds batch key n [] s k a b = k
spanned-holds batch key n (e ∷ es) s k a b =
    let (here, later) = and_both (spans batch e) (every (spans batch) es) s in
    elim (Bool-cases (same_key key e)) [
      | inl same ↦ rw same (ground arith)
      | inr other ↦ rw other (spanned-holds batch key n es later (rw other at k) a b)
    ]

same_optional-eq : (a b : Option String) → same_optional a b ≡ true → a ≡ b
same_optional-eq none none h = refl
same_optional-eq (some a) none h = cc
same_optional-eq none (some b) h = cc
same_optional-eq (some a) (some b) h = ap some ((eq_iff a b).0 h)

same_selector-eq : (s t : Selector) → same_selector s t ≡ true → s ≡ t
unfolding same_selector
same_selector-eq [] [] h = refl
same_selector-eq [] (b ∷ t) h = cc
same_selector-eq (a ∷ s) [] h = cc
same_selector-eq (a ∷ s) (b ∷ t) h =
    let (one, rest) = and_both _ _ h in
    (λ i. same_optional-eq a b one i ∷ same_selector-eq s t rest i)

same_key-eq : (key : Key) (e : Key × BlockInterval) → same_key key e ≡ true → e.0 ≡ key
same_key-eq key e h =
    let (filter, selector) = and_both (str_eq e.0.0 key.0) (same_selector e.0.1 key.1) h in
    (λ i. ((eq_iff e.0.0 key.0).0 filter i, same_selector-eq e.0.1 key.1 selector i))

-- What holds of every entry's partition holds of a key that occurs.
every-key :
    (q : Key → Bool) (key : Key) (es : List (Key × BlockInterval))
    → every (λ (e : Key × BlockInterval). q e.0) es ≡ true
    → any (same_key key) es ≡ true
    → q key ≡ true
unfolding every any
every-key q key [] h k = cc
every-key q key (e ∷ es) h k =
    let (here, later) = and_both (q e.0) _ h in
    elim (Bool-cases (same_key key e)) [
      | inl same ↦ subst (λ x. q x ≡ true) (same_key-eq key e same) here
      | inr other ↦ every-key q key es later (rw other at k)
    ]

-- If the partitions of a batch are complete, every block of the batch lies in an interval of each
-- filter and selector that some shard asked for; this holds of the path for shards that all span
-- the batch as well as of the path that expands the selectors.
pub partitions-Covered :
    (batch : RecordedRangeBatch) (es : List (Key × BlockInterval)) (key : Key)
    → complete_partitions batch ≡ true
    → entries_of batch.shards ≡ some es
    → any (same_key key) es ≡ true
    → Covered (ranges_of key es) batch.from_block batch.to_block
unfolding complete_partitions ranges_of
partitions-Covered batch es key h e k = elim (Bool-cases (every (is_full batch) batch.shards)) [
  | inl full ↦
      λ n a b. spanned-holds batch key n es (entries_of-spans batch batch.shards es full e) k a b
  | inr sparse ↦
      let covered : all_covered batch (some es) ≡ true =
        subst (λ o. all_covered batch o ≡ true) e (rw sparse at h) in
      (covers_intervals-iff-Covered (ranges_of key es) batch.from_block batch.to_block).0 (
        every-key (λ x. covers_intervals (ranges_of x es) batch.from_block batch.to_block) key es
          (and_both _ _ covered).1 k)
]

-- ===== src/Ingest/Completeness/Proven.antt =====
-- About `verifySuccessfulShardCoverage` of src/ingest/completeness.ts.
use lp_monitor.Prelude.{
  ℕ, ◌+◌, ◌==◌, ◌≤◌, length, ◌++◌, ltb, leb, if◌then◌else◌, ◌≡◌, refl, Bool, true, String, eq_iff,
  some, List, [], ◌∷◌, any, every, All, map, arith, ok, >>=-eq-ok, ok_inj,
}
use lp_monitor.Ingest.Completeness.{
  BlockInterval, RawLog, FetchShardManifest, RecordedRangeBatch, find_log, distinct_keys, all_keys,
  contains, check_ranges, check_filters, filter_ranges, check_shards, check_logs,
  verify_successful_shard_coverage,
}
use lp_monitor.Ingest.Completeness.Shards.{
  require-then, required, IsReturned, IsEvidence, ids_of, check_shards-IsEvidence,
}
use lp_monitor.Ingest.Completeness.Keys.{
  contains-every, distinct_keys-distinct, every-distinct_keys, distinct_keys-contains,
  all_keys-contains,
}
use lp_monitor.Ingest.Completeness.Intervals.{holds, Covered}

check_ranges-Covered :
    (next to : ℕ) (rs : List BlockInterval) (u : Unit {0})
    → check_ranges next to rs ≡ ok u
    → Covered rs next to
unfolding check_ranges any
check_ranges-Covered next to [] u e n a b = let h = required (ltb to next) _ u e in ground arith
check_ranges-Covered next to (r ∷ rs) u e n a b =
    let (here, later) = require-then _ _ _ u e in
    let rest : (if leb next r.to_block then r.to_block + 1 else next) ≤ n
        → any (holds n) rs ≡ true =
      λ p.
        check_ranges-Covered (if leb next r.to_block then r.to_block + 1 else next) to rs u later n
          p b in
    ground (arith, rest, here)

check_filters-Covered :
    (batch : RecordedRangeBatch) (shards rest : List FetchShardManifest) (u : Unit {0})
    → check_filters batch shards rest ≡ ok u
    → All
        (λ (s : FetchShardManifest).
          Covered (filter_ranges s.filter_id shards) batch.from_block batch.to_block)
        rest
unfolding check_filters
check_filters-Covered batch shards [] u e = tt
check_filters-Covered batch shards (s ∷ rest) u e =
    let (v, one, more) =
      >>=-eq-ok (check_ranges batch.from_block batch.to_block (filter_ranges s.filter_id shards)) _
        e in
    (check_ranges-Covered _ _ _ v one, check_filters-Covered batch shards rest u more)

abbrev keys_of : List RawLog → List String
keys_of = map (λ (l : RawLog). l.key)

found-contains :
    (key : String) (logs : List RawLog) (l : RawLog)
    → find_log key logs ≡ some l
    → contains key (keys_of logs) ≡ true
unfolding find_log contains any
found-contains key [] l e = ground (arith, e)
found-contains key (x ∷ logs) l e = ground (arith, found-contains key logs l)

returned-every :
    (batch : RecordedRangeBatch) (s : FetchShardManifest) (keys : List String)
    → All (IsReturned batch s) keys
    → every (λ k. contains k (keys_of batch.logs)) keys ≡ true
unfolding every
returned-every batch s [] all = refl
returned-every batch s (k ∷ ks) (one, all) =
    rw (found-contains k batch.logs one.0 one.1) (returned-every batch s ks all)

every-append :
    (test : String → Bool) (xs ys : List String)
    → every test xs ≡ true
    → every test ys ≡ true
    → every test (xs ++ ys) ≡ true
unfolding every
every-append test [] ys h k = k
every-append test (x ∷ xs) ys h k = ground (arith, every-append test xs ys)

evidence-every :
    (batch : RecordedRangeBatch) (shards : List FetchShardManifest)
    → All (IsEvidence batch) shards
    → every (λ k. contains k (keys_of batch.logs)) (all_keys shards) ≡ true
unfolding every all_keys
evidence-every batch [] all = refl
evidence-every batch (s ∷ rest) (one, all) =
    every-append (λ k. contains k (keys_of batch.logs)) s.log_keys (all_keys rest)
      (returned-every batch s s.log_keys one.2) (evidence-every batch rest all)

length-keys_of : (logs : List RawLog) → length (keys_of logs) ≡ length logs
length-keys_of [] = refl
length-keys_of (l ∷ logs) = omega (arith, length-keys_of logs)

-- The keys of the shards are keys of the batch, and as many, so the shards list each of them.
every_log_listed :
    (batch : RecordedRangeBatch) (shards : List FetchShardManifest)
    → All (IsEvidence batch) shards
    → (length (distinct_keys [] (all_keys shards)) == length batch.logs) ≡ true
    → (key : String) → contains key (keys_of batch.logs) ≡ true
    → any (λ (s : FetchShardManifest). contains key s.log_keys) shards ≡ true
every_log_listed batch shards all counted key h =
    let inside =
      every-distinct_keys (λ k. contains k (keys_of batch.logs)) [] (all_keys shards)
        (evidence-every batch shards all) in
    all_keys-contains key shards (
      distinct_keys-contains key [] (all_keys shards) (
        contains-every (distinct_keys [] (all_keys shards)) (keys_of batch.logs)
          (distinct_keys-distinct [] (all_keys shards)) inside
          (ground (arith, length-keys_of batch.logs, counted)) key h))

every_listed :
    (shards : List FetchShardManifest) (logs : List RawLog)
    → ((key : String)
        → contains key (keys_of logs) ≡ true
        → any (λ (s : FetchShardManifest). contains key s.log_keys) shards ≡ true)
    → every
        (λ (l : RawLog). any (λ (s : FetchShardManifest). contains l.key s.log_keys) shards)
        logs
      ≡ true
unfolding every contains any
every_listed shards [] h = refl
every_listed shards (l ∷ logs) h =
    rw (h l.key (here l.key (keys_of logs)))
      (every_listed shards logs (λ key inside. h key (there key l.key (keys_of logs) inside)))
  where
    here : (x : String) (xs : List String) → contains x (x ∷ xs) ≡ true
    here x xs = ground (arith, eq_iff x x)

    there : (x y : String) (xs : List String) → contains x xs ≡ true → contains x (y ∷ xs) ≡ true
    there x y xs e = ground (arith, e)

-- A range that passes the check is complete: the shards returned are the expected ones in their
-- order, each succeeded, asked for blocks of the range only, and lists only keys of logs of the batch
-- that lie in its blocks and match its filter; the shards of each filter together cover every block
-- of the range, and the key of every log of the batch is listed by one of the shards.
pub verified-is_complete :
    (batch : RecordedRangeBatch) (shards : List FetchShardManifest)
    → verify_successful_shard_coverage batch ≡ ok shards
    → (ids_of shards ≡ batch.expected_shard_ids)
      × All (IsEvidence batch) shards
      × All
          (λ (s : FetchShardManifest).
            Covered (filter_ranges s.filter_id shards) batch.from_block batch.to_block)
          shards
      × (every
            (λ (l : RawLog). any (λ (s : FetchShardManifest). contains l.key s.log_keys) shards)
            batch.logs
          ≡ true)
unfolding verify_successful_shard_coverage
verified-is_complete batch shards e =
    let (a, e1) = require-then _ _ _ shards e in
    let (b, e2) = require-then _ _ _ shards e1 in
    let (c, e3) = require-then _ _ _ shards e2 in
    let (d, e4) = require-then _ _ _ shards e3 in
    let (f, e5) = require-then _ _ _ shards e4 in
    let (g, e6) = require-then _ _ _ shards e5 in
    let (h, e7) = require-then _ _ _ shards e6 in
    let (i, e8) = require-then _ _ _ shards e7 in
    let (j, e9) = require-then _ _ _ shards e8 in
    let (k, e10) = require-then _ _ _ shards e9 in
    let (u, logged, e11) = >>=-eq-ok (check_logs batch [] batch.logs) _ e10 in
    let (found, checked, e12) = >>=-eq-ok (check_shards batch batch.expected_shard_ids) _ e11 in
    let (v, filtered, e13) = >>=-eq-ok (check_filters batch found found) _ e12 in
    let (counted, e14) = require-then _ _ _ shards e13 in
    let (names, evidence) = check_shards-IsEvidence batch batch.expected_shard_ids found checked in
    rw (← ok_inj e14) (
      names,
      evidence,
      check_filters-Covered batch found found v filtered,
      every_listed found batch.logs (every_log_listed batch found evidence counted),
    )

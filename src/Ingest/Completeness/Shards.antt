-- ===== src/Ingest/Completeness/Shards.antt =====
-- About what one shard proves in `verifySuccessfulShardCoverage` of src/ingest/completeness.ts.
use lp_monitor.Prelude.{
  ◌≤◌, leb, ◌≡◌, refl, Bool, true, false, not, ◌&&◌, String, eq_iff, Option, none, some, List, [],
  ◌∷◌, All, map, arith, Outcome, ok, throw, ◌>>=◌, >>=-eq-ok, ok_inj,
}
use mathlib.Core.Path.{subst}
use lp_monitor.Ingest.Completeness.{
  RawLog, FetchShardManifest, RecordedRangeBatch, log_in_request, matches_request, find_log,
  check_keys, require, is_empty_text, is_nil, check_shard, check_shards, find_shard,
}

pub require-then :
    {A : Type 0} (t : Bool) (m : String) (k : Unit {0} → Outcome A) (x : A)
    → (require t m >>= k) ≡ ok x
    → (t ≡ true) × (k tt ≡ ok x)
unfolding require
require-then true m k x e = (refl, e)
require-then false m k x e = ground (arith, e)

pub required : (t : Bool) (m : String) (u : Unit {0}) → require t m ≡ ok u → t ≡ true
unfolding require
required t m u e = ground arith

found-id :
    (id : String) (shards : List FetchShardManifest) (s : FetchShardManifest)
    → find_shard id shards ≡ some s
    → s.shard_id ≡ id
unfolding find_shard
found-id id [] s e = ground arith
found-id id (x ∷ xs) s e = ground (arith, eq_iff x.shard_id id, found-id id xs s)

-- A key that a shard lists is of a log of the batch, in the blocks and of the filter it asked for.
abbrev pub IsReturned : RecordedRangeBatch → FetchShardManifest → String → Type 0
IsReturned batch s key =
    (log : RawLog) × (find_log key batch.logs ≡ some log)
    × (s.request.from_block ≤ log.block_number)
    × (log.block_number ≤ s.request.to_block)
    × (matches_request log s.request ≡ true)

found-IsReturned :
    (batch : RecordedRangeBatch) (s : FetchShardManifest) (key : String) (o : Option RawLog)
    (u : Unit {0})
    → find_log key batch.logs ≡ o
    → log_in_request s o ≡ ok u
    → IsReturned batch s key
found-IsReturned batch s key none u found e = ground (arith, e)
found-IsReturned batch s key (some log) u found e =
    let (range, e1) = require-then _ _ _ u e in
    (log, found, ground (arith, range), ground (arith, range), required _ _ u e1)

check_keys-IsReturned :
    (batch : RecordedRangeBatch) (s : FetchShardManifest) (keys : List String) (u : Unit {0})
    → check_keys batch.logs s keys ≡ ok u
    → All (IsReturned batch s) keys
unfolding check_keys
check_keys-IsReturned batch s [] u e = tt
check_keys-IsReturned batch s (k ∷ ks) u e =
    let (v, one, more) = >>=-eq-ok (log_in_request s (find_log k batch.logs)) _ e in
    (
      found-IsReturned batch s k (find_log k batch.logs) v refl one,
      check_keys-IsReturned batch s ks u more,
    )

-- What is known of one shard after its check.
abbrev pub IsEvidence : RecordedRangeBatch → FetchShardManifest → Type 0
IsEvidence batch s =
    (s.success ≡ true)
    × ((leb batch.from_block s.request.from_block && leb s.request.to_block batch.to_block) ≡ true)
    × All (IsReturned batch s) s.log_keys

middle : (a b c d f : Bool) → (a && b && c && d && f) ≡ true → (c && d) ≡ true
middle a b c d f h = ground arith

check_shard-IsEvidence :
    (batch : RecordedRangeBatch) (s : FetchShardManifest) (u : Unit {0})
    → check_shard batch s ≡ ok u
    → IsEvidence batch s
unfolding check_shard
check_shard-IsEvidence batch s u e =
    let (a, e1) = require-then _ _ _ u e in
    let (b, e2) = require-then _ _ _ u e1 in
    let (success, e3) = require-then _ _ _ u e2 in
    let (c, e4) = require-then _ _ _ u e3 in
    let (range, e5) = require-then _ _ _ u e4 in
    let (f, e6) = require-then _ _ _ u e5 in
    let (g, e7) = require-then _ _ _ u e6 in
    (
      success,
      middle (not (is_empty_text s.filter_id)) (not (is_nil s.request.address))
          (leb batch.from_block s.request.from_block) (leb s.request.to_block batch.to_block)
          (leb s.request.from_block s.request.to_block) range,
      check_keys-IsReturned batch s s.log_keys u e7,
    )

checked_one :
    (batch : RecordedRangeBatch) (id : String) (ids : List String) (o : Option FetchShardManifest)
    (shards : List FetchShardManifest)
    → find_shard id batch.shards ≡ o
    → (elim o [
      | none ↦ throw "Missing fetch shard"
      | some shard ↦
          check_shard batch shard >>= λ _. check_shards batch ids >>= λ rest. ok (shard ∷ rest)
    ])
      ≡ ok shards
    → (s : FetchShardManifest) × (rest : List FetchShardManifest) × (s.shard_id ≡ id)
      × IsEvidence batch s
      × (check_shards batch ids ≡ ok rest)
      × (s ∷ rest ≡ shards)
checked_one batch id ids none shards found e = ground arith
checked_one batch id ids (some s) shards found e =
    let (u, checked, more) = >>=-eq-ok (check_shard batch s) _ e in
    let (rest, others, made) = >>=-eq-ok (check_shards batch ids) _ more in
    (
      s,
      rest,
      found-id id batch.shards s found,
      check_shard-IsEvidence batch s u checked,
      others,
      ok_inj made,
    )

abbrev pub ids_of : List FetchShardManifest → List String
ids_of = map (λ (s : FetchShardManifest). s.shard_id)

pub check_shards-IsEvidence :
    (batch : RecordedRangeBatch) (ids : List String) (shards : List FetchShardManifest)
    → check_shards batch ids ≡ ok shards
    → (ids_of shards ≡ ids) × All (IsEvidence batch) shards
unfolding check_shards
check_shards-IsEvidence batch [] shards e =
    subst (λ x. (ids_of x ≡ []) × All (IsEvidence batch) x) (ok_inj e) (refl, tt)
check_shards-IsEvidence batch (id ∷ ids) shards e =
    let (s, rest, same, evidence, others, made) = checked_one batch id ids _ shards refl e in
    let (names, all) = check_shards-IsEvidence batch ids rest others in
    subst (λ x. (ids_of x ≡ id ∷ ids) × All (IsEvidence batch) x) made
      ((λ i. same i ∷ names i), (evidence, all))

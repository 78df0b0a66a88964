-- ===== src/Tests/Ranges.antt =====
-- Runs of src/ingest/completeness.ts and src/state/observations.ts.
use lp_monitor.Prelude.{
  ℕ, ◌≡◌, refl, ◌↔◌, true, none, some, String, List, [], ◌∷◌, All, any, every, select, sort,
  insert_sorted, Outcome, ok, throw,
}
use lp_monitor.Prelude.Text.{to_lower_case}
use lp_monitor.Domain.{PoolRef, pool_registration_id}
use lp_monitor.Ingest.Completeness.{
  BlockInterval, RawLog, FetchShardManifest, RecordedRangeBatch, contains, covers_intervals,
  filter_ranges, is_distinct, distinct_keys, all_keys, verify_successful_shard_coverage,
  check_shards, check_shard, check_keys, check_logs, check_filters, check_ranges, require,
  matches_request, topics_match, find_log, find_shard,
}
use lp_monitor.Ingest.Completeness.Intervals.{Covered, covers_intervals-iff-Covered}
use lp_monitor.Ingest.Completeness.Shards.{ids_of, IsEvidence}
use lp_monitor.Ingest.Completeness.Proven.{verified-is_complete}
use lp_monitor.Ingest.Partitions.{
  Key, same_selector, same_key, expand, entries_of, ranges_of, complete_partitions,
}
use lp_monitor.Ingest.Partitions.Covers.{partitions-Covered}
use lp_monitor.Ingest.Completeness.{covers_from}
use lp_monitor.State.Observations.{
  EventKind, PoolEvent, PoolObservation, observe_pool, is_earlier, compare_position,
}
use lp_monitor.State.Observations.Order.{Reaches, AllReached, observe_all, observe_all_latest}

abbrev interval : ℕ → ℕ → BlockInterval
interval from to = record { from_block = from; to_block = to }

covers_intervals-iff-Covered_example :
    (covers_intervals (interval 5 9 ∷ interval 1 5 ∷ []) 2 8 ≡ true)
    ↔ Covered (interval 5 9 ∷ interval 1 5 ∷ []) 2 8
covers_intervals-iff-Covered_example =
    covers_intervals-iff-Covered (interval 5 9 ∷ interval 1 5 ∷ []) 2 8

abbrev shard : String → ℕ → ℕ → FetchShardManifest
shard id from to = record {
  shard_id = id;
  filter_id = "swaps";
  request = record { address = "0xAb" ∷ []; from_block = from; to_block = to; topics = [] };
  success = true;
  response_hash = some "0x01";
  error = none;
  log_count = 0;
  log_keys = [];
}

abbrev two_shards : RecordedRangeBatch
two_shards = record {
  from_block = 1;
  to_block = 8;
  end_number = 8;
  complete = true;
  manifest_version = 1;
  filter_version = "f1";
  expected_shard_ids = "one" ∷ "two" ∷ [];
  shards = shard "two" 5 8 ∷ record (shard "one" 1 4) { log_count = 1; log_keys = "k" ∷ [] } ∷ [];
  logs = record { key = "k"; block_number = 3; address = "0xaB"; topics = [] } ∷ [];
}

abbrev shards_of : Outcome (List FetchShardManifest) → List FetchShardManifest
shards_of (ok shards) = shards
shards_of (throw message) = []

abbrev proven : List FetchShardManifest
proven = shards_of (verify_successful_shard_coverage two_shards)

is_proven : verify_successful_shard_coverage two_shards ≡ ok proven
unfolding verify_successful_shard_coverage check_shards check_shard check_keys check_logs
    check_filters check_ranges require matches_request topics_match find_log find_shard
    filter_ranges is_distinct distinct_keys all_keys contains any every select sort insert_sorted
    to_lower_case
is_proven = refl

verified-is_complete_example :
    (ids_of proven ≡ "one" ∷ "two" ∷ [])
    × All (IsEvidence two_shards) proven
    × All (λ (s : FetchShardManifest). Covered (filter_ranges s.filter_id proven) 1 8) proven
    × (every
          (λ (l : RawLog). any (λ (s : FetchShardManifest). contains l.key s.log_keys) proven)
          two_shards.logs
        ≡ true)
verified-is_complete_example = verified-is_complete two_shards proven is_proven

abbrev event : EventKind → ℕ → PoolEvent
event kind block = record {
  kind = kind;
  pool = some (PoolRef.v3 "0xAB");
  ref = record {
    block_hash = "0x01";
    block_number = block;
    transaction_hash = "0x02";
    transaction_index = 0;
    log_index = 0;
  };
  body = "";
}

abbrev nothing_seen : PoolObservation
nothing_seen = record { pool = PoolRef.v3 "0xab"; last_swap = none; last_liquidity_action = none }

abbrev seen_of : Outcome PoolObservation → PoolObservation
seen_of (ok o) = o
seen_of (throw message) = nothing_seen

abbrev one_seen : PoolObservation
one_seen = record nothing_seen { last_swap = some (event EventKind.swap 3) }

abbrev arrivals : List PoolEvent
arrivals = event EventKind.swap 4 ∷ event EventKind.liquidity 6 ∷ event EventKind.swap 2 ∷ []

abbrev seen : PoolObservation
seen = seen_of (observe_all one_seen arrivals)

is_seen : observe_all one_seen arrivals ≡ ok seen
unfolding observe_all observe_pool pool_registration_id is_earlier compare_position to_lower_case
is_seen = refl

observe_all_latest_example :
    Reaches one_seen.last_swap seen.last_swap
    × Reaches one_seen.last_liquidity_action seen.last_liquidity_action
    × AllReached seen arrivals
observe_all_latest_example = observe_all_latest one_seen arrivals seen is_seen

abbrev entries : List (Key × BlockInterval)
entries =
    (("swaps", some "0xab" ∷ []), interval 5 8) ∷ (("swaps", some "0xab" ∷ []), interval 1 4) ∷ []

are_complete : complete_partitions two_shards ≡ true
unfolding complete_partitions entries_of expand ranges_of covers_intervals covers_from same_selector
    to_lower_case every select sort insert_sorted
are_complete = refl

are_entries : entries_of two_shards.shards ≡ some entries
unfolding entries_of expand to_lower_case
are_entries = refl

key_occurs : any (same_key ("swaps", some "0xab" ∷ [])) entries ≡ true
unfolding any same_selector
key_occurs = refl

partitions-Covered_example : Covered (ranges_of ("swaps", some "0xab" ∷ []) entries) 1 8
partitions-Covered_example =
    partitions-Covered two_shards entries ("swaps", some "0xab" ∷ []) are_complete are_entries
      key_occurs

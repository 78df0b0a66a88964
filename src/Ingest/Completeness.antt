-- ===== src/Ingest/Completeness.antt =====
-- src/ingest/completeness.ts: when the fetch shards of a recorded range prove that it is complete.
-- Blocks are natural numbers, so a height below 0 does not arise.
pub mod Intervals
pub mod Keys
pub mod Proven
pub mod Shards
use lp_monitor.Prelude.{
  ℕ, suc, ◌+◌, ◌*◌, ◌==◌, ltb, leb, if◌then◌else◌, Bool, true, false, not, ◌&&◌, ◌||◌, Option, none,
  some, is_some, String, str_eq, List, [], ◌∷◌, ◌++◌, map, length, get_elem?, select, any, every,
  sort, Outcome, ok, throw, ◌>>=◌,
}
use lp_monitor.Prelude.Text.{to_lower_case}
use lp_monitor.Metrics.Baseline.{is_safe_integer}

-- A topic of a request: anything, one value, or one of several.
pub data Topic : Type 0 where
  anything : Topic
  one : String → Topic
  one_of : List String → Topic

pub record Request : Type 0 where
  pub address : List String
  pub from_block : ℕ
  pub to_block : ℕ
  pub topics : List Topic

-- `key` is `rawLogKey` of the log.
pub record RawLog : Type 0 where
  pub key : String
  pub block_number : ℕ
  pub address : String
  pub topics : List String

pub record FetchShardManifest : Type 0 where
  pub shard_id : String
  pub filter_id : String
  pub request : Request
  pub success : Bool
  pub response_hash : Option String
  pub error : Option String
  pub log_count : ℕ
  pub log_keys : List String

pub record RecordedRangeBatch : Type 0 where
  pub from_block : ℕ
  pub to_block : ℕ
  pub end_number : ℕ
  pub complete : Bool
  pub manifest_version : ℕ
  pub filter_version : String
  pub expected_shard_ids : List String
  pub shards : List FetchShardManifest
  pub logs : List RawLog

pub record BlockInterval : Type 0 where
  pub from_block : ℕ
  pub to_block : ℕ

abbrev pub starts_before : BlockInterval → BlockInterval → Bool
starts_before a b = ltb a.from_block b.from_block

-- The loop of `coversIntervals`.
unfoldable pub covers_from : ℕ → ℕ → List BlockInterval → Bool
covers_from next to [] = false
covers_from next to (r ∷ rs) =
    let after = if leb next r.to_block then r.to_block + 1 else next in
    let rest = covers_from after to rs in
    if ltb next r.from_block then false else if ltb to after then true else rest

unfoldable pub covers_intervals : List BlockInterval → ℕ → ℕ → Bool
covers_intervals ranges from to =
    if ltb to from then true else covers_from from to (sort starts_before ranges)

unfoldable pub contains : String → List String → Bool
contains x = any (λ y. str_eq y x)

unfoldable pub is_distinct : List String → Bool
is_distinct [] = true
is_distinct (x ∷ xs) = not (contains x xs) && is_distinct xs

abbrev pub is_empty_text : String → Bool
is_empty_text s = str_eq s ""

abbrev pub is_nil {ℓ} : {A : Type ℓ} → List A → Bool
is_nil [] = true
is_nil (x ∷ xs) = false

abbrev topic_accepts : Topic → Option String → Bool
topic_accepts Topic.anything actual = true
topic_accepts (Topic.one t) none = false
topic_accepts (Topic.one t) (some a) = str_eq (to_lower_case a) (to_lower_case t)
topic_accepts (Topic.one_of ts) none = false
topic_accepts (Topic.one_of ts) (some a) = contains (to_lower_case a) (map to_lower_case ts)

-- A log with fewer topics than the request names fails at the first that is asked for.
unfoldable pub topics_match : List Topic → List String → Bool
topics_match [] actual = true
topics_match (t ∷ ts) [] = topic_accepts t none && topics_match ts []
topics_match (t ∷ ts) (a ∷ as_) = topic_accepts t (some a) && topics_match ts as_

unfoldable pub matches_request : RawLog → Request → Bool
matches_request log request =
    contains (to_lower_case log.address) (map to_lower_case request.address)
    && topics_match request.topics log.topics

unfoldable pub find_log : String → List RawLog → Option RawLog
find_log key [] = none
find_log key (l ∷ ls) = let rest = find_log key ls in if str_eq l.key key then some l else rest

unfoldable pub find_shard : String → List FetchShardManifest → Option FetchShardManifest
find_shard id [] = none
find_shard id (s ∷ ss) =
    let rest = find_shard id ss in if str_eq s.shard_id id then some s else rest

abbrev pub Checked : Type 0
Checked = Outcome (Unit {0})

unfoldable pub require : Bool → String → Checked
require test message = if test then ok tt else throw message

abbrev pub log_in_request : FetchShardManifest → Option RawLog → Checked
log_in_request shard none = throw "Fetch shard references unknown log"
log_in_request shard (some log) = do
  _ ←
      require
        (leb shard.request.from_block log.block_number
          && leb log.block_number shard.request.to_block)
        "Fetch shard references a log outside its range"
  require (matches_request log shard.request) "Fetch shard returned a log outside its filter"

unfoldable pub check_keys : List RawLog → FetchShardManifest → List String → Checked
check_keys logs shard [] = ok tt
check_keys logs shard (k ∷ ks) =
    log_in_request shard (find_log k logs) >>= λ _. check_keys logs shard ks

-- The body of the loop over the expected shards. The source also names the shard in its messages.
unfoldable pub check_shard : RecordedRangeBatch → FetchShardManifest → Checked
check_shard batch shard = do
  _ ← require (is_safe_integer shard.request.from_block) "Height is outside the safe INTEGER range"
  _ ← require (is_safe_integer shard.request.to_block) "Height is outside the safe INTEGER range"
  _ ← require shard.success "Fetch shard is not complete"
  _ ←
      require
        ((elim shard.response_hash [ none ↦ false | some h ↦ not (is_empty_text h) ])
          && not (is_some shard.error))
        "Fetch shard lacks successful response evidence"
  _ ←
      require
        (not (is_empty_text shard.filter_id)
          && not (is_nil shard.request.address)
          && leb batch.from_block shard.request.from_block
          && leb shard.request.to_block batch.to_block
          && leb shard.request.from_block shard.request.to_block)
        "Fetch shard has invalid filter coverage"
  _ ← require (is_safe_integer shard.log_count) "Fetch shard has invalid log count"
  _ ←
      require (is_distinct shard.log_keys && (shard.log_count == length shard.log_keys))
        "Fetch shard log count does not match its keys"
  check_keys batch.logs shard shard.log_keys

unfoldable pub check_shards : RecordedRangeBatch → List String → Outcome (List FetchShardManifest)
check_shards batch [] = ok []
check_shards batch (id ∷ ids) = elim (find_shard id batch.shards) [
  | none ↦ throw "Missing fetch shard"
  | some shard ↦
      check_shard batch shard >>= λ _. check_shards batch ids >>= λ rest. ok (shard ∷ rest)
]

unfoldable pub check_logs : RecordedRangeBatch → List String → List RawLog → Checked
check_logs batch seen [] = ok tt
check_logs batch seen (l ∷ ls) = do
  _ ← require (is_safe_integer l.block_number) "Height is outside the safe INTEGER range"
  _ ←
      require (leb batch.from_block l.block_number && leb l.block_number batch.to_block)
        "Batch log lies outside the covered range"
  _ ← require (not (contains l.key seen)) "Duplicate raw log in batch"
  check_logs batch (l.key ∷ seen) ls

abbrev pub interval_of : FetchShardManifest → BlockInterval
interval_of s = record { from_block = s.request.from_block; to_block = s.request.to_block }

-- The intervals of one filter; a `next` one above the source's `coveredThrough`.
unfoldable pub filter_ranges : String → List FetchShardManifest → List BlockInterval
filter_ranges filter shards =
    sort starts_before
      (map interval_of (select (λ (s : FetchShardManifest). str_eq s.filter_id filter) shards))

unfoldable pub check_ranges : ℕ → ℕ → List BlockInterval → Checked
check_ranges next to [] = require (ltb to next) "Filter does not cover the complete batch range"
check_ranges next to (r ∷ rs) = require (leb r.from_block next) "Filter has a coverage gap" >>= λ _.
    check_ranges (if leb next r.to_block then r.to_block + 1 else next) to rs

-- A filter is checked at its first shard and, with the same outcome, at each later one.
unfoldable pub check_filters :
    RecordedRangeBatch → List FetchShardManifest → List FetchShardManifest → Checked
check_filters batch shards [] = ok tt
check_filters batch shards (s ∷ rest) =
    check_ranges batch.from_block batch.to_block (filter_ranges s.filter_id shards) >>= λ _.
    check_filters batch shards rest

-- `coveredLogKeys`, to which the loop adds the keys of each shard in turn.
unfoldable pub all_keys : List FetchShardManifest → List String
all_keys [] = []
all_keys (s ∷ rest) = s.log_keys ++ all_keys rest

-- The keys that a set holds, each once, from those that it `seen` before.
unfoldable pub distinct_keys : List String → List String → List String
distinct_keys seen [] = []
distinct_keys seen (k ∷ ks) =
    let later = distinct_keys seen ks in
    let here = k ∷ distinct_keys (k ∷ seen) ks in if contains k seen then later else here

-- No key stands twice in `batch.logs` behind `check_logs`, so their number is that of `batchLogs`.
unfoldable pub verify_successful_shard_coverage :
    RecordedRangeBatch → Outcome (List FetchShardManifest)
verify_successful_shard_coverage batch = do
  _ ← require (is_safe_integer batch.from_block) "Height is outside the safe INTEGER range"
  _ ← require (is_safe_integer batch.to_block) "Height is outside the safe INTEGER range"
  _ ← require (is_safe_integer batch.end_number) "Height is outside the safe INTEGER range"
  _ ← require (leb batch.from_block batch.to_block) "Invalid batch range"
  _ ← require (batch.end_number == batch.to_block) "End anchor must identify toBlock"
  _ ← require batch.complete "Range is not complete"
  _ ←
      require ((batch.manifest_version == 1) && not (is_empty_text batch.filter_version))
        "Missing filter manifest version"
  _ ←
      require (not (is_nil batch.expected_shard_ids) && is_distinct batch.expected_shard_ids)
        "Expected shard IDs must be non-empty and unique"
  let actual = map (λ (s : FetchShardManifest). s.shard_id) batch.shards
  _ ← require (is_distinct actual) "Duplicate fetch shard ID"
  _ ←
      require
        ((length actual == length batch.expected_shard_ids)
          && every (λ id. contains id actual) batch.expected_shard_ids)
        "Fetch shard set does not match expected shards"
  _ ← check_logs batch [] batch.logs
  shards ← check_shards batch batch.expected_shard_ids
  _ ← check_filters batch shards shards
  _ ←
      require (length (distinct_keys [] (all_keys shards)) == length batch.logs)
        "Not every batch log is covered by a successful shard"
  ok shards

-- ===== src/Ingest/Partitions.antt =====
-- src/ingest/completeness.ts, second part: the stored shards of a batch, and the cover of each
-- address and topic alternative, which must not borrow the blocks of another.
pub mod Covers
use lp_monitor.Prelude.{
  ℕ, ◌*◌, ◌==◌, ltb, leb, if◌then◌else◌, Bool, true, false, not, ◌&&◌, ◌||◌, Option, none, some,
  is_some, String, str_eq, List, [], ◌∷◌, ◌++◌, map, length, select, any, every,
}
use lp_monitor.Prelude.Text.{to_lower_case, same_optional}
use lp_monitor.Ingest.Completeness.{
  Topic, BlockInterval, FetchShardManifest, RecordedRangeBatch, covers_intervals, interval_of,
  is_nil,
}

-- `success` stands for the status of that name.
pub record StoredShardRow : Type 0 where
  pub stored_id : String
  pub is_success : Bool
  pub stored_hash : Option String
  pub stored_count : ℕ
  pub stored_error : Option String

abbrev same_shard : FetchShardManifest → StoredShardRow → Bool
same_shard shard item =
    str_eq item.stored_id shard.shard_id
    && item.is_success
    && same_optional item.stored_hash shard.response_hash
    && (item.stored_count == shard.log_count)
    && not (is_some item.stored_error)

unfoldable pub successful_shard_rows_match : List StoredShardRow → RecordedRangeBatch → Bool
successful_shard_rows_match stored batch =
    (length stored == length batch.expected_shard_ids)
    && every (λ (shard : FetchShardManifest). any (same_shard shard) stored) batch.shards

abbrev pub max_selectors : ℕ
max_selectors = 100000

abbrev pub is_full : RecordedRangeBatch → FetchShardManifest → Bool
is_full batch s = leb s.request.from_block batch.from_block && leb batch.to_block s.request.to_block

abbrev width : Topic → ℕ
width Topic.anything = 1
width (Topic.one t) = 1
width (Topic.one_of ts) = length ts

-- The product of the widths, unless an intermediate product is too large.
unfoldable pub count_selectors : ℕ → List Topic → Option ℕ
count_selectors count [] = some count
count_selectors count (t ∷ ts) =
    let rest = count_selectors (count * width t) ts in
    if ltb max_selectors (count * width t) then none else rest

unfoldable pub any_selector : Bool → List FetchShardManifest → Bool
any_selector nonempty [] = nonempty
any_selector nonempty (s ∷ ss) =
    elim (count_selectors (length s.request.address) s.request.topics) [
      | none ↦ false
      | some count ↦ any_selector (nonempty || ltb 0 count) ss
    ]

abbrev pub Selector : Type 0
Selector = List (Option String)

abbrev alternatives : Topic → List (Option String)
alternatives Topic.anything = none ∷ []
alternatives (Topic.one t) = some (to_lower_case t) ∷ []
alternatives (Topic.one_of ts) = map (λ t. some (to_lower_case t)) ts

unfoldable pub extend_all : List Selector → List (Option String) → List Selector
extend_all [] ts = []
extend_all (s ∷ ss) ts = map (λ t. s ++ t ∷ []) ts ++ extend_all ss ts

unfoldable pub expand : List Selector → List Topic → Option (List Selector)
expand selectors [] = some selectors
expand selectors (t ∷ ts) =
    let rest = expand (extend_all selectors (alternatives t)) ts in
    if ltb max_selectors (length selectors * length (alternatives t)) then none else rest

-- The text that the source makes of the filter and the selector is read as the pair of them.
abbrev pub Key : Type 0
Key = String × Selector

unfoldable pub same_selector : Selector → Selector → Bool
same_selector [] [] = true
same_selector (a ∷ s) (b ∷ t) = same_optional a b && same_selector s t
same_selector _ _ = false

abbrev pub same_key : Key → Key × BlockInterval → Bool
same_key key entry = str_eq entry.0.0 key.0 && same_selector entry.0.1 key.1

abbrev entries_for : FetchShardManifest → List Selector → List (Key × BlockInterval)
entries_for s = map (λ selector. ((s.filter_id, selector), interval_of s))

abbrev prepend :
    FetchShardManifest
    → Option (List Selector)
    → Option (List (Key × BlockInterval))
    → Option (List (Key × BlockInterval))
prepend s none rest = none
prepend s (some selectors) none = none
prepend s (some selectors) (some entries) = some (entries_for s selectors ++ entries)

unfoldable pub entries_of : List FetchShardManifest → Option (List (Key × BlockInterval))
entries_of [] = some []
entries_of (s ∷ ss) =
    prepend s (expand (map (λ a. some (to_lower_case a) ∷ []) s.request.address) s.request.topics)
      (entries_of ss)

-- The intervals of one partition.
unfoldable pub ranges_of : Key → List (Key × BlockInterval) → List BlockInterval
ranges_of key entries = map (λ (e : Key × BlockInterval). e.1) (select (same_key key) entries)

abbrev pub all_covered : RecordedRangeBatch → Option (List (Key × BlockInterval)) → Bool
all_covered batch none = false
all_covered batch (some entries) =
    not (is_nil entries)
    && every
        (λ (e : Key × BlockInterval).
          covers_intervals (ranges_of e.0 entries) batch.from_block batch.to_block)
        entries

unfoldable pub complete_partitions : RecordedRangeBatch → Bool
complete_partitions batch =
    if every (is_full batch) batch.shards
    then any_selector false batch.shards
    else all_covered batch (entries_of batch.shards)

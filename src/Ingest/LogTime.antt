-- ===== src/Ingest/LogTime.antt =====
-- src/ingest/log-time.ts: the minute of a log from sampled blocks and proven minute boundaries. The
-- text of a log's key is a parameter of the logs.
pub mod Minute
pub mod Target
use lp_monitor.Prelude.{
  ℕ, suc, ◌+◌, ◌*◌, ◌/◌, ◌==◌, ltb, leb, if◌then◌else◌, Bool, true, false, not, ◌&&◌, ◌||◌, Option,
  none, some, String, str_eq, List, [], ◌∷◌, ◌++◌, select, sort, Outcome, ok, throw, ◌>>=◌,
}
use lp_monitor.Prelude.Dict.{Dict, insert}
use lp_monitor.Metrics.Baseline.{is_safe_integer}
use lp_monitor.Domain.{BlockAnchor, LogTime, TimeSource}
use lp_monitor.Ingest.Reorg.{Reader}
use lp_monitor.Ingest.TimeIndex.{
  MinuteBoundary, Samples, find_anchor, same_anchor, sorted_anchors, resolve_minute_boundary,
}

-- What is read of a `RawLog`: the text of `logTimeKey`, and its block.
pub record TimedLog : Type 0 where
  pub key : String
  pub block_number : ℕ
  pub block_hash : String

abbrev pub unresolved_time : LogTime
unresolved_time = record {
  minute_start_sec = none;
  exact_timestamp_sec = none;
  source = TimeSource.unresolved;
}

abbrev pub minute_time : ℕ → LogTime
minute_time timestamp_sec = record {
  minute_start_sec = some (timestamp_sec / 60 * 60);
  exact_timestamp_sec = none;
  source = TimeSource.minute_boundary;
}

abbrev pub boundary_is_valid : MinuteBoundary → Bool
boundary_is_valid b =
    is_safe_integer b.timestamp_sec
    && ltb 0 b.timestamp_sec
    && (b.first_block == b.at.number)
    && (b.before.number + 1 == b.at.number)
    && ltb b.before.timestamp_sec b.timestamp_sec
    && leb b.timestamp_sec b.at.timestamp_sec

abbrev pub is_earlier : MinuteBoundary → MinuteBoundary → Bool
is_earlier left right = ltb left.first_block right.first_block

abbrev pub is_higher_than : BlockAnchor → Option BlockAnchor → Bool
is_higher_than anchor none = true
is_higher_than anchor (some lower) = ltb lower.number anchor.number

abbrev pub is_lower_than : BlockAnchor → Option BlockAnchor → Bool
is_lower_than anchor none = true
is_lower_than anchor (some upper) = ltb anchor.number upper.number

-- The loops that keep the highest, or the lowest, of the blocks that pass a test.
unfoldable pub highest :
    (BlockAnchor → Bool) → List BlockAnchor → Option BlockAnchor → Option BlockAnchor
highest passes [] lower = lower
highest passes (a ∷ rest) lower =
    highest passes rest (if passes a && is_higher_than a lower then some a else lower)

unfoldable pub lowest :
    (BlockAnchor → Bool) → List BlockAnchor → Option BlockAnchor → Option BlockAnchor
lowest passes [] upper = upper
lowest passes (a ∷ rest) upper =
    lowest passes rest (if passes a && is_lower_than a upper then some a else upper)

-- The last boundary up to a block, and the first one behind it.
unfoldable pub around :
    ℕ → List MinuteBoundary → Option MinuteBoundary → Option MinuteBoundary × Option MinuteBoundary
around number [] prior = (prior, none)
around number (b ∷ rest) prior =
    let later = around number rest (some b) in
    if leb b.first_block number then later else (prior, some b)

abbrev pub by_upper : MinuteBoundary → Option BlockAnchor → LogTime
by_upper prior none = unresolved_time
by_upper prior (some upper) =
    if ltb upper.timestamp_sec (prior.timestamp_sec + 60)
    then minute_time prior.timestamp_sec
    else unresolved_time

abbrev pub by_boundaries :
    ℕ → List BlockAnchor → Option MinuteBoundary → Option MinuteBoundary → LogTime
by_boundaries number anchors none next = unresolved_time
by_boundaries number anchors (some prior) none =
    by_upper prior (lowest (λ a. leb number a.number) anchors none)
by_boundaries number anchors (some prior) (some next) =
    if prior.timestamp_sec + 60 == next.timestamp_sec
    then minute_time prior.timestamp_sec
    else by_upper prior (lowest (λ a. leb number a.number) anchors none)

-- The blocks on both sides in one minute, or else the boundaries.
abbrev pub by_neighbours : Option BlockAnchor → Option BlockAnchor → LogTime → LogTime
by_neighbours none upper otherwise = otherwise
by_neighbours (some lower) none otherwise = otherwise
by_neighbours (some lower) (some upper) otherwise =
    if lower.timestamp_sec / 60 == upper.timestamp_sec / 60
    then minute_time lower.timestamp_sec
    else otherwise

abbrev pub by_sample : TimedLog → Option BlockAnchor → LogTime → LogTime
by_sample log none otherwise = otherwise
by_sample log (some sampled) otherwise =
    if not (str_eq sampled.hash log.block_hash)
    then unresolved_time
    else minute_time sampled.timestamp_sec

unfoldable pub assign_one : List BlockAnchor → List MinuteBoundary → TimedLog → LogTime
assign_one anchors usable log =
    let (prior, next) = around log.block_number usable none in
    by_sample log (find_anchor log.block_number anchors) (
      by_neighbours (highest (λ a. ltb a.number log.block_number) anchors none)
        (lowest (λ a. ltb log.block_number a.number) anchors none)
        (by_boundaries log.block_number anchors prior next))

unfoldable pub assign_all : (TimedLog → LogTime) → List TimedLog → Dict LogTime → Dict LogTime
assign_all time_of [] result = result
assign_all time_of (log ∷ rest) result =
    assign_all time_of rest (insert log.key (time_of log) result)

abbrev pub assign_by :
    List TimedLog → List MinuteBoundary → Outcome (List BlockAnchor) → Dict LogTime
assign_by logs boundaries (throw message) = assign_all (λ log. unresolved_time) logs []
assign_by logs boundaries (ok anchors) =
    assign_all (assign_one anchors (sort is_earlier (select boundary_is_valid boundaries))) logs []

unfoldable pub assign_log_minutes :
    List TimedLog → List BlockAnchor → List MinuteBoundary → Dict LogTime
assign_log_minutes logs anchors boundaries = assign_by logs boundaries (sorted_anchors anchors)

-- `cacheAnchor`: a block that is there already keeps its place and takes the new value.
unfoldable pub replace_anchor : BlockAnchor → List BlockAnchor → List BlockAnchor
replace_anchor anchor [] = anchor ∷ []
replace_anchor anchor (a ∷ rest) =
    let later = replace_anchor anchor rest in
    if a.number == anchor.number then anchor ∷ rest else a ∷ later

abbrev pub cache_over :
    BlockAnchor → List BlockAnchor → Option BlockAnchor → Outcome (List BlockAnchor)
cache_over anchor cache none = ok (replace_anchor anchor cache)
cache_over anchor cache (some existing) =
    if not (same_anchor existing anchor)
    then throw "Conflicting block anchor"
    else ok (replace_anchor anchor cache)

unfoldable pub cache_anchor : BlockAnchor → List BlockAnchor → Outcome (List BlockAnchor)
cache_anchor anchor cache = cache_over anchor cache (find_anchor anchor.number cache)

unfoldable pub brackets : ℕ → List BlockAnchor → Option BlockAnchor × Option BlockAnchor
brackets target anchors = (
  highest (λ a. ltb a.timestamp_sec target) anchors none,
  lowest (λ a. leb target a.timestamp_sec) anchors none,
)

abbrev pub from_genesis : ℕ → Samples → BlockAnchor → Outcome (BlockAnchor × Samples)
from_genesis target s genesis =
    if not (genesis.number == 0)
    then throw "Block anchor mismatch: requested 0"
    else cache_anchor genesis s.cache >>= λ cache.
        if leb target genesis.timestamp_sec
        then throw "Target timestamp is outside the chain range"
        else ok (genesis, record s { cache = cache })

abbrev pub ask_genesis : Reader → ℕ → Samples → Option BlockAnchor → Outcome (BlockAnchor × Samples)
ask_genesis reader target s (some genesis) = from_genesis target s genesis
ask_genesis reader target s none =
    reader s.calls 0 >>= λ genesis. from_genesis target (record s { calls = s.calls + 1 }) genesis

abbrev pub below_or_genesis :
    Reader → ℕ → Samples → Option BlockAnchor → Outcome (BlockAnchor × Samples)
below_or_genesis reader target s (some existing) = ok (existing, s)
below_or_genesis reader target s none = ask_genesis reader target s (find_anchor 0 s.cache)

unfoldable pub lower_anchor : Reader → ℕ → Samples → Outcome (BlockAnchor × Samples)
lower_anchor reader target s = below_or_genesis reader target s (brackets target s.cache).0

-- One target of the loop of `resolveLogTimes`.
abbrev pub between :
    Reader → ℕ → Samples → BlockAnchor → Option BlockAnchor → Outcome (MinuteBoundary × Samples)
between reader target s lo none = throw "Target timestamp is outside the chain range"
between reader target s lo (some hi) = resolve_minute_boundary reader target lo hi s

unfoldable pub resolve_target : Reader → ℕ → Samples → Outcome (MinuteBoundary × Samples)
resolve_target reader target s = lower_anchor reader target s >>= λ (r : BlockAnchor × Samples).
    between reader target r.1 r.0 (brackets target r.1.cache).1

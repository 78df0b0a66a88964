-- ===== src/Lib.antt =====
-- A model of lp-monitor, a monitor of Uniswap pools that records logs from a node, computes volume
-- windows, raises alerts about hot pools and delivers them. Paths are those of the repository.
--
-- The parts and how they interact. The ingestion (src/ingest) accepts a range of blocks when its
-- fetch shards prove that it is complete; calls to the node are paced (src/rpc). A log
-- gets the minute of its block from sampled blocks. Accepted events
-- move the observations of a pool (src/state) and the volume windows (src/metrics). The signal
-- engine (src/signals) evaluates the windows of a pool, from the snapshot that the last evaluation
-- left, into alert drafts. The outbox (src/notify) records what is to be delivered under the policy
-- of a scope, and delivers it in passes. Writes are bracketed by the commit boundary (src/storage).
--
-- The modules:
--   Prelude             tests, lists, integers, the stable sort, dictionaries, texts, and `Outcome`
--                       for calls that may throw
--   Domain              src/domain/types.ts and the pool's id of src/registry/pools.ts; its child
--                       Deltas for normalizeCoreDeltas of src/domain/events.ts
--   Metrics.Types       the records of src/metrics/windows.ts and rolling.ts
--   Metrics.Baseline    src/metrics/baseline.ts: medianRatio, medianBigInt, volumeBaseline; its
--                       child Rolling has RollingVolumeBaseline and rollingVolumeBaselines, and
--                       Sorted, Median, Window and Prefix are about these
--   Metrics.Windows     src/metrics/windows.ts: the minute; its children Buckets for the baselines and
--                       the five-minute buckets and Build for buildMinuteMetrics, which is
--                       build_minute_metrics, and window_core for one pool of it; Sums, Minute,
--                       Sound, Dormant and Totals are about these
--   Metrics.Rolling     src/metrics/rolling.ts up to the status of a window; its child Window has what
--                       a window reports and its baseline
--   Metrics.Price       src/metrics/price.ts
--   Metrics.Notional    src/metrics/notional.ts; valueSwap is value_swap
--   Metrics.Ranking     src/metrics/ranking.ts
--   Registry            src/registry/pools.ts; a PoolRegistry is its table of records
--   Signals             Types, Config and Baseline for the files of these names; Engine and its
--                       children Rules, Cooling, Decide and Evaluate for src/signals/engine.ts, in
--                       the order of the source. evaluateOne is evaluate_one, evaluatePrepared is
--                       evaluate_prepared, and evaluateSignal is evaluate_signal; the other children
--                       are about these
--   Notify              Tables for the SQL tables, Policy for delivery-policy.ts (setDeliveryMode is
--                       set_delivery_mode), Outbox for outbox.ts (enqueue, deliverPending)
--   Rpc                 RateLimit for src/rpc/rate-limit.ts, ResolveTime for the probe and the
--                       check of an anchor in resolve-time.ts
--   Storage             CommitBoundary for src/storage/commit-boundary.ts
--   Ingest              Completeness and Partitions for src/ingest/completeness.ts, the second for
--                       successfulShardRowsMatch and completePartitions; Reorg for reorg.ts,
--                       TimeIndex for time-index.ts (resolveMinuteBoundary is
--                       resolve_minute_boundary), LogTime for log-time.ts; TimeIndex.Chain says
--                       what a chain is that blocks are sampled from
--   State               Observations for src/state/observations.ts, Projection for project-range.ts
--   Tests               concrete runs
--
-- State and operations. A mutable object is a record, and a method returns the new record; a SQL
-- table is a list of rows in the order of their sequence numbers, and a statement is a function on
-- it. A call that may throw returns `Outcome`, with the message of the error. A `Map` is an
-- association list over texts in insertion order. Code that is not in the repository is a
-- parameter: the order of `localeCompare` is `locale_before`, the decoders of logs are `decode_v3` and
-- `decode_v4`, SHA-256 over JSON is `hash` or `digest`, and the sink of the outbox is a function that
-- also says what other code did to the tables while it was awaited.
--
-- Numbers. Block heights, times, counts and positive amounts are natural numbers, and volumes are
-- integers, as bigints have no bound; where the source asks for a safe integer the test is written
-- out (2^53 - 1). The start of a rolling window may be below 0 and is an integer. A multiplier is
-- kept in millionths, and a rate of calls is a quotient of two natural numbers. The windows that the
-- engine reads start at 0 or later, so that its subtractions do not go below 0 either.
--
-- Loops are structural recursion over the list that the source walks. The binary search in
-- Metrics.Baseline.Rolling runs on fuel, one more than the length of the list: the interval shrinks
-- in each round. In Ingest.Reorg the search back from the last index has one more than that index as
-- fuel, since its steps double, and the binary search one more than the index that failed, since its
-- interval shrinks; without fuel both throw. The search of Ingest.TimeIndex has one more than the
-- width of its bracket, since each probe lies strictly inside.
--
-- Not modelled: the JSON and SQL encodings, timers and abort signals, the rounding of doubles, the
-- tables that only hold earlier results of the same call (`memo`), the parsing of untyped settings,
-- decoding of logs by viem, and the parts that only read or print (the dashboard, the command line,
-- reports).
pub mod Prelude
pub mod Domain
pub mod Metrics
pub mod Signals
pub mod Notify
pub mod Storage
pub mod Registry
pub mod Rpc
pub mod Ingest
pub mod State
pub mod Tests

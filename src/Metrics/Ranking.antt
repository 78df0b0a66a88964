-- ===== src/Metrics/Ranking.antt =====
-- src/metrics/ranking.ts: the pools by their volume or by the multiple of their baseline. How
-- `localeCompare` orders two pool ids is a parameter.
pub mod Ranked
use lp_monitor.Prelude.{
  ℕ, ◌+◌, ◌==◌, ltb, if◌then◌else◌, Bool, true, false, ◌&&◌, Option, none, some, is_some, String,
  List, any, select, sort, ℤ, pos, ltb_ℤ,
}
use lp_monitor.Metrics.Types.{
  MinuteMetric, AggregateMetric, RollingMetric, RollingWindows, PoolMetricWindows,
}
use lp_monitor.Metrics.Windows.Buckets.{is_closed}

pub data PoolRankSort : Type 0 where
  volume_5m volume_5m_closed volume_multiplier : PoolRankSort

abbrev pub by_multiplier : PoolRankSort → Bool
by_multiplier PoolRankSort.volume_5m = false
by_multiplier PoolRankSort.volume_5m_closed = false
by_multiplier PoolRankSort.volume_multiplier = true

abbrev pub or_zero : Option ℕ → ℕ
or_zero none = 0
or_zero (some n) = n

abbrev pub whole : Option ℕ → Option ℤ
whole none = none
whole (some n) = some (pos n)

-- The window that the order reads, and its value.
abbrev pub key_window : PoolRankSort → RollingWindows → RollingMetric
key_window by r = if by_multiplier by then r.one_minute else r.five_minutes

abbrev pub rolling_value : PoolRankSort → RollingMetric → Option ℤ
rolling_value by m = if by_multiplier by then whole m.baseline.volume_multiplier else m.usd_micros

-- What the comparator reads of a pool.
pub record Rank : Type 0 where
  pub value : Option ℤ
  pub tx_count : ℕ
  pub pool_id : String

abbrev pub rolling_rank : PoolRankSort → PoolMetricWindows → Rank
rolling_rank by w = elim w.rolling [
  | none ↦ record { value = none; tx_count = 0; pool_id = w.pool_id }
  | some r ↦ record {
    value = rolling_value by (key_window by r);
    tx_count = or_zero (key_window by r).tx_count;
    pool_id = w.pool_id;
  }
]

abbrev pub rolling_included : PoolRankSort → PoolMetricWindows → Bool
rolling_included by w = elim w.rolling [
  | none ↦ false
  | some r ↦
      is_closed (key_window by r).status
      && is_some (rolling_value by (key_window by r))
      && ltb 0 (or_zero (key_window by r).swap_count)
]

abbrev pub follows : Option MinuteMetric → MinuteMetric → Bool
follows none m = false
follows (some current) m = m.minute_start_sec + 60 == current.minute_start_sec

abbrev pub five_value : Option AggregateMetric → Option ℤ
five_value none = none
five_value (some m) = m.usd_micros

abbrev pub five_tx : Option AggregateMetric → ℕ
five_tx none = 0
five_tx (some m) = m.tx_count

abbrev pub five_has_swaps : Option AggregateMetric → Bool
five_has_swaps none = false
five_has_swaps (some m) = ltb 0 m.swap_count

abbrev pub minute_value : Option MinuteMetric → Option ℤ
minute_value none = none
minute_value (some m) = whole m.baseline.volume_multiplier

abbrev pub minute_tx : Option MinuteMetric → ℕ
minute_tx none = 0
minute_tx (some m) = or_zero m.tx_count

abbrev pub minute_is_recent : Option MinuteMetric → Option MinuteMetric → Bool
minute_is_recent current none = false
minute_is_recent current (some m) = follows current m

abbrev pub natural_rank : PoolRankSort → PoolMetricWindows → Rank
natural_rank by w =
    if by_multiplier by
    then record {
      value = minute_value w.recent_closed_1m;
      tx_count = minute_tx w.recent_closed_1m;
      pool_id = w.pool_id;
    }
    else record {
      value = five_value w.recent_closed_5x1m;
      tx_count = five_tx w.recent_closed_5x1m;
      pool_id = w.pool_id;
    }

abbrev pub natural_included : PoolRankSort → PoolMetricWindows → Bool
natural_included by w =
    if by_multiplier by
    then minute_is_recent w.partial_current w.recent_closed_1m
      && is_some (minute_value w.recent_closed_1m)
    else is_some (five_value w.recent_closed_5x1m) && five_has_swaps w.recent_closed_5x1m

abbrev pub value_of : Option ℤ → ℤ
value_of none = pos 0
value_of (some v) = v

abbrev pub is_rolling : PoolMetricWindows → Bool
is_rolling w = is_some w.rolling

-- The rolling windows count as soon as one of the pools has them.
abbrev pub rank_of : List PoolMetricWindows → PoolRankSort → PoolMetricWindows → Rank
rank_of windows by w = if any is_rolling windows then rolling_rank by w else natural_rank by w

abbrev pub is_included : List PoolMetricWindows → PoolRankSort → PoolMetricWindows → Bool
is_included windows by w =
    if any is_rolling windows then rolling_included by w else natural_included by w

module _ (locale_before : String → String → Bool) where
  -- `cmp(a, b) < 0`: the greater value, then the greater number of transactions, then the id.
  unfoldable pub rank_before : Rank → Rank → Bool
  rank_before a b =
      if ltb_ℤ (value_of b.value) (value_of a.value)
      then true
      else if ltb_ℤ (value_of a.value) (value_of b.value)
      then false
      else if ltb b.tx_count a.tx_count
      then true
      else if ltb a.tx_count b.tx_count
      then false
      else locale_before a.pool_id b.pool_id

  unfoldable pub rank_pools : List PoolMetricWindows → PoolRankSort → List PoolMetricWindows
  rank_pools windows by =
      sort (λ a b. rank_before (rank_of windows by a) (rank_of windows by b))
        (select (is_included windows by) windows)

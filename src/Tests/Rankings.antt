-- ===== src/Tests/Rankings.antt =====
-- A run of src/metrics/ranking.ts on pools whose buckets differ.
use lp_monitor.Prelude.{
  ℕ, ◌≡◌, refl, Bool, true, not, ◌&&◌, none, some, String, str_eq, List, [], ◌∷◌, map, any, select,
  every, sort, insert_sorted, IsOrder, pos, arith,
}
use mathlib.Core.List.{Perm}
use lp_monitor.Domain.{v3}
use lp_monitor.Metrics.Types.{AggregateMetric, PoolMetricWindows}
use lp_monitor.Metrics.Windows.{no_baseline}
use lp_monitor.Metrics.Ranking.{PoolRankSort, rank_of, is_included, rank_before, rank_pools}
use lp_monitor.Metrics.Ranking.Ranked.{InOrder, has_value, rank_pools-IsSorted}

abbrev bucket_of : ℕ → ℕ → AggregateMetric
bucket_of usd swaps = record {
  start_sec = 0;
  end_sec = 300;
  usd_micros = some (pos usd);
  usdg_notional_raw = none;
  raw_notional = none;
  swap_count = swaps;
  tx_count = swaps;
  add_count = 0;
  remove_count = 0;
  zero_delta_count = 0;
  active_minutes = 1;
  baseline = no_baseline;
}

abbrev pool_with : String → ℕ → ℕ → PoolMetricWindows
pool_with id usd swaps = record {
  rolling = none;
  rolling_history_1m = [];
  rolling_history_5m = [];
  pool = v3 id;
  pool_id = id;
  minutes = [];
  natural_5m_buckets = [];
  partial_current = none;
  recent_closed_1m = none;
  recent_closed_5x1m = some (bucket_of usd swaps);
  natural_closed_5m = none;
  unknown_time_block_counts = [];
}

-- "0xaa" comes before any other id.
abbrev locale_before : String → String → Bool
locale_before a b = str_eq a "0xaa" && not (str_eq b "0xaa")

locale-IsOrder : IsOrder locale_before
locale-IsOrder = record {
  asymm = λ x y h. ground (arith, h);
  trans = λ x y z h k. ground (arith, h, k);
}

abbrev pools : List PoolMetricWindows
pools =
    pool_with "0xbb" 50 2
    ∷ pool_with "0xcc" 90 0
    ∷ pool_with "0xaa" 50 2
    ∷ pool_with "0xdd" 70 1
    ∷ []

ranks_by_volume :
    map
      (λ (w : PoolMetricWindows). w.pool_id)
      (rank_pools locale_before pools PoolRankSort.volume_5m)
    ≡ "0xdd" ∷ "0xaa" ∷ "0xbb" ∷ []
unfolding rank_pools rank_before any select sort insert_sorted
ranks_by_volume = refl

rank_pools-IsSorted_example :
    Perm
      (rank_pools locale_before pools PoolRankSort.volume_5m)
      (select (is_included pools PoolRankSort.volume_5m) pools)
    × InOrder locale_before
        (rank_of pools PoolRankSort.volume_5m)
        (rank_pools locale_before pools PoolRankSort.volume_5m)
    × (every
          (has_value (rank_of pools PoolRankSort.volume_5m))
          (select (is_included pools PoolRankSort.volume_5m) pools)
        ≡ true)
rank_pools-IsSorted_example =
    rank_pools-IsSorted locale_before pools PoolRankSort.volume_5m locale-IsOrder

-- ===== src/Metrics/Ranking/Ranked.antt =====
-- About the order of src/metrics/ranking.ts.
use lp_monitor.Prelude.{
  ◌≤◌, ◌≡◌, refl, Bool, true, false, is_some, String, List, [], ◌∷◌, select, every, All, sort-perm,
  sort-IsSorted, IsSorted, IsOrder, leb_ℤ, arith,
}
use mathlib.Core.List.{Perm}
use lp_monitor.Metrics.Types.{PoolMetricWindows}
use lp_monitor.Metrics.Ranking.{
  PoolRankSort, Rank, value_of, rank_of, is_included, rank_before, rank_pools,
}

module _ (locale_before : String → String → Bool) (locale : IsOrder locale_before) where
  rank-asymm :
      (x y : Rank) → rank_before locale_before x y ≡ true → rank_before locale_before y x ≡ false
  unfolding rank_before
  rank-asymm x y h = let ids = locale.asymm x.pool_id y.pool_id in ground (arith, ids)

  rank_trans :
      (x y z : Rank)
      → rank_before locale_before x y ≡ false
      → rank_before locale_before y z ≡ false
      → rank_before locale_before x z ≡ false
  unfolding rank_before
  rank_trans x y z h k = let ids = locale.trans x.pool_id y.pool_id z.pool_id in ground (arith, ids)

  by_rank :
      (rank : PoolMetricWindows → Rank)
      → IsOrder (λ a b. rank_before locale_before (rank a) (rank b))
  by_rank rank = record {
    asymm = λ x y. rank-asymm (rank x) (rank y);
    trans = λ x y z. rank_trans (rank x) (rank y) (rank z);
  }

-- `a` may stand before `b`: its value is greater, or as great with more transactions, or both are the
-- same and its id does not follow.
abbrev pub StandsBefore : (String → String → Bool) → Rank → Rank → Type 0
StandsBefore locale_before a b =
    (leb_ℤ (value_of b.value) (value_of a.value) ≡ true)
    × (leb_ℤ (value_of a.value) (value_of b.value) ≡ true → b.tx_count ≤ a.tx_count)
    × (leb_ℤ (value_of a.value) (value_of b.value) ≡ true
        → a.tx_count ≡ b.tx_count
        → locale_before b.pool_id a.pool_id ≡ false)

rank-StandsBefore :
    (locale_before : String → String → Bool) (a b : Rank)
    → rank_before locale_before b a ≡ false
    → StandsBefore locale_before a b
unfolding rank_before
rank-StandsBefore locale_before a b h = ground arith

-- Each pool stands before all that come after it.
abbrev pub InOrder :
    (String → String → Bool) → (PoolMetricWindows → Rank) → List PoolMetricWindows → Type 0
InOrder locale_before rank [] = Unit
InOrder locale_before rank (w ∷ ws) =
    All (λ v. StandsBefore locale_before (rank w) (rank v)) ws × InOrder locale_before rank ws

sorted-InOrder :
    (locale_before : String → String → Bool) (rank : PoolMetricWindows → Rank)
    (ws : List PoolMetricWindows)
    → IsSorted (λ a b. rank_before locale_before (rank a) (rank b)) ws
    → InOrder locale_before rank ws
sorted-InOrder locale_before rank [] s = tt
sorted-InOrder locale_before rank (w ∷ ws) (first, rest) =
    (each ws first, sorted-InOrder locale_before rank ws rest)
  where
    each :
        (vs : List PoolMetricWindows)
        → All (λ v. rank_before locale_before (rank v) (rank w) ≡ false) vs
        → All (λ v. StandsBefore locale_before (rank w) (rank v)) vs
    each [] h = tt
    each (v ∷ vs) (h, hs) = (rank-StandsBefore locale_before (rank w) (rank v) h, each vs hs)

abbrev pub has_value : (PoolMetricWindows → Rank) → PoolMetricWindows → Bool
has_value rank w = is_some (rank w).value

included-has_value :
    (windows : List PoolMetricWindows) (by : PoolRankSort) (w : PoolMetricWindows)
    → is_included windows by w ≡ true
    → has_value (rank_of windows by) w ≡ true
included-has_value windows by w h = ground arith

every-select :
    (p q : PoolMetricWindows → Bool) (ws : List PoolMetricWindows)
    → ((w : PoolMetricWindows) → p w ≡ true → q w ≡ true)
    → every q (select p ws) ≡ true
unfolding every select
every-select p q [] h = refl
every-select p q (w ∷ ws) h = ground (arith, h w, every-select p q ws h)

-- With any order of the ids, the ranking is the included pools, each as often as in the input, and of
-- two pools the earlier has the greater value of what was asked for, or the same value and more
-- transactions, or the same of both and an id that does not follow the other's; no pool without a
-- value is included.
pub rank_pools-IsSorted :
    (locale_before : String → String → Bool) (windows : List PoolMetricWindows) (by : PoolRankSort)
    → IsOrder locale_before
    → Perm (rank_pools locale_before windows by) (select (is_included windows by) windows)
      × InOrder locale_before (rank_of windows by) (rank_pools locale_before windows by)
      × (every (has_value (rank_of windows by)) (select (is_included windows by) windows) ≡ true)
unfolding rank_pools
rank_pools-IsSorted locale_before windows by locale = (
  sort-perm _ (select (is_included windows by) windows),
  sorted-InOrder locale_before (rank_of windows by) _ (
      sort-IsSorted _ (by_rank locale_before locale (rank_of windows by))
        (select (is_included windows by) windows)),
  every-select _ _ windows (included-has_value windows by),
)

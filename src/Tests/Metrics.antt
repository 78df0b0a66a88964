-- ===== src/Tests/Metrics.antt =====
-- Runs of src/metrics/baseline.ts.
use lp_monitor.Prelude.{ℕ, ◌≡◌, refl, none, some, List, [], ◌∷◌, pos, true}
use lp_monitor.Metrics.Baseline.Rolling.{RollingBaselinePoint, rolling_volume_baselines}
use lp_monitor.Metrics.Baseline.Prefix.{
  prefix_baselines, rolling_volume_baselines-eq-prefix_baselines,
}

abbrev point : ℕ → RollingBaselinePoint
point volume = record {
  eligible = true;
  unit = some "usd";
  current = some (pos volume);
  history = none;
}

abbrev three_points : List RollingBaselinePoint
three_points = point 5 ∷ point 7 ∷ point 6 ∷ []

rolling_volume_baselines-eq-prefix_baselines_example :
    rolling_volume_baselines three_points 2 2 ≡ prefix_baselines 2 2 [] three_points
rolling_volume_baselines-eq-prefix_baselines_example =
    rolling_volume_baselines-eq-prefix_baselines three_points 2 2 refl

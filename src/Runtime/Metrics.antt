-- ===== src/Runtime/Metrics.antt =====
-- `metricPoint`, `appendMetric` and `trimMetric`: the points of the last five seconds.
pub mod Window
use bk7252n_gate.Prelude.{ℕ, ◌+◌, ◌*◌, ◌^◌, List, [], ◌∷◌, ◌++◌, Bool, ltb, if◌then◌else◌}

pub record Metric : Type 0 where
  pub at : ℕ
  pub bytes : ℕ

abbrev pub metric_window : ℕ
metric_window = 5 * 10 ^ 9

-- `points[i].at.Before(now.Add(-metricWindow))`
unfoldable pub is_old : ℕ → Metric → Bool
is_old now p = ltb (p.at + metric_window) now

-- The loop stops at the first point that is not old.
unfoldable pub trim_metric : List Metric → ℕ → List Metric
trim_metric [] now = []
trim_metric (p ∷ points) now =
    let rest = trim_metric points now in if is_old now p then rest else p ∷ points

unfoldable pub append_metric : List Metric → ℕ → ℕ → List Metric
append_metric points at bytes = trim_metric (points ++ (record { at = at; bytes = bytes } ∷ [])) at

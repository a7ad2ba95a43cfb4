-- ===== src/Runtime/Metrics/Window.antt =====
-- What is left of the metric after a trim.
use bk7252n_gate.Prelude.{
  ℕ, ◌+◌, ◌≤◌, ◌<◌, ◌≡◌, refl, ap, List, [], ◌∷◌, ◌++◌, All, arith, Bool-cases, inl, inr,
}
use bk7252n_gate.Runtime.Metrics.{Metric, metric_window, is_old, trim_metric}

abbrev pub IsFresh : ℕ → Metric → Type 0
IsFresh now p = now ≤ p.at + metric_window

abbrev pub IsOld : ℕ → Metric → Type 0
IsOld now p = p.at + metric_window < now

-- Each point is no later than those behind it.
abbrev pub IsSorted : List Metric → Type 0
IsSorted [] = Unit
IsSorted (p ∷ ps) = All (λ q. p.at ≤ q.at) ps × IsSorted ps

-- `kept` is what a trim at `now` leaves of `points`.
pub record IsTrimmed (now : ℕ) (points kept : List Metric) : Type 0 where
  pub dropped : List Metric
  pub split : points ≡ dropped ++ kept
  pub old : All (IsOld now) dropped
  pub fresh : All (IsFresh now) kept

all_fresh :
    (now : ℕ) (p : Metric) (ps : List Metric)
    → IsFresh now p
    → All (λ q. p.at ≤ q.at) ps
    → All (IsFresh now) ps
all_fresh now p [] f h = tt
all_fresh now p (q ∷ ps) f h = (omega (arith, h.0), all_fresh now p ps f h.1)

-- A trim of points in the order of time drops those older than the window of five seconds, and no
-- others.
trim_metric-IsTrimmed :
    (points : List Metric) (now : ℕ)
    → IsSorted points
    → IsTrimmed now points (trim_metric points now)
unfolding trim_metric is_old
trim_metric-IsTrimmed [] now h = record { dropped = []; split = refl; old = tt; fresh = tt }
trim_metric-IsTrimmed (p ∷ ps) now h = elim (Bool-cases (is_old now p)) [
  | inl old ↦
      let ih = trim_metric-IsTrimmed ps now h.1 in
      rw old (record {
        dropped = p ∷ ih.dropped;
        split = ap (λ l. p ∷ l) ih.split;
        old = (ground arith, ih.old);
        fresh = ih.fresh;
      })
  | inr young ↦
      let f : IsFresh now p = ground arith in
      rw young
        (record { dropped = []; split = refl; old = tt; fresh = (f, all_fresh now p ps f h.0) })
]

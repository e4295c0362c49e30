-- ===== src/Internet/Bearer/Metrics.antt =====
-- The metric of a secondary connection in internal/pkg/internet/bearer_config.go is the least that is
-- free.
use sigmo.Common.{
  ℕ, zero, suc, ◌+◌, ◌<◌, ◌≤◌, ◌≡◌, true, false, ◌&&◌, List, [], ◌∷◌, length, Any, arith, leb, ◌==◌,
  nat_equal, list_equal, Bool-cases, any-Any, Any-exists, inl, inr, if◌then◌else◌,
}
use native.Mathlib.Decide.{ℕ_discrete}
use sigmo.Internet.Route.{DefaultRoute}
use sigmo.Internet.Plan.{secondary_route_metric}
use sigmo.Internet.Bearer.{route_metric_in_use, secondary_loop, secondary_route_metric_for}

-- How many routes have a metric from `metric` on.
count_from : ℕ → List DefaultRoute → ℕ
count_from metric [] = 0
count_from metric (r ∷ current) = (if leb metric r.metric then 1 else 0) + count_from metric current

count_from-le-length : (m : ℕ) (current : List DefaultRoute) → count_from m current ≤ length current
unfolding count_from
count_from-le-length m [] = omega arith
count_from-le-length m (r ∷ current) = ground (arith, count_from-le-length m current)

count_from_suc_le :
    (m : ℕ) (current : List DefaultRoute) → count_from (m + 1) current ≤ count_from m current
unfolding count_from
count_from_suc_le m [] = omega arith
count_from_suc_le m (r ∷ current) = ground (arith, count_from_suc_le m current)

-- A route of the metric is passed with it.
count_from_suc_lt :
    (m family : ℕ) (current : List DefaultRoute)
    → Any (λ r. (r.family == family && r.metric == m) ≡ true) current
    → count_from (m + 1) current < count_from m current
unfolding count_from
count_from_suc_lt m family [] h = absurd h
count_from_suc_lt m family (r ∷ current) (inl e) = ground (arith, e, count_from_suc_le m current)
count_from_suc_lt m family (r ∷ current) (inr h) =
    ground (arith, count_from_suc_lt m family current h)

passing_in_use :
    (routes current : List DefaultRoute) (m : ℕ)
    → route_metric_in_use routes current m ≡ true
    → count_from (m + 1) current < count_from m current
unfolding route_metric_in_use
passing_in_use routes current m h =
    let (route, e) = Any-exists routes (any-Any _ routes h) in
    count_from_suc_lt m route.family current (any-Any _ current e)

pub record IsLeastUnused (routes current : List DefaultRoute) (low m : ℕ) : Type 0 where
  pub free : route_metric_in_use routes current m ≡ false
  pub above : low ≤ m
  pub least : (k : ℕ) → low ≤ k → k < m → route_metric_in_use routes current k ≡ true

secondary_loop-IsLeastUnused :
    (fuel : ℕ) (routes current : List DefaultRoute) (m : ℕ)
    → count_from m current < fuel
    → IsLeastUnused routes current m (secondary_loop fuel routes current m)
unfolding secondary_loop
secondary_loop-IsLeastUnused zero routes current m h = absurd (omega arith)
secondary_loop-IsLeastUnused (suc fuel) routes current m h =
    elim (Bool-cases (route_metric_in_use routes current m)) [
      | inr stop ↦
          rw stop
            (record { free = stop; above = omega arith; least = λ k lo hi. absurd (omega arith) })
      | inl go ↦ rw go (
          let rest =
            secondary_loop-IsLeastUnused fuel routes current (m + 1)
              (omega (arith, passing_in_use routes current m go)) in
          record {
            free = rest.free;
            above = omega (arith, rest.above);
            least = λ k lo hi. elim (ℕ_discrete k m) [
              | yes e ↦ rw e go
              | no ne ↦ rest.least k (omega arith) hi
            ];
          })
    ]

pub secondary_route_metric_for-IsLeastUnused :
    (routes current : List DefaultRoute)
    → IsLeastUnused routes current secondary_route_metric
        (secondary_route_metric_for routes current)
unfolding secondary_route_metric_for
secondary_route_metric_for-IsLeastUnused routes current =
    secondary_loop-IsLeastUnused (suc (length current)) routes current secondary_route_metric
      (omega (arith, count_from-le-length secondary_route_metric current))

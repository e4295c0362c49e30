-- ===== src/Internet/Plan/Fallback.antt =====
-- The fallback metric of internal/pkg/internet/default_route.go is the least that is free.
use sigmo.Common.{
  ℕ, zero, suc, ◌+◌, ◌<◌, ◌≤◌, ◌≡◌, true, false, ◌&&◌, List, [], ◌∷◌, length, arith, leb, ◌==◌,
  nat_equal, list_equal, Bool-cases, inl, inr, if◌then◌else◌,
}
use native.Mathlib.Decide.{ℕ_discrete}
use sigmo.Internet.Route.{DefaultRoute}
use sigmo.Internet.Plan.{default_route_metric, route_metric_exists, fallback_loop, fallback_metric}

-- How many routes of the family have a metric from `metric` on.
count_from : DefaultRoute → ℕ → List DefaultRoute → ℕ
count_from route metric [] = 0
count_from route metric (r ∷ used) =
    (if r.family == route.family && leb metric r.metric then 1 else 0)
    + count_from route metric used

count_from-le-length :
    (route : DefaultRoute) (m : ℕ) (used : List DefaultRoute)
    → count_from route m used ≤ length used
unfolding count_from
count_from-le-length route m [] = omega arith
count_from-le-length route m (r ∷ used) = ground (arith, count_from-le-length route m used)

count_from_suc_le :
    (route : DefaultRoute) (m : ℕ) (used : List DefaultRoute)
    → count_from route (m + 1) used ≤ count_from route m used
unfolding count_from
count_from_suc_le route m [] = omega arith
count_from_suc_le route m (r ∷ used) = ground (arith, count_from_suc_le route m used)

-- Passing a used metric leaves fewer to pass.
count_from_suc_lt :
    (route : DefaultRoute) (m : ℕ) (used : List DefaultRoute)
    → route_metric_exists route m used ≡ true
    → count_from route (m + 1) used < count_from route m used
unfolding count_from route_metric_exists
count_from_suc_lt route m [] h = cc
count_from_suc_lt route m (r ∷ used) h =
    ground (arith, count_from_suc_le route m used, count_from_suc_lt route m used)

pub record IsLeastFree (route : DefaultRoute) (used : List DefaultRoute) (low m : ℕ) : Type 0 where
  pub free : route_metric_exists route m used ≡ false
  pub above : low ≤ m
  pub least : (k : ℕ) → low ≤ k → k < m → route_metric_exists route k used ≡ true

fallback_loop-IsLeastFree :
    (fuel : ℕ) (route : DefaultRoute) (used : List DefaultRoute) (m : ℕ)
    → count_from route m used < fuel
    → IsLeastFree route used m (fallback_loop fuel route used m)
unfolding fallback_loop
fallback_loop-IsLeastFree zero route used m h = absurd (omega arith)
fallback_loop-IsLeastFree (suc fuel) route used m h =
    elim (Bool-cases (route_metric_exists route m used)) [
      | inr stop ↦
          rw stop
            (record { free = stop; above = omega arith; least = λ k lo hi. absurd (omega arith) })
      | inl go ↦ rw go (
          let fewer : count_from route (m + 1) used < fuel =
            omega (arith, count_from_suc_lt route m used go) in
          let rest = fallback_loop-IsLeastFree fuel route used (m + 1) fewer in
          record {
            free = rest.free;
            above = omega (arith, rest.above);
            least = λ k lo hi. elim (ℕ_discrete k m) [
              | yes e ↦ rw e go
              | no ne ↦ rest.least k (omega arith) hi
            ];
          })
    ]

-- For every route, the fallback metric is used by no route of its family, is at least the default
-- metric plus the route's own plus one, and every metric from there up to it is used.
pub fallback_metric-IsLeastFree :
    (route : DefaultRoute) (used : List DefaultRoute)
    → IsLeastFree route used (default_route_metric + route.metric + 1) (fallback_metric route used)
unfolding fallback_metric
fallback_metric-IsLeastFree route used =
    let low : ℕ = default_route_metric + route.metric + 1 in
    fallback_loop-IsLeastFree (suc (length used)) route used low
      (omega (arith, count_from-le-length route low used))

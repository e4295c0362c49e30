-- ===== src/Internet/Plan.antt =====
-- Which default routes give way to a preferred one: the planning half of
-- internal/pkg/internet/default_route.go.
pub mod Fallback
pub mod Rivals
pub mod Wins
pub mod Clash
use sigmo.Common.{
  ℕ, zero, suc, ◌+◌, Bool, true, false, not, ◌&&◌, ◌||◌, List, [], ◌∷◌, ◌++◌, Option, none, some,
  length, ltb, ◌==◌, nat_equal, list_equal, if◌then◌else◌,
}
use sigmo.Internet.Route.{DefaultRoute, default_route_exists}

pub record DefaultRouteChange : Type 0 where
  pub original : DefaultRoute
  pub replacement : DefaultRoute

abbrev pub default_route_metric : ℕ
default_route_metric = 10

abbrev pub secondary_route_metric : ℕ
secondary_route_metric = 9000

unfoldable pub route_metric : Bool → ℕ
route_metric default_route = if default_route then default_route_metric else secondary_route_metric

-- One round of `preferredMetric`; `none` is that no metric was found yet.
abbrev pub improve : ℕ → DefaultRoute → Option ℕ → Option ℕ
improve family route none = if not (route.family == family) then none else some route.metric
improve family route (some metric) =
    if not (route.family == family)
    then some metric
    else if ltb route.metric metric
    then some route.metric
    else some metric

preferred_from : ℕ → List DefaultRoute → Option ℕ → Option ℕ
preferred_from family [] best = best
preferred_from family (route ∷ routes) best =
    preferred_from family routes (improve family route best)

unfoldable pub preferred_metric : ℕ → List DefaultRoute → Option ℕ
unfolding preferred_from
preferred_metric family routes = preferred_from family routes none

unfoldable pub route_metric_exists : DefaultRoute → ℕ → List DefaultRoute → Bool
route_metric_exists route metric [] = false
route_metric_exists route metric (existing ∷ routes) =
    (existing.family == route.family && existing.metric == metric)
    || route_metric_exists route metric routes

-- `for routeMetricExists(route, metric, used) { metric++ }`. Every round passes a used metric, so one
-- round more than there are routes is enough.
fallback_loop : ℕ → DefaultRoute → List DefaultRoute → ℕ → ℕ
fallback_loop zero route used metric = metric
fallback_loop (suc fuel) route used metric =
    let next = fallback_loop fuel route used (metric + 1) in
    if route_metric_exists route metric used then next else metric

unfoldable pub fallback_metric : DefaultRoute → List DefaultRoute → ℕ
unfolding fallback_loop
fallback_metric route used =
    fallback_loop (suc (length used)) route used (default_route_metric + route.metric + 1)

-- The route that takes the place of one that gives way.
abbrev pub demoted : DefaultRoute → List DefaultRoute → DefaultRoute
demoted route used = record route { metric = fallback_metric route used }

-- A route is left alone if it is preferred, or loses to the preferred ones as it is.
unfoldable pub keeps_place : DefaultRoute → List DefaultRoute → Bool
keeps_place route preferred =
    default_route_exists route preferred || elim (preferred_metric route.family preferred) [
      | none ↦ true
      | some metric ↦ ltb metric route.metric
    ]

changes_from : List DefaultRoute → List DefaultRoute → List DefaultRoute → List DefaultRouteChange
unfolding keeps_place
changes_from preferred used [] = []
changes_from preferred used (route ∷ current) =
    let skip = changes_from preferred used current in
    let change =
      record { original = route; replacement = demoted route used }
      ∷ changes_from preferred (used ++ demoted route used ∷ []) current in
    if keeps_place route preferred then skip else change

unfoldable pub default_route_changes :
    List DefaultRoute → List DefaultRoute → List DefaultRouteChange
unfolding changes_from
default_route_changes current preferred = changes_from preferred current current

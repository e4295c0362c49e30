-- ===== src/Internet/Recovery/Replanned.antt =====
-- What internal/pkg/internet/bearer_config.go recovers of the addresses and routes that it planned.
use sigmo.Common.{
  ℕ, ◌≡◌, refl, sym, ap, ◌∙◌, Bool, true, false, List, [], ◌∷◌, ◌++◌, Option, none, some, Bytes,
  Text, All, Any, nat_equal, list_equal, Result, ok, err, ◌>>=◌, map_result, >>=-eq-ok, Ensures,
  Ensures-ok,
}
use sigmo.Internet.Route.{DefaultRoute, Same, family_ipv4, family_ipv6}
use sigmo.Internet.Plan.{route_metric}
use sigmo.Internet.Takeover.{NetError}
use sigmo.Internet.Bearer.{
  BearerIpConfig, IpPrefix, BearerError, BearerPlan, plan_bearer, with_metric, with_addresses,
  family_addresses, family_routes, prefix_from_ip_config, addresses_and_routes_with_metric,
  addresses_and_routes, set_route_metric, route_state_from_routes,
}
use sigmo.Internet.Bearer.Recovery.{Planned, plan_bearer-Planned, route_state-plan_bearer}
use sigmo.Internet.Recovery.{recovered_routes}

set_route_metric_twice :
    (routes : List DefaultRoute) (m n : ℕ)
    → set_route_metric (set_route_metric routes m) n ≡ set_route_metric routes n
unfolding set_route_metric
set_route_metric_twice [] m n = refl
set_route_metric_twice (r ∷ routes) m n =
    ap {B = List DefaultRoute} (λ rs. record r { metric = n } ∷ rs)
      (set_route_metric_twice routes m n)

set_route_metric_same :
    (interface : Text) (routes : List DefaultRoute) (m : ℕ)
    → All (λ r. (r.interface ≡ interface) × (r.metric ≡ m)) routes
    → set_route_metric routes m ≡ routes
unfolding set_route_metric
set_route_metric_same interface [] m h = refl
set_route_metric_same interface (r ∷ routes) m h =
    ap {B = List DefaultRoute} (λ n. record r { metric = n } ∷ set_route_metric routes m)
      (sym h.0.1)
    ∙ ap {B = List DefaultRoute} (λ rs. r ∷ rs) (set_route_metric_same interface routes m h.1)

abbrev Parts : Type 0
Parts = List IpPrefix × List DefaultRoute

abbrev rerouted : ℕ → Parts → Parts
rerouted m parts = (parts.0, set_route_metric parts.1 m)

module _ (parse_addr : Text → Result ℕ Bytes) (interface : Text) (ip4 ip6 : BearerIpConfig) where
  abbrev parts_of :
      ℕ
      → Result BearerError (Option IpPrefix)
      → Result BearerError (Option IpPrefix)
      → Result BearerError Parts
  parts_of m r4 r6 = do
    p4 ← r4
    p6 ← r6
    with_addresses (family_addresses p4 ++ family_addresses p6) (
        family_routes parse_addr interface m true family_ipv4 ip4 p4
        ++ family_routes parse_addr interface m true family_ipv6 ip6 p6)

  -- The metric is only in the metrics of the routes.
  parts-rerouted :
      (m n : ℕ) (r4 r6 : Result BearerError (Option IpPrefix))
      → map_result (rerouted n) (parts_of m r4 r6) ≡ parts_of n r4 r6
  unfolding set_route_metric
  parts-rerouted m n (err e) r6 = refl
  parts-rerouted m n (ok p4) (err e) = refl
  parts-rerouted m n (ok none) (ok none) = refl
  parts-rerouted m n (ok none) (ok (some b)) = refl
  parts-rerouted m n (ok (some a)) (ok none) = refl
  parts-rerouted m n (ok (some a)) (ok (some b)) = refl

  addresses_and_routes-rerouted :
      (m n : ℕ) {parts : Parts}
      → addresses_and_routes_with_metric parse_addr interface m true ip4 ip6 ≡ ok parts
      → addresses_and_routes_with_metric parse_addr interface n true ip4 ip6 ≡ ok (rerouted n parts)
  unfolding addresses_and_routes_with_metric
  addresses_and_routes-rerouted m n h =
      sym (
        parts-rerouted m n (prefix_from_ip_config parse_addr ip4 family_ipv4)
          (prefix_from_ip_config parse_addr ip6 family_ipv6))
      ∙ ap (map_result (rerouted n)) h

-- A plan has the addresses, and the routes but for their metric.
record FromParts (parts : Parts) (plan : BearerPlan) : Type 0 where
  addresses_eq : plan.addresses ≡ parts.0
  routes_eq : (n : ℕ) → set_route_metric plan.routes n ≡ set_route_metric parts.1 n

with_metric-FromParts :
    (default_route : Bool) (current : Result NetError (List DefaultRoute))
    (addresses : List IpPrefix) (routes : List DefaultRoute)
    → Ensures (FromParts (addresses, routes)) (with_metric default_route current addresses routes)
with_metric-FromParts d current addresses [] = record { addresses_eq = refl; routes_eq = λ n. refl }
with_metric-FromParts true current addresses (r ∷ rs) = record {
  addresses_eq = refl;
  routes_eq = λ n. refl;
}
with_metric-FromParts false (err e) addresses (r ∷ rs) = tt
with_metric-FromParts false (ok current) addresses (r ∷ rs) = record {
  addresses_eq = refl;
  routes_eq = set_route_metric_twice (r ∷ rs) _;
}

planned_parts :
    (parse_addr : Text → Result ℕ Bytes) (interface : Text) (default_route : Bool)
    (ip4 ip6 : BearerIpConfig) (current : Result NetError (List DefaultRoute)) (plan : BearerPlan)
    → plan_bearer parse_addr interface default_route ip4 ip6 current ≡ ok plan
    → addresses_and_routes_with_metric parse_addr interface plan.route_metric true ip4 ip6
      ≡ ok (plan.addresses, plan.routes)
planned_parts parse_addr interface default_route ip4 ip6 current plan e =
    let planned =
      Ensures-ok (Planned interface default_route)
        (plan_bearer parse_addr interface default_route ip4 ip6 current)
        (plan_bearer-Planned parse_addr interface default_route ip4 ip6 current) e in
    let (parts, found, rest) =
      >>=-eq-ok (addresses_and_routes parse_addr interface default_route ip4 ip6)
        (λ parts. with_metric default_route current parts.0 parts.1) {last = plan}
        (unfold plan_bearer in e) in
    let from =
      Ensures-ok (FromParts parts) (with_metric default_route current parts.0 parts.1)
        (with_metric-FromParts default_route current parts.0 parts.1) rest in
    let same : set_route_metric parts.1 plan.route_metric ≡ plan.routes =
      sym (from.routes_eq plan.route_metric)
      ∙ set_route_metric_same interface plan.routes plan.route_metric planned.routed.own in
    addresses_and_routes-rerouted parse_addr interface ip4 ip6 (route_metric default_route)
      plan.route_metric found
    ∙ ap {B = Result BearerError Parts} (λ a. ok (a, set_route_metric parts.1 plan.route_metric))
        (sym from.addresses_eq)
    ∙ ap {B = Result BearerError Parts} (λ rs. ok (plan.addresses, rs)) same

-- For every configuration that is planned, and every table whose routes on the interface are the
-- planned ones, as far as routes are told apart: the table tells that there is a connection, its
-- metric, and whether it was configured as a default one, and what is recovered from that and the same
-- configuration is what was planned, the addresses and the routes with their metric.
pub recovered_routes-plan_bearer :
    (parse_addr : Text → Result ℕ Bytes) (interface : Text) (default_route : Bool)
    (ip4 ip6 : BearerIpConfig) (current : Result NetError (List DefaultRoute)) (plan : BearerPlan)
    (table : List DefaultRoute)
    → plan_bearer parse_addr interface default_route ip4 ip6 current ≡ ok plan
    → All (λ p. Any (Same p) table) plan.routes
    → All (λ r. r.interface ≡ interface → Any (λ p. Same p r) plan.routes) table
    → let state = route_state_from_routes table interface in
      (state ≡ record { found = true; metric = plan.route_metric; default_route = default_route })
      × (recovered_routes parse_addr interface ip4 ip6 state ≡ ok (plan.addresses, plan.routes))
unfolding recovered_routes
recovered_routes-plan_bearer parse_addr interface default_route ip4 ip6 current plan table e there
      only =
    let state =
      route_state-plan_bearer parse_addr interface default_route ip4 ip6 current plan table e there
        only in
    (state, rw state (planned_parts parse_addr interface default_route ip4 ip6 current plan e))

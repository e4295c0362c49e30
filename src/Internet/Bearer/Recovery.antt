-- ===== src/Internet/Bearer/Recovery.antt =====
-- What internal/pkg/internet/bearer_config.go reads back from the kernel's table about a connection
-- that it configured.
use sigmo.Common.{
  ℕ, ◌≡◌, refl, sym, ◌∙◌, Bool, true, false, List, [], ◌∷◌, ◌++◌, Option, none, some, Bytes, Text,
  All, Any, All-map, Any-map, Any-All, arith, leb, ge→ltb, ◌==◌, nat_equal, list_equal,
  list_beq_iff, Result, ok, err, Ensures, Ensures-bind, Ensures-ok, Bool-cases, Any-exists, inl,
  inr,
}
use mathlib.Core.Path.{subst}
use sigmo.Internet.Route.{DefaultRoute, Same, family_ipv4, family_ipv6}
use sigmo.Internet.Takeover.{NetError}
use sigmo.Internet.Plan.{default_route_metric, route_metric}
use sigmo.Internet.Bearer.{
  BearerIpConfig, IpPrefix, BearerError, BearerPlan, RecoveredRoute, nothing_recovered, note_routes,
  route_state_from_routes, plan_bearer, with_metric, with_addresses, family_addresses,
  family_routes, prefix_from_ip_config, addresses_and_routes_with_metric, addresses_and_routes,
  secondary_route_metric_for, set_route_metric,
}
use sigmo.Internet.Bearer.Metrics.{secondary_route_metric_for-IsLeastUnused}

-- There are routes, and they are all on the interface with the metric.
pub record Routed (interface : Text) (metric : ℕ) (routes : List DefaultRoute) : Type 0 where
  pub own : All (λ r. (r.interface ≡ interface) × (r.metric ≡ metric)) routes
  pub some_route : (r : DefaultRoute) × Any (λ p. p ≡ r) routes

with_addresses-Routed :
    (parse_addr : Text → Result ℕ Bytes) (interface : Text) (metric : ℕ) (ip4 ip6 : BearerIpConfig)
    (p4 p6 : Option IpPrefix)
    → Ensures {E = BearerError}
        (λ found. Routed interface metric found.1)
        (with_addresses (family_addresses p4 ++ family_addresses p6) (
          family_routes parse_addr interface metric true family_ipv4 ip4 p4
          ++ family_routes parse_addr interface metric true family_ipv6 ip6 p6))
with_addresses-Routed parse_addr interface metric ip4 ip6 none none = tt
with_addresses-Routed parse_addr interface metric ip4 ip6 none (some a) = record {
  own = ((refl, refl), tt);
  some_route = (_, inl refl);
}
with_addresses-Routed parse_addr interface metric ip4 ip6 (some a) none = record {
  own = ((refl, refl), tt);
  some_route = (_, inl refl);
}
with_addresses-Routed parse_addr interface metric ip4 ip6 (some a) (some b) = record {
  own = ((refl, refl), ((refl, refl), tt));
  some_route = (_, inl refl);
}

set_route_metric-own :
    (interface : Text) (old metric : ℕ) (routes : List DefaultRoute)
    → All (λ r. (r.interface ≡ interface) × (r.metric ≡ old)) routes
    → All (λ r. (r.interface ≡ interface) × (r.metric ≡ metric)) (set_route_metric routes metric)
unfolding set_route_metric
set_route_metric-own interface old metric [] h = tt
set_route_metric-own interface old metric (r ∷ routes) h =
    ((h.0.0, refl), set_route_metric-own interface old metric routes h.1)

-- A plan has routes of its own metric, which tells whether it is a default one.
pub record Planned (interface : Text) (default_route : Bool) (plan : BearerPlan) : Type 0 where
  pub routed : Routed interface plan.route_metric plan.routes
  pub told : leb plan.route_metric default_route_metric ≡ default_route

with_metric-Planned :
    (interface : Text) (default_route : Bool) (current : Result NetError (List DefaultRoute))
    (addresses : List IpPrefix) (routes : List DefaultRoute)
    → Routed interface (route_metric default_route) routes
    → Ensures (Planned interface default_route) (with_metric default_route current addresses routes)
unfolding route_metric set_route_metric
with_metric-Planned interface d current addresses [] h = absurd h.some_route.1
with_metric-Planned interface true current addresses (r ∷ rs) h = record {
  routed = subst (λ m. Routed interface m (r ∷ rs)) (sym h.own.0.1) h;
  told = rw h.own.0.1 refl;
}
with_metric-Planned interface false (err e) addresses (r ∷ rs) h = tt
with_metric-Planned interface false (ok current) addresses (r ∷ rs) h =
    let metric = secondary_route_metric_for (r ∷ rs) current in
    let low = (secondary_route_metric_for-IsLeastUnused (r ∷ rs) current).above in
    record {
      routed = record {
        own = set_route_metric-own interface _ metric (r ∷ rs) h.own;
        some_route = (_, inl refl);
      };
      told = ground (arith, low);
    }

Ensures-trivial : {E A : Type 0} (m : Result E A) → Ensures (λ a. Unit {0}) m
Ensures-trivial (ok a) = tt
Ensures-trivial (err e) = tt

pub plan_bearer-Planned :
    (parse_addr : Text → Result ℕ Bytes) (interface : Text) (default_route : Bool)
    (ip4 ip6 : BearerIpConfig) (current : Result NetError (List DefaultRoute))
    → Ensures
        (Planned interface default_route)
        (plan_bearer parse_addr interface default_route ip4 ip6 current)
unfolding plan_bearer addresses_and_routes_with_metric
plan_bearer-Planned parse_addr interface default_route ip4 ip6 current =
    Ensures-bind (λ found. Routed interface (route_metric default_route) found.1)
      (Planned interface default_route)
      (addresses_and_routes parse_addr interface default_route ip4 ip6) _
      (Ensures-bind (λ p4. Unit {0}) _ (prefix_from_ip_config parse_addr ip4 family_ipv4) _
        (Ensures-trivial _)
        (λ p4 u.
          Ensures-bind (λ p6. Unit {0}) _ (prefix_from_ip_config parse_addr ip6 family_ipv6) _
            (Ensures-trivial _)
            (λ p6 v. with_addresses-Routed parse_addr interface _ ip4 ip6 p4 p6)))
      (λ found h. with_metric-Planned interface default_route current found.0 found.1 h)

abbrev noted : ℕ → RecoveredRoute
noted metric = record { found = true; metric = metric; default_route = false }

-- The routes of the interface have one metric, so once noted it stays.
note_routes_stay :
    (interface : Text) (metric : ℕ) (table : List DefaultRoute)
    → All (λ r. r.interface ≡ interface → r.metric ≡ metric) table
    → note_routes interface table (noted metric) ≡ noted metric
unfolding note_routes
note_routes_stay interface metric [] h = refl
note_routes_stay interface metric (r ∷ table) h = elim (Bool-cases (r.interface == interface)) [
  | inr off ↦ rw off (note_routes_stay interface metric table h.1)
  | inl on ↦
      let same : r.metric ≡ metric = h.0 ((list_beq_iff r.interface interface).0 on) in
      rw (on, ge→ltb r.metric metric (omega (arith, same)))
        (note_routes_stay interface metric table h.1)
]

note_routes_find :
    (interface : Text) (metric : ℕ) (table : List DefaultRoute)
    → All (λ r. r.interface ≡ interface → r.metric ≡ metric) table
    → Any (λ r. r.interface ≡ interface) table
    → note_routes interface table nothing_recovered ≡ noted metric
unfolding note_routes
note_routes_find interface metric [] h a = absurd a
note_routes_find interface metric (r ∷ table) h a = elim (Bool-cases (r.interface == interface)) [
  | inl on ↦
      rw (on, h.0 ((list_beq_iff r.interface interface).0 on))
        (note_routes_stay interface metric table h.1)
  | inr off ↦ elim a [
    | inl here ↦ absurd (ground (arith, off, (list_beq_iff r.interface interface).1 here))
    | inr later ↦ rw off (note_routes_find interface metric table h.1 later)
  ]
]

pub route_state-plan_bearer :
    (parse_addr : Text → Result ℕ Bytes) (interface : Text) (default_route : Bool)
    (ip4 ip6 : BearerIpConfig) (current : Result NetError (List DefaultRoute)) (plan : BearerPlan)
    (table : List DefaultRoute)
    → plan_bearer parse_addr interface default_route ip4 ip6 current ≡ ok plan
    → All (λ p. Any (Same p) table) plan.routes
    → All (λ r. r.interface ≡ interface → Any (λ p. Same p r) plan.routes) table
    → route_state_from_routes table interface
      ≡ record { found = true; metric = plan.route_metric; default_route = default_route }
unfolding route_state_from_routes
route_state-plan_bearer parse_addr interface default_route ip4 ip6 current plan table e there only =
    let planned =
      Ensures-ok (Planned interface default_route)
        (plan_bearer parse_addr interface default_route ip4 ip6 current)
        (plan_bearer-Planned parse_addr interface default_route ip4 ip6 current) e in
    let own = planned.routed.own in
    let one_metric : All (λ r. r.interface ≡ interface → r.metric ≡ plan.route_metric) table =
      All-map
        (λ r matched on.
          let (p, (same, of_plan)) =
            Any-exists plan.routes (Any-All _ _ plan.routes (matched on) own) in
          sym same.metric_eq ∙ of_plan.1)
        table only in
    let (route, chosen) = planned.routed.some_route in
    let (p, ((_, of_plan), in_table)) =
      Any-exists plan.routes (Any-All _ _ plan.routes (Any-All _ _ plan.routes chosen own) there) in
    let seen : Any (λ r. r.interface ≡ interface) table =
      Any-map (λ r same. sym same.interface_eq ∙ of_plan.0) table in_table in
    rw (note_routes_find interface plan.route_metric table one_metric seen, planned.told) refl

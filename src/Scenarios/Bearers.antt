-- ===== src/Scenarios/Bearers.antt =====
-- Runs of internal/pkg/internet/bearer_config.go on the kernel of Scenarios/Kernel.antt.
use sigmo.Common.{
  any, ℕ, ◌≡◌, ◌≢◌, refl, true, false, List, [], ◌∷◌, Option, Bytes, Text, codes, arith, ◌==◌,
  nat_equal, list_equal, list_beq_iff, Result, ok, err, list_beq, inl, inr, if◌then◌else◌,
  trim_space, is_space,
}
use sigmo.Internet.Route.{DefaultRoute, Same, same_default_route-Same, same_default_route_refl}
use sigmo.Internet.Route.Count.{count}
use sigmo.Internet.Takeover.{NetError, World}
use sigmo.Internet.Stale.{SavedRouteState}
use sigmo.Internet.Bearer.{
  BearerIpConfig, static, BearerPlan, plan_bearer, route_state_from_routes, set_route_metric,
  secondary_route_metric_for, addr_from_string, route_metric_in_use,
}
use sigmo.Internet.Recovery.{recovered_routes}
use sigmo.Internet.Recovery.Replanned.{recovered_routes-plan_bearer}
use sigmo.Internet.Bearer.Setup.{Bearer, TrackedConnection, SetupError, configure_bearer}
use sigmo.Internet.Profile.{BearerView, current_bearer, merge_dns}
use sigmo.Internet.Profile.Current.{Chosen, first_named, current_bearer-Chosen}
use sigmo.Internet.Profile.Dns.{Distinct, occurs, names_server, merge_dns-Distinct}
use sigmo.Internet.Bearer.Setup.Counts.{AllOrNothing}
use sigmo.Internet.Bearer.Setup.Settled.{PlanOf, configure_bearer-AllOrNothing}
use sigmo.Scenarios.Routes.{cable, no_store}
use sigmo.Scenarios.Kernel.{Kernel, kernel_ops, links, kernel_laws, link_laws, address_laws}
use sigmo.Internet.Bearer.Setup.Addresses.{Addressed}

-- The one address that is known.
abbrev parse_addr : Text → Result ℕ Bytes
parse_addr t = if t == codes "10.0.0.2" then ok (10 ∷ 0 ∷ 0 ∷ 2 ∷ []) else err 1

abbrev ip4 : BearerIpConfig
ip4 = record {
  method = static;
  address = codes "10.0.0.2";
  prefix = 24;
  gateway = codes "";
  dns = [];
  mtu = 1400;
}

abbrev no_ip6 : BearerIpConfig
no_ip6 = record ip4 { address = codes "" }

abbrev secondary : DefaultRoute
secondary = record {
  interface = codes "wwan0";
  family = 2;
  protocol = 0;
  scope = 0;
  gateway = [];
  source = 10 ∷ 0 ∷ 0 ∷ 2 ∷ [];
  metric = 9001;
}

abbrev plan : BearerPlan
plan = record {
  addresses = record { address = 10 ∷ 0 ∷ 0 ∷ 2 ∷ []; bits = 24 } ∷ [];
  routes = secondary ∷ [];
  route_metric = 9001;
}

-- The cable has taken the first metric.
abbrev slow_cable : DefaultRoute
slow_cable = record cable { metric = 9000 }

plan_found :
    plan_bearer parse_addr (codes "wwan0") false ip4 no_ip6 (ok (slow_cable ∷ [])) ≡ ok plan
unfolding plan_bearer list_beq trim_space is_space route_metric_in_use set_route_metric
    secondary_route_metric_for addr_from_string
plan_found = refl

not_eth0 : codes "eth0" ≢ codes "wwan0"
unfolding list_beq
not_eth0 = (λ e. absurd (ground (arith, (list_beq_iff (codes "eth0") (codes "wwan0")).1 e)))

Same-self : (a : DefaultRoute) → Same a a
Same-self a = (same_default_route-Same a a).0 (same_default_route_refl a)

recovered_routes-plan_bearer_example :
    let state = route_state_from_routes (slow_cable ∷ secondary ∷ []) (codes "wwan0") in
    (state ≡ record { found = true; metric = 9001; default_route = false })
    × (recovered_routes parse_addr (codes "wwan0") ip4 no_ip6 state
        ≡ ok (plan.addresses, plan.routes))
recovered_routes-plan_bearer_example =
    recovered_routes-plan_bearer parse_addr (codes "wwan0") false ip4 no_ip6 (ok (slow_cable ∷ []))
      plan (slow_cable ∷ secondary ∷ []) plan_found (inr (inl (Same-self secondary)), tt)
      ((λ e. absurd (not_eth0 e)), ((λ e. inl (Same-self secondary)), tt))

abbrev bearer : Bearer
bearer = record { interface = ok (codes "wwan0"); ip4_config = ok ip4; ip6_config = ok no_ip6 }

abbrev world : World Kernel (Unit {0})
world = record { kernel = record { routes = slow_cable ∷ []; holds = λ i a. false }; store = tt }

abbrev none_saved : Unit {0} → Result NetError (List (Text × SavedRouteState))
none_saved s = ok []

abbrev configured : World Kernel (Unit {0}) × TrackedConnection × Option SetupError
configured =
    configure_bearer kernel_ops links no_store [] none_saved parse_addr (codes "m1") bearer false
      world

configure_bearer-AllOrNothing_example :
    AllOrNothing
      (PlanOf kernel_ops links kernel_laws link_laws address_laws no_store [] none_saved parse_addr
        bearer world)
      secondary
      (count secondary world.kernel.routes)
      (count secondary configured.0.kernel.routes)
      configured.1
      configured.2
    × Addressed kernel_ops links address_laws world.kernel configured.0.kernel configured.1
        configured.2
configure_bearer-AllOrNothing_example =
    configure_bearer-AllOrNothing kernel_ops links kernel_laws link_laws address_laws no_store []
      none_saved parse_addr (codes "m1") bearer world secondary refl

-- A bearer that is down, with a name to fall back on.
abbrev down : BearerView
down = record {
  path = codes "/bearer/1";
  properties = ok (record {
    apn = codes "internet";
    ip_type = [];
    username = [];
    password = [];
    allowed_auth = [];
  });
  connected = ok false;
  interface = err 1;
  ip4_config = err 1;
  ip6_config = err 1;
  stats = err 1;
}

abbrev bearers : List BearerView
bearers = down ∷ record down { path = codes "/bearer/2"; connected = ok true } ∷ []

current_bearer-Chosen_example : Chosen (first_named bearers) bearers (current_bearer (ok bearers))
current_bearer-Chosen_example = current_bearer-Chosen bearers

abbrev servers : List (List Text)
servers = (codes "9.9.9.9" ∷ codes " " ∷ []) ∷ (codes "9.9.9.9 " ∷ codes "1.1.1.1" ∷ []) ∷ []

merge_dns-Distinct_example :
    Distinct (merge_dns servers)
    × ((d : Text) → occurs d (merge_dns servers) ≡ any (any (names_server d)) servers)
merge_dns-Distinct_example = merge_dns-Distinct servers

-- ===== src/Internet/Bearer/Setup/Cleanup.antt =====
-- Taking down a bearer that an earlier run set up: cleanupBearer of
-- internal/pkg/internet/bearer_config.go.
use sigmo.Common.{
  ℕ, Bool, List, [], ◌∷◌, Option, none, some, Bytes, Text, nat_equal, list_equal, Result, ok, err,
  if◌then◌else◌,
}
use sigmo.Internet.Route.{DefaultRoute}
use sigmo.Internet.Plan.{DefaultRouteChange, route_metric}
use sigmo.Internet.Takeover.{NetError, Errors, succeeded, RouteOps, RouteStateOps, World}
use sigmo.Internet.Bearer.{
  IpPrefix, unsupported_ip_method, RecoveredRoute, route_state_from_routes, nothing_recovered,
  addresses_and_routes_with_metric,
}
use sigmo.Internet.Bearer.Setup.{
  LinkOps, Bearer, TrackedConnection, tracked_on, SetupError, read_interface, read_ipv4, read_ipv6,
  config_failed, net_failed, cleanup_applied,
}

module _ {K : Type 0} (ops : RouteOps K) where
  -- `routeStateForInterface`: a table that cannot be read shows nothing.
  unfoldable pub route_state_for_interface : Text → K → RecoveredRoute
  route_state_for_interface interface k = elim (ops.default_routes k) [
    | err e ↦ nothing_recovered
    | ok routes ↦ route_state_from_routes routes interface
  ]

module _ {K : Type 0} (ops : RouteOps K) (links : LinkOps K) where
  -- `ctx_error` is the error of the context when the cleaning starts.
  module _ {S : Type 0} (state : RouteStateOps S) (ctx_error : Errors) where
    -- `cleanupBearer` from the bearer's answers on; `load` is `loadRouteStateForModem`, without changes
    -- if nothing is saved.
    unfoldable pub cleanup_bearer :
        (Text → Result ℕ Bytes)
        → (Text → Text → S → Result NetError (List DefaultRouteChange))
        → Text
        → Bearer
        → Bool
        → World K S
        → World K S × Option SetupError
    unfolding cleanup_applied
    cleanup_bearer parse_addr load modem_id bearer default_route w =
        let clean : Text → List IpPrefix → List DefaultRoute → World K S × Option SetupError =
          λ interface addresses routes. elim (load modem_id interface w.store) [
            | err e ↦ (w, some (net_failed (e ∷ [])))
            | ok changes ↦
                let tracked : TrackedConnection = record (tracked_on interface 0) {
                  addresses = addresses;
                  routes = routes;
                  route_changes = changes;
                } in
                let (w', e) = cleanup_applied ops links state ctx_error tracked w in
                (w', if succeeded e then none else some (net_failed e))
          ] in
        elim bearer.interface [
          | err e ↦ (w, some (read_interface e))
          | ok interface ↦ elim bearer.ip4_config [
            | err e ↦ (w, some (read_ipv4 e))
            | ok ip4 ↦ elim bearer.ip6_config [
              | err e ↦ (w, some (read_ipv6 e))
              | ok ip6 ↦
                  let seen = route_state_for_interface ops interface w.kernel in
                  let metric = if seen.found then seen.metric else route_metric default_route in
                  elim (addresses_and_routes_with_metric parse_addr interface metric seen.found ip4
                    ip6) [
                      | err unsupported_ip_method ↦ (w, none)
                      | err e ↦ (w, some (config_failed e))
                      | ok (addresses, routes) ↦ clean interface addresses routes
                    ]
            ]
          ]
        ]

-- ===== src/Internet/Bearer/Setup.antt =====
-- Setting up the interface of a bearer and taking it down again: configureBearer
-- and cleanupApplied of internal/pkg/internet/bearer_config.go. What the bearer answers over D-Bus, and the
-- links and addresses of the kernel, are parameters.
pub mod Cleanup
pub mod Addresses
pub mod Addressed
pub mod Counts
pub mod Settled
use sigmo.Common.{
  ℕ, max, Bool, true, false, not, List, [], ◌∷◌, ◌++◌, Option, none, some, Bytes, Text, ◌==◌,
  nat_equal, list_equal, Result, ok, err, if◌then◌else◌, trim_space,
}
use sigmo.Internet.Route.{DefaultRoute}
use sigmo.Internet.Plan.{DefaultRouteChange, route_metric}
use sigmo.Internet.Takeover.{
  NetError, Errors, succeeded, RouteOps, RouteStateOps, World, takeover_default_routes,
  delete_default_routes, cleanup_default_route_changes,
}
use sigmo.Internet.Stale.{SavedRouteState, RestoreTarget, restore_stale_states}
use sigmo.Internet.Bearer.{
  BearerIpConfig, IpPrefix, BearerError, parse_bearer_address, list_routes, not_ipv4, not_ipv6,
  prefix_invalid, unsupported_ip_method, BearerPlan, RecoveredRoute, plan_bearer,
  route_state_from_routes, nothing_recovered, addresses_and_routes_with_metric,
}

-- The functions of internal/pkg/netlink on links and addresses, over the state of the kernel.
pub record LinkOps (K : Type 0) : Type 0 where
  pub set_up : Text → K → K × Errors
  pub set_mtu : Text → ℕ → K → K × Errors
  pub add_address : Text → IpPrefix → K → K × Errors
  pub delete_address : Text → IpPrefix → K → K × Errors

-- What the bearer answers.
pub record Bearer : Type 0 where
  pub interface : Result ℕ Text
  pub ip4_config : Result ℕ BearerIpConfig
  pub ip6_config : Result ℕ BearerIpConfig

-- The fields that the set-up fills in.
pub record TrackedConnection : Type 0 where
  pub interface_name : Text
  pub route_metric : ℕ
  pub addresses : List IpPrefix
  pub routes : List DefaultRoute
  pub route_changes : List DefaultRouteChange

abbrev pub tracked_on : Text → ℕ → TrackedConnection
tracked_on interface metric = record {
  interface_name = interface;
  route_metric = metric;
  addresses = [];
  routes = [];
  route_changes = [];
}

pub data SetupError : Type 0 where
  read_interface read_ipv4 read_ipv6 : ℕ → SetupError
  interface_empty : SetupError
  config_failed : BearerError → SetupError
  net_failed : Errors → SetupError

-- The metric is noted before the current routes are listed.
abbrev pub metric_before : Bool → BearerError → ℕ
metric_before default_route (list_routes e) = route_metric default_route
metric_before default_route (parse_bearer_address e) = 0
metric_before default_route not_ipv4 = 0
metric_before default_route not_ipv6 = 0
metric_before default_route prefix_invalid = 0
metric_before default_route unsupported_ip_method = 0

module _ {K : Type 0} (ops : RouteOps K) (links : LinkOps K) where
  -- The kernel, the addresses that were added, and the error.
  unfoldable pub add_addresses : Text → List IpPrefix → K → K × List IpPrefix × Errors
  add_addresses interface [] k = (k, [], [])
  add_addresses interface (address ∷ addresses) k =
      let (k₁, e₁) = links.add_address interface address k in
      let (k₂, added, e₂) = add_addresses interface addresses k₁ in
      if succeeded e₁ then (k₂, address ∷ added, e₂) else (k₁, [], e₁)

  unfoldable pub add_routes : List DefaultRoute → K → K × List DefaultRoute × Errors
  add_routes [] k = (k, [], [])
  add_routes (route ∷ routes) k =
      let (k₁, e₁) = ops.add_default_route route k in
      let (k₂, added, e₂) = add_routes routes k₁ in
      if succeeded e₁ then (k₂, route ∷ added, e₂) else (k₁, [], e₁)

  -- From the last address to the first.
  unfoldable pub delete_addresses : Text → List IpPrefix → K → K × Errors
  delete_addresses interface [] k = (k, [])
  delete_addresses interface (address ∷ addresses) k =
      let (k₁, e₁) = delete_addresses interface addresses k in
      let (k₂, e₂) = links.delete_address interface address k₁ in (k₂, e₁ ++ e₂)

  -- `ctx_error` is the error of the context when the cleaning starts.
  module _ {S : Type 0} (state : RouteStateOps S) (ctx_error : Errors) where
    unfoldable pub cleanup_applied : TrackedConnection → World K S → World K S × Errors
    unfolding delete_addresses
    cleanup_applied tracked w =
        let (k₁, e₁) = delete_default_routes ops tracked.routes w.kernel in
        let (w₂, e₂) =
          cleanup_default_route_changes ops state tracked.interface_name tracked.route_changes
            (record w { kernel = k₁ }) in
        let (k₃, e₃) = delete_addresses tracked.interface_name tracked.addresses w₂.kernel in
        if not (succeeded ctx_error)
        then (w, ctx_error)
        else (record w₂ { kernel = k₃ }, e₁ ++ e₂ ++ e₃)

    module _ (load_all_route_states : S → Result NetError (List (Text × SavedRouteState))) where
      -- Giving way to a default connection: first what an earlier run left, then the takeover.
      unfoldable pub take_over :
          Text → Text → List DefaultRoute → World K S → World K S × List DefaultRouteChange × Errors
      take_over modem_id interface routes w =
          let (w₁, e₁) =
            restore_stale_states ops state (load_all_route_states w.store)
              (record { modem_id = modem_id; interface_names = interface ∷ [] }) w in
          let taken = takeover_default_routes ops state modem_id interface routes w₁ in
          if succeeded e₁ then taken else (w₁, [], e₁)

      abbrev pub take_over_if :
          Bool
          → Text
          → Text
          → List DefaultRoute
          → World K S
          → World K S × List DefaultRouteChange × Errors
      take_over_if true modem_id interface routes w = take_over modem_id interface routes w
      take_over_if false modem_id interface routes w = (w, [], [])

      -- The part of `configureBearer` that is cleaned up after when it fails.
      unfoldable pub apply_plan :
          Text → Text → Bool → BearerPlan → World K S → World K S × TrackedConnection × Errors
      unfolding add_addresses add_routes
      apply_plan modem_id interface default_route plan w =
          let tracked : TrackedConnection = tracked_on interface plan.route_metric in
          let (k₁, added, e₁) = add_addresses interface plan.addresses w.kernel in
          let with_addresses : TrackedConnection = record tracked { addresses = added } in
          let (w₂, changes, e₂) =
            take_over_if default_route modem_id interface plan.routes (record w { kernel = k₁ }) in
          let taken : TrackedConnection = record with_addresses { route_changes = changes } in
          let (k₃, routes, e₃) = add_routes plan.routes w₂.kernel in
          if not (succeeded e₁)
          then (record w { kernel = k₁ }, with_addresses, e₁)
          else if not (succeeded e₂)
          then (w₂, taken, e₂)
          else (record w₂ { kernel = k₃ }, record taken { routes = routes }, e₃)

      unfoldable pub apply_or_clean :
          Text
          → Text
          → Bool
          → BearerPlan
          → World K S
          → World K S × TrackedConnection × Option SetupError
      unfolding apply_plan cleanup_applied
      apply_or_clean modem_id interface default_route plan w =
          let (w', tracked, e) = apply_plan modem_id interface default_route plan w in
          if succeeded e
          then (w', tracked, none)
          else ((cleanup_applied tracked w').0, tracked, some (net_failed e))

      unfoldable pub configure_link :
          Text
          → Text
          → Bool
          → ℕ
          → BearerPlan
          → World K S
          → World K S × TrackedConnection × Option SetupError
      unfolding apply_or_clean
      configure_link modem_id interface default_route mtu plan w =
          let tracked : TrackedConnection = tracked_on interface plan.route_metric in
          let (k₁, e₁) = links.set_up interface w.kernel in
          let (k₂, e₂) = links.set_mtu interface mtu k₁ in
          let applied =
            apply_or_clean modem_id interface default_route plan (record w { kernel = k₂ }) in
          if not (succeeded e₁)
          then (record w { kernel = k₁ }, tracked, some (net_failed e₁))
          else if not (succeeded e₂)
          then (record w { kernel = k₂ }, tracked, some (net_failed e₂))
          else applied

      module _ (parse_addr : Text → Result ℕ Bytes) where
        configure_with :
            Text
            → Text
            → Bool
            → BearerIpConfig
            → BearerIpConfig
            → World K S
            → World K S × TrackedConnection × Option SetupError
        unfolding configure_link
        configure_with modem_id interface default_route ip4 ip6 w =
            elim (plan_bearer parse_addr interface default_route ip4 ip6
              (ops.default_routes w.kernel)) [
                | err e ↦ (
                  w,
                  tracked_on interface (metric_before default_route e),
                  some (config_failed e),
                )
                | ok plan ↦
                    configure_link modem_id interface default_route (max ip4.mtu ip6.mtu) plan w
              ]

        unfoldable pub configure_bearer :
            Text → Bearer → Bool → World K S → World K S × TrackedConnection × Option SetupError
        unfolding configure_with
        configure_bearer modem_id bearer default_route w = elim bearer.interface [
          | err e ↦ (w, tracked_on [] 0, some (read_interface e))
          | ok interface ↦
              if trim_space interface == []
              then (w, tracked_on [] 0, some interface_empty)
              else elim bearer.ip4_config [
                | err e ↦ (w, tracked_on interface 0, some (read_ipv4 e))
                | ok ip4 ↦ elim bearer.ip6_config [
                  | err e ↦ (w, tracked_on interface 0, some (read_ipv6 e))
                  | ok ip6 ↦ configure_with modem_id interface default_route ip4 ip6 w
                ]
              ]
        ]

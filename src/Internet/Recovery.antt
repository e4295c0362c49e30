-- ===== src/Internet/Recovery.antt =====
-- Taking up a connection that an earlier run left: recoverTrackedConnection and recoverPreferences of
-- internal/pkg/internet/bearer_config.go. The two functions of the store that it calls to load are
-- parameters, without a value if nothing is saved. The path of the bearer is left out of what is
-- tracked, and the preferences stand beside it.
pub mod Replanned
use sigmo.Common.{
  ℕ, Bool, true, false, not, ◌&&◌, List, [], ◌∷◌, Option, none, some, Bytes, Text, ◌==◌, nat_equal,
  list_equal, Result, ok, err, ◌>>=◌, if◌then◌else◌, trim_space,
}
use sigmo.Internet.Route.{DefaultRoute}
use sigmo.Internet.Plan.{DefaultRouteChange}
use sigmo.Internet.Takeover.{
  NetError, Errors, succeeded, RouteOps, RouteStateOps, World, takeover_default_routes,
}
use sigmo.Internet.Bearer.{
  BearerIpConfig, IpPrefix, BearerError, unsupported_ip_method, parse_bearer_address, list_routes,
  not_ipv4, not_ipv6, prefix_invalid, RecoveredRoute, addresses_and_routes_with_metric,
}
use sigmo.Internet.Bearer.Setup.{TrackedConnection, tracked_on}
use sigmo.Internet.Bearer.Setup.Cleanup.{route_state_for_interface}
use sigmo.Internet.Profile.{Preferences, BearerView, bearer_preferences}

pub data RecoverError : Type 0 where
  read_interface read_ipv4 read_ipv6 load_proxy_state : ℕ → RecoverError
  load_route_state : NetError → RecoverError
  bad_config : BearerError → RecoverError
  take_over_failed : Errors → RecoverError

-- The connection, if there is one to track, and the metric.
pub record Recovered : Type 0 where
  pub tracked : Option (TrackedConnection × Preferences)
  pub metric : ℕ

-- What the routes of the interface tell of the preference.
abbrev pub with_route_state : RecoveredRoute → Preferences → Preferences
with_route_state state prefs = record prefs {
  default_route = if state.found then state.default_route else prefs.default_route;
}

abbrev pub with_proxy_state : Option Bool → Preferences → Preferences
with_proxy_state none prefs = prefs
with_proxy_state (some enabled) prefs = record prefs { proxy_enabled = enabled }

-- A bearer without an address is nothing to track.
abbrev pub usable :
    Result BearerError (List IpPrefix × List DefaultRoute)
    → Result RecoverError (Option (List IpPrefix × List DefaultRoute))
usable (ok found) = ok (some found)
usable (err unsupported_ip_method) = ok none
usable (err e) = err (bad_config e)

abbrev pub or_fail :
    {A : Type 0} {E : Type 0} → (E → RecoverError) → Result E A → Result RecoverError A
or_fail wrap (ok a) = ok a
or_fail wrap (err e) = err (wrap e)

-- The addresses and routes that the bearer has now, with the metric of the table.
unfoldable pub recovered_routes :
    (Text → Result ℕ Bytes)
    → Text
    → BearerIpConfig
    → BearerIpConfig
    → RecoveredRoute
    → Result BearerError (List IpPrefix × List DefaultRoute)
unfolding addresses_and_routes_with_metric
recovered_routes parse_addr interface ip4 ip6 state =
    addresses_and_routes_with_metric parse_addr interface (if state.found then state.metric else 0)
      state.found ip4 ip6

module _ {K : Type 0} (ops : RouteOps K) where
  unfoldable pub recover_preferences : BearerView → Preferences → K → Preferences
  unfolding bearer_preferences
  recover_preferences bearer fallback k =
      let prefs = bearer_preferences bearer fallback in
      elim bearer.interface [
        | err e ↦ prefs
        | ok interface ↦
            if trim_space interface == []
            then prefs
            else with_route_state (route_state_for_interface ops interface k) prefs
      ]

  module _ {S : Type 0} (state_ops : RouteStateOps S) (parse_addr : Text → Result ℕ Bytes)
      (load_proxy : Text → Text → S → Result ℕ (Option Bool))
      (load_routes : Text → Text → S → Result NetError (Option (List DefaultRouteChange))) where
    -- The changes that were saved, or for a default connection without any those of a new takeover.
    recover_changes :
        Text
        → Text
        → Preferences
        → List DefaultRoute
        → Option (List DefaultRouteChange)
        → World K S
        → World K S × Result RecoverError (List DefaultRouteChange)
    recover_changes modem_id interface prefs routes (some changes) w = (w, ok changes)
    recover_changes modem_id interface prefs routes none w =
        let (w', changes, e) = takeover_default_routes ops state_ops modem_id interface routes w in
        if prefs.default_route
        then (w', if succeeded e then ok changes else err (take_over_failed e))
        else (w, ok [])

    track :
        Text
        → Text
        → Preferences
        → ℕ
        → Option (List IpPrefix × List DefaultRoute)
        → World K S
        → World K S × Result RecoverError Recovered
    unfolding recover_changes
    track modem_id interface prefs metric none w =
        (w, ok (record { tracked = none; metric = metric }))
    track modem_id interface prefs metric (some (addresses, routes)) w =
        elim (load_routes modem_id interface w.store) [
          | err e ↦ (w, err (load_route_state e))
          | ok saved ↦
              let (w', r) = recover_changes modem_id interface prefs routes saved w in
              (
                w',
                r >>= λ changes. ok (record {
                  tracked = some (
                    record (tracked_on interface metric) {
                      addresses = addresses;
                      routes = routes;
                      route_changes = changes;
                    },
                    prefs,
                  );
                  metric = metric;
                }),
              )
        ]

    recover_on :
        Text
        → Text
        → BearerIpConfig
        → BearerIpConfig
        → Preferences
        → World K S
        → World K S × Result RecoverError Recovered
    unfolding track recovered_routes
    recover_on modem_id interface ip4 ip6 given w =
        let state = route_state_for_interface ops interface w.kernel in
        let metric = if state.found then state.metric else 0 in
        let found : Result RecoverError (Option Bool × Option (List IpPrefix × List DefaultRoute)) =
          or_fail load_proxy_state (load_proxy modem_id interface w.store) >>= λ proxy.
          usable (recovered_routes parse_addr interface ip4 ip6 state) >>= λ parts.
          ok (proxy, parts) in
        elim found [
          | err e ↦ (w, err e)
          | ok (proxy, parts) ↦
              track modem_id interface (with_proxy_state proxy (with_route_state state given))
                metric parts w
        ]

    unfoldable pub recover_tracked_connection :
        Text → BearerView → Preferences → World K S → World K S × Result RecoverError Recovered
    unfolding recover_on recover_preferences
    recover_tracked_connection modem_id bearer fallback w =
        let prefs = recover_preferences bearer fallback w.kernel in
        elim bearer.interface [
          | err e ↦ (w, err (read_interface e))
          | ok interface ↦
              if trim_space interface == []
              then (w, ok (record { tracked = none; metric = 0 }))
              else elim bearer.ip4_config [
                | err e ↦ (w, err (read_ipv4 e))
                | ok ip4 ↦ elim bearer.ip6_config [
                  | err e ↦ (w, err (read_ipv6 e))
                  | ok ip6 ↦ recover_on modem_id interface ip4 ip6 prefs w
                ]
              ]
        ]

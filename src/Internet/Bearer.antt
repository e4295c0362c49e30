-- ===== src/Internet/Bearer.antt =====
-- The addresses and routes of a bearer, and reading a connection back from the kernel's table: the
-- pure half of internal/pkg/internet/bearer_config.go. `netip.ParseAddr` is a parameter; an address is
-- its 4 or 16 bytes, without a zone.
pub mod Metrics
pub mod Recovery
pub mod Setup
use sigmo.Common.{
  ℕ, zero, suc, ◌+◌, Bool, true, false, not, ◌&&◌, ◌||◌, List, [], ◌∷◌, ◌++◌, Option, none, some,
  Bytes, Text, length, any, map, ltb, leb, ◌==◌, nat_equal, list_equal, Result, ok, err, ◌>>=◌,
  if◌then◌else◌, trim_space,
}
use sigmo.Internet.Route.{DefaultRoute, family_ipv4, family_ipv6}
use sigmo.Internet.Takeover.{NetError}
use sigmo.Internet.Plan.{default_route_metric, secondary_route_metric, route_metric}

pub data BearerIpMethod : Type 0 where
  unknown ppp static dhcp : BearerIpMethod

pub record BearerIpConfig : Type 0 where
  pub method : BearerIpMethod
  pub address : Text
  pub prefix : ℕ
  pub gateway : Text
  pub dns : List Text
  pub mtu : ℕ

abbrev is_static : BearerIpMethod → Bool
is_static static = true
is_static unknown = false
is_static ppp = false
is_static dhcp = false

abbrev pub static_address : BearerIpConfig → Bool
static_address c = is_static c.method && not (trim_space c.address == [])

pub record IpPrefix : Type 0 where
  pub address : Bytes
  pub bits : ℕ

pub data BearerError : Type 0 where
  parse_bearer_address : ℕ → BearerError
  list_routes : NetError → BearerError
  not_ipv4 not_ipv6 prefix_invalid unsupported_ip_method : BearerError

-- `Is4` and `Is6` of an address.
abbrev is4 : Bytes → Bool
is4 addr = length addr == 4

abbrev is6 : Bytes → Bool
is6 addr = length addr == 16

-- `netip.PrefixFrom(addr, bits)`, with `IsValid`.
abbrev prefix_from : Bytes → ℕ → Result BearerError (Option IpPrefix)
prefix_from addr bits =
    if leb bits (if is4 addr then 32 else 128)
    then ok (some (record { address = addr; bits = bits }))
    else err prefix_invalid

abbrev pub family_addresses : Option IpPrefix → List IpPrefix
family_addresses none = []
family_addresses (some address) = address ∷ []

-- A bearer without an address is refused.
abbrev pub with_addresses :
    List IpPrefix → List DefaultRoute → Result BearerError (List IpPrefix × List DefaultRoute)
with_addresses [] routes = err unsupported_ip_method
with_addresses (address ∷ addresses) routes = ok (address ∷ addresses, routes)

module _ (parse_addr : Text → Result ℕ Bytes) where
  -- A configuration without a static address has no prefix, which is `none`.
  unfoldable pub prefix_from_ip_config : BearerIpConfig → ℕ → Result BearerError (Option IpPrefix)
  prefix_from_ip_config cfg family =
      if not (static_address cfg) then ok none else elim (parse_addr cfg.address) [
        | err e ↦ err (parse_bearer_address e)
        | ok addr ↦
            if family == family_ipv4 && not (is4 addr)
            then err not_ipv4
            else if family == family_ipv6 && not (is6 addr)
            then err not_ipv6
            else if cfg.prefix == 0
            then prefix_from addr (if is4 addr then 32 else 128)
            else prefix_from addr cfg.prefix
      ]

  -- An address that cannot be read is the zero `netip.Addr`.
  unfoldable pub addr_from_string : Text → Bytes
  addr_from_string value = elim (parse_addr (trim_space value)) [ err e ↦ [] | ok addr ↦ addr ]

  -- The default route of one family.
  abbrev pub bearer_route : Text → ℕ → ℕ → BearerIpConfig → IpPrefix → DefaultRoute
  bearer_route interface metric family cfg address = record {
    interface = interface;
    family = family;
    protocol = 0;
    scope = 0;
    gateway = addr_from_string cfg.gateway;
    source = address.address;
    metric = metric;
  }

  abbrev pub family_routes :
      Text → ℕ → Bool → ℕ → BearerIpConfig → Option IpPrefix → List DefaultRoute
  family_routes interface metric include_routes family cfg none = []
  family_routes interface metric include_routes family cfg (some address) =
      if include_routes then bearer_route interface metric family cfg address ∷ [] else []

  unfoldable pub addresses_and_routes_with_metric :
      Text
      → ℕ
      → Bool
      → BearerIpConfig
      → BearerIpConfig
      → Result BearerError (List IpPrefix × List DefaultRoute)
  unfolding prefix_from_ip_config
  addresses_and_routes_with_metric interface metric include_routes ip4 ip6 = do
    p4 ← prefix_from_ip_config ip4 family_ipv4
    p6 ← prefix_from_ip_config ip6 family_ipv6
    with_addresses (family_addresses p4 ++ family_addresses p6) (
        family_routes interface metric include_routes family_ipv4 ip4 p4
        ++ family_routes interface metric include_routes family_ipv6 ip6 p6)

  abbrev pub addresses_and_routes :
      Text
      → Bool
      → BearerIpConfig
      → BearerIpConfig
      → Result BearerError (List IpPrefix × List DefaultRoute)
  addresses_and_routes interface default_route ip4 ip6 =
      addresses_and_routes_with_metric interface (route_metric default_route) true ip4 ip6

unfoldable pub route_metric_in_use : List DefaultRoute → List DefaultRoute → ℕ → Bool
route_metric_in_use routes current metric =
    any
      (λ route.
        any (λ existing. existing.family == route.family && existing.metric == metric) current)
      routes

-- `for routeMetricInUse(routes, current, metric) { metric++ }`. A round passes a metric in use, so
-- one round more than there are current routes is enough.
secondary_loop : ℕ → List DefaultRoute → List DefaultRoute → ℕ → ℕ
secondary_loop zero routes current metric = metric
secondary_loop (suc fuel) routes current metric =
    let next = secondary_loop fuel routes current (metric + 1) in
    if route_metric_in_use routes current metric then next else metric

unfoldable pub secondary_route_metric_for : List DefaultRoute → List DefaultRoute → ℕ
unfolding secondary_loop
secondary_route_metric_for routes current =
    secondary_loop (suc (length current)) routes current secondary_route_metric

unfoldable pub set_route_metric : List DefaultRoute → ℕ → List DefaultRoute
set_route_metric [] metric = []
set_route_metric (route ∷ routes) metric =
    record route { metric = metric } ∷ set_route_metric routes metric

-- What `configureBearer` is to set up.
pub record BearerPlan : Type 0 where
  pub addresses : List IpPrefix
  pub routes : List DefaultRoute
  pub route_metric : ℕ

-- The routes that `configureBearer` adds; the current ones are read only for a secondary connection.
abbrev pub with_metric :
    Bool
    → Result NetError (List DefaultRoute)
    → List IpPrefix
    → List DefaultRoute
    → Result BearerError BearerPlan
with_metric default_route current addresses [] =
    ok (record { addresses = addresses; routes = []; route_metric = route_metric default_route })
with_metric true current addresses (route ∷ routes) =
    ok (record { addresses = addresses; routes = route ∷ routes; route_metric = route.metric })
with_metric false (err e) addresses (route ∷ routes) = err (list_routes e)
with_metric false (ok current) addresses (route ∷ routes) =
    let metric = secondary_route_metric_for (route ∷ routes) current in
    ok (record {
      addresses = addresses;
      routes = set_route_metric (route ∷ routes) metric;
      route_metric = metric;
    })

unfoldable pub plan_bearer :
    (Text → Result ℕ Bytes)
    → Text
    → Bool
    → BearerIpConfig
    → BearerIpConfig
    → Result NetError (List DefaultRoute)
    → Result BearerError BearerPlan
unfolding addresses_and_routes_with_metric
plan_bearer parse_addr interface default_route ip4 ip6 current = do
  (addresses, routes) ← addresses_and_routes parse_addr interface default_route ip4 ip6
  with_metric default_route current addresses routes

pub record RecoveredRoute : Type 0 where
  pub found : Bool
  pub metric : ℕ
  pub default_route : Bool

abbrev pub nothing_recovered : RecoveredRoute
nothing_recovered = record { found = false; metric = 0; default_route = false }

-- One round of the loop of `routeStateFromRoutes`.
abbrev pub note_route : Text → DefaultRoute → RecoveredRoute → RecoveredRoute
note_route interface route state =
    if not (route.interface == interface)
    then state
    else if not state.found || ltb route.metric state.metric
    then record state { found = true; metric = route.metric }
    else state

unfoldable pub note_routes : Text → List DefaultRoute → RecoveredRoute → RecoveredRoute
note_routes interface [] state = state
note_routes interface (route ∷ routes) state =
    note_routes interface routes (note_route interface route state)

unfoldable pub route_state_from_routes : List DefaultRoute → Text → RecoveredRoute
unfolding note_routes
route_state_from_routes routes interface =
    let state = note_routes interface routes nothing_recovered in
    if not state.found
    then state
    else record state { default_route = leb state.metric default_route_metric }

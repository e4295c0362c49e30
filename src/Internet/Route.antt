-- ===== src/Internet/Route.antt =====
-- DefaultRoute of internal/pkg/netlink/netlink.go, and the tests on routes that it shares with
-- internal/pkg/internet/default_route.go. An address is its 4 or 16 bytes, and no bytes is the zero
-- `netip.Addr`; IPv6 zones are left out. The ints of a route are the non-negative ones.
pub mod Count
use sigmo.Common.{
  ℕ, ◌-◌, ◌≡◌, refl, Bool, true, false, not, ◌&&◌, ◌||◌, List, [], ◌∷◌, Bytes, Text, arith, ◌==◌,
  nat_equal, list_equal, list_beq_iff, ◌↔◌, if◌then◌else◌,
}

pub record DefaultRoute : Type 0 where
  pub interface : Text
  pub family : ℕ
  pub protocol : ℕ
  pub scope : ℕ
  pub gateway : Bytes
  pub source : Bytes
  pub metric : ℕ

abbrev pub family_ipv4 : ℕ
family_ipv4 = 2

abbrev pub family_ipv6 : ℕ
family_ipv6 = 10

-- `unix.RTPROT_STATIC`
abbrev pub rtprot_static : ℕ
rtprot_static = 4

unfoldable pub route_protocol : DefaultRoute → ℕ
route_protocol route = if not (route.protocol == 0) then route.protocol else rtprot_static

unfoldable pub same_default_route : DefaultRoute → DefaultRoute → Bool
unfolding route_protocol
same_default_route a b =
    a.interface == b.interface
    && (a.family == b.family
        && (route_protocol a == route_protocol b
            && (a.scope == b.scope
                && (a.gateway == b.gateway && (a.source == b.source && a.metric == b.metric)))))

unfoldable pub default_route_exists : DefaultRoute → List DefaultRoute → Bool
default_route_exists route [] = false
default_route_exists route (existing ∷ routes) =
    same_default_route route existing || default_route_exists route routes

-- Two routes that `same_default_route` cannot tell apart.
pub record Same (a b : DefaultRoute) : Type 0 where
  pub interface_eq : a.interface ≡ b.interface
  pub family_eq : a.family ≡ b.family
  pub protocol_eq : route_protocol a ≡ route_protocol b
  pub scope_eq : a.scope ≡ b.scope
  pub gateway_eq : a.gateway ≡ b.gateway
  pub source_eq : a.source ≡ b.source
  pub metric_eq : a.metric ≡ b.metric

-- For any two routes, the test holds exactly if they agree in all seven fields, where a protocol
-- that is not set counts as the static one.
pub same_default_route-Same : (a b : DefaultRoute) → (same_default_route a b ≡ true) ↔ Same a b
unfolding same_default_route
same_default_route-Same a b = (to, from)
  where
    to : same_default_route a b ≡ true → Same a b
    to h = ground (
      arith,
      list_beq_iff a.interface b.interface,
      list_beq_iff a.gateway b.gateway,
      list_beq_iff a.source b.source,
    )

    from : Same a b → same_default_route a b ≡ true
    from h = ground (
      arith,
      list_beq_iff a.interface b.interface,
      list_beq_iff a.gateway b.gateway,
      list_beq_iff a.source b.source,
    )

pub same_default_route_refl : (a : DefaultRoute) → same_default_route a a ≡ true
same_default_route_refl a = (same_default_route-Same a a).1 (record {
  interface_eq = refl;
  family_eq = refl;
  protocol_eq = refl;
  scope_eq = refl;
  gateway_eq = refl;
  source_eq = refl;
  metric_eq = refl;
})

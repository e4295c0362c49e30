-- ===== src/Internet/RouteState.antt =====
-- The kept form of routes: internal/pkg/internet/route_state.go. `netip.Addr.String` and
-- `netip.ParseAddr` are parameters, and so is the JSON text of the plain structs.
pub mod RoundTrip
use sigmo.Common.{
  ℕ, List, [], ◌∷◌, Bytes, Text, ◌==◌, nat_equal, list_equal, Result, ok, err, ◌>>=◌, ◌>>◌,
  if◌then◌else◌,
}
use sigmo.Internet.Route.{DefaultRoute}
use sigmo.Internet.Plan.{DefaultRouteChange}
use sigmo.Storage.{Codec}

-- `netip.Addr.String` and `netip.ParseAddr`.
pub record AddrText : Type 0 where
  pub show_addr : Bytes → Text
  pub parse_addr : Text → Result ℕ Bytes

pub record RouteStateEntry : Type 0 where
  pub modem : Text
  pub preferred : List DefaultRoute
  pub changes : List DefaultRouteChange

pub record RouteStateRoute : Type 0 where
  pub interface : Text
  pub family : ℕ
  pub protocol : ℕ
  pub scope : ℕ
  pub gateway : Text
  pub source : Text
  pub metric : ℕ

pub record RouteStateChange : Type 0 where
  pub original : RouteStateRoute
  pub replacement : RouteStateRoute

-- The local struct `state` of `MarshalJSON` and `UnmarshalJSON`.
pub record RawRouteState : Type 0 where
  pub modem : Text
  pub preferred : List RouteStateRoute
  pub changes : List RouteStateChange

module _ (addr : AddrText) where
  -- `if a.IsValid() { text = a.String() }`
  unfoldable pub shown : Bytes → Text
  shown a = if a == [] then [] else addr.show_addr a

  unfoldable pub route_state_route_from_default : DefaultRoute → RouteStateRoute
  route_state_route_from_default route = record {
    interface = route.interface;
    family = route.family;
    protocol = route.protocol;
    scope = route.scope;
    gateway = shown route.gateway;
    source = shown route.source;
    metric = route.metric;
  }

  unfoldable pub route_state_routes : List DefaultRoute → List RouteStateRoute
  route_state_routes [] = []
  route_state_routes (route ∷ routes) =
      route_state_route_from_default route ∷ route_state_routes routes

  unfoldable pub route_state_changes : List DefaultRouteChange → List RouteStateChange
  route_state_changes [] = []
  route_state_changes (change ∷ changes) =
      record {
        original = route_state_route_from_default change.original;
        replacement = route_state_route_from_default change.replacement;
      }
      ∷ route_state_changes changes

  unfoldable pub route_with_state_source : DefaultRoute → Text → Result ℕ DefaultRoute
  route_with_state_source route [] = ok route
  route_with_state_source route (c ∷ source) = elim (addr.parse_addr (c ∷ source)) [
    | err e ↦ err e
    | ok a ↦ ok (record route { source = a })
  ]

  -- A route with the fields that need no parsing.
  abbrev pub plain_route : RouteStateRoute → DefaultRoute
  plain_route state = record {
    interface = state.interface;
    family = state.family;
    protocol = state.protocol;
    scope = state.scope;
    gateway = [];
    source = [];
    metric = state.metric;
  }

  -- The parse of a gateway that is not empty, then the source.
  unfoldable pub with_gateway : DefaultRoute → Text → Text → Result ℕ DefaultRoute
  with_gateway route [] source = route_with_state_source route source
  with_gateway route (c ∷ gateway) source = elim (addr.parse_addr (c ∷ gateway)) [
    | err e ↦ err e
    | ok a ↦ route_with_state_source (record route { gateway = a }) source
  ]

  unfoldable pub default_route_from_state : RouteStateRoute → Result ℕ DefaultRoute
  default_route_from_state state = with_gateway (plain_route state) state.gateway state.source

  unfoldable pub default_routes_from_state : List RouteStateRoute → Result ℕ (List DefaultRoute)
  default_routes_from_state [] = ok []
  default_routes_from_state (state ∷ states) =
      let rest = default_routes_from_state states in
      default_route_from_state state >>= λ route. rest >>= λ routes. ok (route ∷ routes)

  unfoldable pub default_route_changes_from_state :
      List RouteStateChange → Result ℕ (List DefaultRouteChange)
  default_route_changes_from_state [] = ok []
  default_route_changes_from_state (change ∷ states) =
      let rest = default_route_changes_from_state states in
      default_route_from_state change.original >>= λ o.
      default_route_from_state change.replacement >>= λ r.
      rest >>= λ changes. ok (record { original = o; replacement = r } ∷ changes)

  -- `MarshalJSON` and `UnmarshalJSON`, without the text.
  unfoldable pub raw_from_entry : RouteStateEntry → RawRouteState
  raw_from_entry e = record {
    modem = e.modem;
    preferred = route_state_routes e.preferred;
    changes = route_state_changes e.changes;
  }

  unfoldable pub entry_from_raw : RawRouteState → Result ℕ RouteStateEntry
  entry_from_raw raw = default_routes_from_state raw.preferred >>= λ routes.
      default_route_changes_from_state raw.changes >>= λ changes'.
      ok (record { modem = raw.modem; preferred = routes; changes = changes' })

  -- `json.Marshal` and `json.Unmarshal` at `routeStateEntry`, which has methods of its own.
  unfoldable pub route_entry_codec : Codec RawRouteState → Codec RouteStateEntry
  route_entry_codec json = record {
    marshal = λ e. json.marshal (raw_from_entry e);
    unmarshal = λ text. json.unmarshal text >>= λ raw. entry_from_raw raw;
  }

-- ===== src/Internet/Profile/View.antt =====
-- The connection that the API shows: connectionFromBearer and disconnectedConnection of
-- internal/pkg/internet/bearer_config.go, and the Connection of internal/pkg/internet/connection.go.
-- `netip.ParseAddr` and `Prefix.String` are parameters.
use sigmo.Common.{
  ℕ, true, false, ◌&&◌, List, [], ◌∷◌, Option, none, some, Bytes, Text, ◌==◌, nat_equal, list_equal,
  Result, ok, err, ◌>>=◌, if◌then◌else◌, length,
}
use sigmo.Internet.Route.{family_ipv4, family_ipv6}
use sigmo.Internet.Bearer.{BearerIpConfig, IpPrefix, BearerError, prefix_from_ip_config}
use sigmo.Internet.Profile.{
  Preferences, normalize_preferences, BearerStats, BearerView, bearer_preferences, merge_dns,
  ViewError, read_state, read_interface, read_ipv4, read_ipv6, bad_config, unsupported, or_fail,
}

pub data Status : Type 0 where
  connected disconnected : Status

-- The fields that repeat the preferences are one field; the caller sets the state of the proxy.
pub record Connection : Type 0 where
  pub status : Status
  pub prefs : Preferences
  pub interface_name : Text
  pub bearer : Text
  pub ipv4_addresses : List Text
  pub ipv6_addresses : List Text
  pub dns : List Text
  pub stats : BearerStats
  pub route_metric : ℕ

abbrev pub no_stats : BearerStats
no_stats = record { rx_bytes = 0; tx_bytes = 0; duration = 0 }

unfoldable pub disconnected_connection : Preferences → Connection
unfolding normalize_preferences
disconnected_connection prefs = record {
  status = disconnected;
  prefs = normalize_preferences prefs;
  interface_name = [];
  bearer = [];
  ipv4_addresses = [];
  ipv6_addresses = [];
  dns = [];
  stats = no_stats;
  route_metric = 0;
}

module _ (parse_addr : Text → Result ℕ Bytes) (prefix_string : IpPrefix → Text) where
  abbrev pub strings_of : Result BearerError (Option IpPrefix) → Result ViewError (List Text)
  strings_of (err e) = err (bad_config e)
  strings_of (ok none) = ok []
  strings_of (ok (some prefix)) = ok (prefix_string prefix ∷ [])

  unfoldable pub address_strings : BearerIpConfig → ℕ → Result ViewError (List Text)
  address_strings cfg family = strings_of (prefix_from_ip_config parse_addr cfg family)

  unfoldable pub connection_address_strings :
      BearerIpConfig → BearerIpConfig → Result ViewError (List Text × List Text)
  unfolding address_strings
  connection_address_strings ip4 ip6 = do
    v4 ← address_strings ip4 family_ipv4
    v6 ← address_strings ip6 family_ipv6
    ok (v4, v6)

  connected_view :
      BearerView
      → Preferences
      → ℕ
      → Text
      → BearerIpConfig
      → BearerIpConfig
      → List Text × List Text
      → Result ViewError Connection
  unfolding merge_dns
  connected_view bearer prefs metric interface ip4 ip6 (v4, v6) =
      if length v4 == 0 && length v6 == 0
      then err unsupported
      else ok (record {
        status = connected;
        prefs = prefs;
        interface_name = interface;
        bearer = bearer.path;
        ipv4_addresses = v4;
        ipv6_addresses = v6;
        dns = merge_dns (ip4.dns ∷ ip6.dns ∷ []);
        stats = elim bearer.stats [ err e ↦ no_stats | ok s ↦ s ];
        route_metric = metric;
      })

  read_connected : BearerView → Preferences → ℕ → Result ViewError Connection
  unfolding connected_view connection_address_strings
  read_connected bearer prefs metric = do
    interface ← or_fail read_interface bearer.interface
    ip4 ← or_fail read_ipv4 bearer.ip4_config
    ip6 ← or_fail read_ipv6 bearer.ip6_config
    addresses ← connection_address_strings ip4 ip6
    connected_view bearer prefs metric interface ip4 ip6 addresses

  unfoldable pub connection_from_bearer : BearerView → Preferences → ℕ → Result ViewError Connection
  unfolding read_connected bearer_preferences
  connection_from_bearer bearer given metric =
      let prefs = normalize_preferences (bearer_preferences bearer given) in
      elim bearer.connected [
        | err e ↦ err (read_state e)
        | ok false ↦ ok (disconnected_connection prefs)
        | ok true ↦ read_connected bearer prefs metric
      ]

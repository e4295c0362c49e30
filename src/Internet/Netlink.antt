-- ===== src/Internet/Netlink.antt =====
-- The messages of internal/pkg/netlink/netlink.go: attributes, the request that changes a default
-- route, and reading routes from a dump. The machine is little-endian. The table of interfaces is a
-- parameter; an int32 that is negative is no interface. A `uint16` or `byte` conversion keeps the low
-- bits.
pub mod Attributes
pub mod Requests
pub mod RoundTrip
use sigmo.Common.{
  ℕ, zero, suc, ◌+◌, ◌-◌, ◌*◌, ◌/◌, ◌%◌, ◌^◌, not, ◌&&◌, ◌||◌, List, [], ◌∷◌, ◌++◌, Option, none,
  some, Bytes, Text, length, get_or, take, drop, replicate, ltb, leb, ◌==◌, nat_equal, list_equal,
  Result, ok, err, ◌>>=◌, ◌>>◌, refuse_if, if◌then◌else◌, Assoc, lookup, insert,
}
use sigmo.Internet.Route.{DefaultRoute, family_ipv4, family_ipv6, route_protocol}

-- `unix.SizeofRtAttr`, `unix.SizeofRtMsg`, `unix.SizeofRtNexthop`
abbrev pub sizeof_rt_attr : ℕ
sizeof_rt_attr = 4

abbrev pub sizeof_rt_msg : ℕ
sizeof_rt_msg = 12

abbrev pub sizeof_rt_nexthop : ℕ
sizeof_rt_nexthop = 8

-- `unix.RTA_OIF`, `unix.RTA_GATEWAY`, and so on.
abbrev pub rta_oif : ℕ
rta_oif = 4

abbrev pub rta_gateway : ℕ
rta_gateway = 5

abbrev pub rta_priority : ℕ
rta_priority = 6

abbrev pub rta_prefsrc : ℕ
rta_prefsrc = 7

abbrev pub rta_multipath : ℕ
rta_multipath = 9

abbrev pub rta_table : ℕ
rta_table = 15

abbrev pub rta_via : ℕ
rta_via = 18

abbrev pub rt_table_main : ℕ
rt_table_main = 254

abbrev pub rtn_unicast : ℕ
rtn_unicast = 1

pub data NetlinkError : Type 0 where
  route_family_invalid ip_address_invalid gateway_family source_family : NetlinkError
  find_interface : ℕ → NetlinkError

-- `net.InterfaceByName` and `net.InterfaceByIndex`.
pub record Interfaces : Type 0 where
  pub by_name : Text → Result ℕ ℕ
  pub by_index : ℕ → Result ℕ Text

abbrev pub put_uint16 : ℕ → Bytes
put_uint16 n = n % 256 ∷ n / 256 % 256 ∷ []

abbrev pub put_uint32 : ℕ → Bytes
put_uint32 n = n % 256 ∷ n / 256 % 256 ∷ n / 65536 % 256 ∷ n / 16777216 % 256 ∷ []

abbrev pub uint16 : Bytes → ℕ
uint16 (a ∷ b ∷ rest) = a + b * 256
uint16 _ = 0

abbrev pub uint32 : Bytes → ℕ
uint32 (a ∷ b ∷ c ∷ d ∷ rest) = a + b * 256 + c * 65536 + d * 16777216
uint32 _ = 0

-- `(length + 3) & ^3`: the low two bits go.
unfoldable pub rta_align : ℕ → ℕ
rta_align length' = (length' + 3) / 4 * 4

-- The length, the type, the value and the padding.
abbrev pub attr_bytes : ℕ → Bytes → Bytes
attr_bytes attr_type value =
    let length' = sizeof_rt_attr + length value in
    put_uint16 length'
    ++ (put_uint16 attr_type ++ (value ++ replicate (rta_align length' - length') 0))

unfoldable pub append_attr : Bytes → ℕ → Bytes → Bytes
append_attr msg attr_type value = msg ++ attr_bytes attr_type value

abbrev pub Attrs : Type 0
Attrs = Assoc ℕ Bytes

-- The loop of `parseAttrs`; `none` is that the rounds given ran out.
unfoldable pub parse_attrs_loop : ℕ → Bytes → Attrs → Option Attrs
unfolding rta_align
parse_attrs_loop zero bytes attrs = none
parse_attrs_loop (suc fuel) bytes attrs =
    let length' = uint16 bytes in
    let aligned = rta_align length' in
    let value = take (length' - sizeof_rt_attr) (drop sizeof_rt_attr bytes) in
    let rest =
      parse_attrs_loop fuel (drop aligned bytes) (insert (uint16 (drop 2 bytes)) value attrs) in
    if ltb (length bytes) sizeof_rt_attr
    then some attrs
    else if ltb length' sizeof_rt_attr || ltb (length bytes) length'
    then some attrs
    else if ltb (length bytes) aligned
    then some attrs
    else rest

-- The map of a loop that ended.
abbrev pub ended : Option Attrs → Attrs
ended none = []
ended (some attrs) = attrs

-- One round more than there are bytes.
unfoldable pub parse_attrs : Bytes → Attrs
unfolding parse_attrs_loop
parse_attrs bytes = ended (parse_attrs_loop (suc (length bytes)) bytes [])

-- `attrs[k]`, where a key that is not there is the nil slice.
abbrev pub or_nil : Option Bytes → Bytes
or_nil none = []
or_nil (some value) = value

abbrev pub attr : ℕ → Attrs → Bytes
attr k attrs = or_nil (lookup k attrs)

unfoldable pub attr_uint32 : Bytes → ℕ
attr_uint32 value = if ltb (length value) 4 then 0 else uint32 value

-- The zero address is no bytes.
unfoldable pub attr_addr : ℕ → Bytes → Bytes
attr_addr family value =
    if family == family_ipv4
    then if ltb (length value) 4 then [] else take 4 value
    else if family == family_ipv6
    then if ltb (length value) 16 then [] else take 16 value
    else []

unfoldable pub attr_via_addr : Bytes → Bytes
unfolding attr_addr
attr_via_addr value = if ltb (length value) 2 then [] else attr_addr (uint16 value) (drop 2 value)

unfoldable pub attr_route_gateway : ℕ → Attrs → Bytes
unfolding attr_addr attr_via_addr
attr_route_gateway family attrs =
    let gateway = attr_addr family (attr rta_gateway attrs) in
    if not (gateway == []) then gateway else attr_via_addr (attr rta_via attrs)

unfoldable pub ip_family_bytes : Bytes → Result NetlinkError (ℕ × Bytes)
ip_family_bytes a =
    if length a == 4
    then ok (family_ipv4, a)
    else if length a == 16
    then ok (family_ipv6, a)
    else err ip_address_invalid

-- An address that is set becomes an attribute, if it is of the route's family.
unfoldable pub append_address : NetlinkError → ℕ → ℕ → Bytes → Bytes → Result NetlinkError Bytes
unfolding append_attr ip_family_bytes
append_address mismatch attr_type family [] msg = ok msg
append_address mismatch attr_type family (b ∷ a) msg = ip_family_bytes (b ∷ a) >>= λ raw.
    refuse_if (not (raw.0 == family)) mismatch >> ok (append_attr msg attr_type raw.1)

unfoldable pub append_metric : ℕ → Bytes → Bytes
unfolding append_attr
append_metric metric msg =
    if ltb 0 metric then append_attr msg rta_priority (put_uint32 metric) else msg

-- The header of the request, with the output interface.
unfoldable pub route_header : DefaultRoute → ℕ → Bytes
unfolding append_attr
route_header route index =
    append_attr
      (route.family % 256
        ∷ 0
        ∷ 0
        ∷ 0
        ∷ rt_table_main
        ∷ route_protocol route % 256
        ∷ route.scope % 256
        ∷ rtn_unicast
        ∷ 0
        ∷ 0
        ∷ 0
        ∷ 0
        ∷ [])
      rta_oif (put_uint32 index)

module _ (interfaces : Interfaces) where
  -- `changeDefaultRoute` up to `send`.
  unfoldable pub route_message : DefaultRoute → Result NetlinkError Bytes
  unfolding append_address append_metric route_header
  route_message route =
      refuse_if (not (route.family == family_ipv4) && not (route.family == family_ipv6))
        route_family_invalid
      >> (elim (interfaces.by_name route.interface) [
        | err e ↦ err (find_interface e)
        | ok index ↦
            append_address gateway_family rta_gateway route.family route.gateway
              (append_metric route.metric (route_header route index))
            >>= λ msg. append_address source_family rta_prefsrc route.family route.source msg
      ])

  -- The loop of `parseMultipathDefaultRoutes`; the fuel counts the bytes that are left.
  unfoldable pub next_hops : ℕ → DefaultRoute → Bytes → List DefaultRoute
  unfolding rta_align parse_attrs attr_route_gateway
  next_hops zero route bytes = []
  next_hops (suc fuel) route bytes =
      let length' = uint16 bytes in
      let aligned = rta_align length' in
      let index = uint32 (drop 4 bytes) in
      let rest = next_hops fuel route (drop aligned bytes) in
      let attrs = parse_attrs (take (length' - sizeof_rt_nexthop) (drop sizeof_rt_nexthop bytes)) in
      let gateway = attr_route_gateway route.family attrs in
      let hop = if gateway == [] then route else record route { gateway = gateway } in
      let with_name : Text → List DefaultRoute =
        λ name. if name == [] then rest else (record hop { interface = name }) ∷ rest in
      if ltb (length bytes) sizeof_rt_nexthop
      then []
      else if ltb length' sizeof_rt_nexthop || ltb (length bytes) length'
      then []
      else if ltb (length bytes) aligned
      then []
      else if index == 0
      then with_name route.interface
      else if leb (2 ^ 31) index
      then rest
      else elim (interfaces.by_index index) [ err e ↦ rest | ok name ↦ with_name name ]

  -- `index != 0`: the name of the interface, or none if it cannot be found.
  unfoldable pub interface_of : ℕ → Option Text
  interface_of index =
      if index == 0
      then some []
      else elim (interfaces.by_index index) [ err e ↦ none | ok name ↦ some name ]

  -- The end of `parseDefaultRoutes`.
  unfoldable pub routes_of : DefaultRoute → Bytes → Option Text → List DefaultRoute
  unfolding next_hops
  routes_of route multipath none = []
  routes_of route [] (some name) =
      if name == [] then [] else (record route { interface = name }) ∷ []
  routes_of route (b ∷ multipath) (some name) =
      next_hops (suc (length multipath)) (record route { interface = name }) (b ∷ multipath)

  unfoldable pub parse_default_routes : Bytes → List DefaultRoute
  unfolding parse_attrs attr_uint32 attr_route_gateway interface_of routes_of
  parse_default_routes bytes =
      let byte : ℕ → ℕ = λ i. get_or bytes i 0 in
      let family = byte 0 in
      let attrs = parse_attrs (drop sizeof_rt_msg bytes) in
      let table = attr_uint32 (attr rta_table attrs) in
      let route : DefaultRoute = record {
        interface = [];
        family = family;
        protocol = byte 5;
        scope = byte 6;
        gateway = attr_route_gateway family attrs;
        source = attr_addr family (attr rta_prefsrc attrs);
        metric = attr_uint32 (attr rta_priority attrs);
      } in
      if ltb (length bytes) sizeof_rt_msg
      then []
      else if not (family == family_ipv4) && not (family == family_ipv6)
      then []
      else if not (byte 1 == 0) || not (byte 7 == rtn_unicast)
      then []
      else if not ((if table == 0 then byte 4 else table) == rt_table_main)
      then []
      else routes_of route (attr rta_multipath attrs)
          (interface_of (attr_uint32 (attr rta_oif attrs)))

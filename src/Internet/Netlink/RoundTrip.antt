-- ===== src/Internet/Netlink/RoundTrip.antt =====
-- Reading back the route of a request of internal/pkg/netlink/netlink.go.
use sigmo.Common.{
  ℕ, ◌%◌, ◌^◌, ◌<◌, ◌≤◌, ◌≡◌, ◌≢◌, refl, sym, ap, ◌∙◌, Bool, true, false, not, ◌&&◌, [], ◌∷◌, ◌++◌,
  some, Bytes, Text, length, take, All-append, arith, ltb, ge→ltb, ◌==◌, nat_equal, list_equal,
  list_beq_iff, ok, take_all, Bool-cases, inl, inr, ◌⊎◌, if◌then◌else◌, lookup, insert, delete,
}
use mathlib.Core.Path.{subst}
use sigmo.Internet.Route.{DefaultRoute, family_ipv4, family_ipv6, route_protocol}
use sigmo.Internet.Netlink.{
  Attrs, Interfaces, rta_oif, rta_gateway, rta_priority, rta_prefsrc, rta_multipath, rta_table,
  rta_via, put_uint32, parse_attrs, attr, attr_uint32, attr_addr, attr_route_gateway, route_message,
  interface_of, routes_of, parse_default_routes, rt_table_main, rtn_unicast,
}
use sigmo.Internet.Netlink.Attributes.{attrs_bytes, inserted, Encodable, parse_attrs-attrs_bytes}
use sigmo.Internet.Netlink.Requests.{
  address_entry, metric_entry, entries, Sized, rt_msg, route_entries, Request,
  route_message-Request,
}

-- What the kernel's table of interfaces promises.
pub record InterfacesLaws (interfaces : Interfaces) : Type 0 where
  pub found :
      (name : Text) {index : ℕ}
      → interfaces.by_name name ≡ ok index
      → interfaces.by_index index ≡ ok name
  pub numbered :
      (name : Text) {index : ℕ}
      → interfaces.by_name name ≡ ok index
      → (1 ≤ index) × (index < 2 ^ 31)
  pub has_name : (name : Text) {index : ℕ} → interfaces.by_name name ≡ ok index → name ≢ []

-- What the map of the attributes of a request holds.
record Holds (b : Bool) (index metric : ℕ) (gateway source : Bytes) (attrs : Attrs) : Type 0 where
  oif : attr rta_oif attrs ≡ put_uint32 index
  priority : attr rta_priority attrs ≡ (if b then put_uint32 metric else [])
  gateway_eq : attr rta_gateway attrs ≡ gateway
  source_eq : attr rta_prefsrc attrs ≡ source
  via : attr rta_via attrs ≡ []
  table : attr rta_table attrs ≡ []
  multipath : attr rta_multipath attrs ≡ []

entries-Holds :
    (b : Bool) (index metric : ℕ) (gateway source : Bytes)
    → Holds b index metric gateway source (inserted (entries b index metric gateway source) [])
unfolding lookup insert delete
entries-Holds true index metric [] [] = record {
  oif = refl;
  priority = refl;
  gateway_eq = refl;
  source_eq = refl;
  via = refl;
  table = refl;
  multipath = refl;
}
entries-Holds true index metric [] (d ∷ source) = record {
  oif = refl;
  priority = refl;
  gateway_eq = refl;
  source_eq = refl;
  via = refl;
  table = refl;
  multipath = refl;
}
entries-Holds true index metric (c ∷ gateway) [] = record {
  oif = refl;
  priority = refl;
  gateway_eq = refl;
  source_eq = refl;
  via = refl;
  table = refl;
  multipath = refl;
}
entries-Holds true index metric (c ∷ gateway) (d ∷ source) = record {
  oif = refl;
  priority = refl;
  gateway_eq = refl;
  source_eq = refl;
  via = refl;
  table = refl;
  multipath = refl;
}
entries-Holds false index metric [] [] = record {
  oif = refl;
  priority = refl;
  gateway_eq = refl;
  source_eq = refl;
  via = refl;
  table = refl;
  multipath = refl;
}
entries-Holds false index metric [] (d ∷ source) = record {
  oif = refl;
  priority = refl;
  gateway_eq = refl;
  source_eq = refl;
  via = refl;
  table = refl;
  multipath = refl;
}
entries-Holds false index metric (c ∷ gateway) [] = record {
  oif = refl;
  priority = refl;
  gateway_eq = refl;
  source_eq = refl;
  via = refl;
  table = refl;
  multipath = refl;
}
entries-Holds false index metric (c ∷ gateway) (d ∷ source) = record {
  oif = refl;
  priority = refl;
  gateway_eq = refl;
  source_eq = refl;
  via = refl;
  table = refl;
  multipath = refl;
}

Encodable-address_entry :
    (t family : ℕ) (a : Bytes) → t < 2 ^ 16 → Sized family a → Encodable (address_entry t a)
Encodable-address_entry t family [] h s = tt
Encodable-address_entry t family (b ∷ a) h (inl e) = cc
Encodable-address_entry t family (b ∷ a) h (inr (inl e)) = ((h, omega (arith, e.1)), tt)
Encodable-address_entry t family (b ∷ a) h (inr (inr e)) = ((h, omega (arith, e.1)), tt)

Encodable-metric_entry : (b : Bool) (metric : ℕ) → Encodable (metric_entry b metric)
Encodable-metric_entry true metric = ((omega arith, omega arith), tt)
Encodable-metric_entry false metric = tt

-- An address of the family is read as it is.
address_back : (family : ℕ) (a : Bytes) → Sized family a → attr_addr family a ≡ a
unfolding attr_addr
address_back family a (inl e) = rw e (ground arith)
address_back family a (inr (inl (f, l))) = rw (f, l) (ap (λ n. take n a) (sym l) ∙ take_all a)
address_back family a (inr (inr (f, l))) = rw (f, l) (ap (λ n. take n a) (sym l) ∙ take_all a)

uint32_back : (n : ℕ) → n < 2 ^ 32 → attr_uint32 (put_uint32 n) ≡ n
unfolding attr_uint32
uint32_back n h = omega arith

metric_back :
    (metric : ℕ)
    → metric < 2 ^ 32
    → attr_uint32 (if ltb 0 metric then put_uint32 metric else []) ≡ metric
metric_back metric h = elim (Bool-cases (ltb 0 metric)) [
  | inl e ↦ rw e (uint32_back metric h)
  | inr e ↦ rw e (unfold attr_uint32 in ground (arith, e))
]

set_or_nil : (a : Bytes) → (if not (a == []) then a else []) ≡ a
set_or_nil a = elim (Bool-cases (a == [])) [
  | inl e ↦ rw e (sym ((list_beq_iff a []).0 e))
  | inr e ↦ rw e refl
]

gateway_back :
    (b : Bool) (index metric family : ℕ) (gateway source : Bytes) (attrs : Attrs)
    → Holds b index metric gateway source attrs
    → Sized family gateway
    → attr_route_gateway family attrs ≡ gateway
unfolding attr_route_gateway
gateway_back b index metric family gateway source attrs h s =
    let back : attr_addr family gateway ≡ gateway = address_back family gateway s in
    rw (h.gateway_eq, h.via, back) (set_or_nil gateway)

module _ (interfaces : Interfaces) where
  interface_found :
      (index : ℕ) (name : Text)
      → 1 ≤ index
      → interfaces.by_index index ≡ ok name
      → interface_of interfaces index ≡ some name
  unfolding interface_of
  interface_found index name h e = ground (arith, h, e)

  -- What is read of a message whose attributes are known.
  parsed :
      (f p s : ℕ) (x : Bytes) (route : DefaultRoute)
      → (not (f == family_ipv4) && not (f == family_ipv6)) ≡ false
      → (route.interface == []) ≡ false
      → interface_of interfaces (attr_uint32 (attr rta_oif (parse_attrs x))) ≡ some route.interface
      → attr_uint32 (attr rta_table (parse_attrs x)) ≡ 0
      → attr rta_multipath (parse_attrs x) ≡ []
      → attr_uint32 (attr rta_priority (parse_attrs x)) ≡ route.metric
      → attr_addr f (attr rta_prefsrc (parse_attrs x)) ≡ route.source
      → attr_route_gateway f (parse_attrs x) ≡ route.gateway
      → parse_default_routes interfaces
          (f ∷ 0 ∷ 0 ∷ 0 ∷ rt_table_main ∷ p ∷ s ∷ rtn_unicast ∷ 0 ∷ 0 ∷ 0 ∷ 0 ∷ x)
        ≡ (record route { family = f; protocol = p; scope = s }) ∷ []
  unfolding parse_default_routes
  parsed f p s x route known named' name table' multipath' metric' source' gateway' =
      let bytes : Bytes = f ∷ 0 ∷ 0 ∷ 0 ∷ rt_table_main ∷ p ∷ s ∷ rtn_unicast ∷ 0 ∷ 0 ∷ 0 ∷ 0 ∷ x in
      let long : ltb (length bytes) 12 ≡ false = ge→ltb (length bytes) 12 (omega arith) in
      rw (long, known, name, table', multipath', metric', source', gateway')
        (unfold routes_of in rw named' refl)

  -- A request for a route of the interface that the kernel knows is read back as that route, with the
  -- protocol that stands for none given written out.
  read_request :
      (laws : InterfacesLaws interfaces) (route : DefaultRoute) (index : ℕ)
      → interfaces.by_name route.interface ≡ ok index
      → ((route.family ≡ family_ipv4) ⊎ (route.family ≡ family_ipv6))
      → Sized route.family route.gateway
      → Sized route.family route.source
      → route_protocol route < 256
      → route.scope < 256
      → route.metric < 2 ^ 32
      → parse_default_routes interfaces (rt_msg route ++ attrs_bytes (route_entries route index))
        ≡ (record route { protocol = route_protocol route }) ∷ []
  read_request laws route index located fam gw src hp hs hm =
      let x : Bytes = attrs_bytes (route_entries route index) in
      let attrs : Attrs = parse_attrs x in
      let b : Bool = ltb 0 route.metric in
      let encodable : Encodable (route_entries route index) = (
        (omega arith, omega arith),
        All-append _ (metric_entry b route.metric) _ (Encodable-metric_entry b route.metric) (
            All-append _ (address_entry rta_gateway route.gateway) _
              (Encodable-address_entry rta_gateway route.family route.gateway (omega arith) gw)
              (Encodable-address_entry rta_prefsrc route.family route.source (omega arith) src)),
      ) in
      let h : Holds b index route.metric route.gateway route.source attrs =
        subst (Holds b index route.metric route.gateway route.source)
          (sym (parse_attrs-attrs_bytes (route_entries route index) encodable))
          (entries-Holds b index route.metric route.gateway route.source) in
      let located' = laws.numbered route.interface located in
      let index' : attr_uint32 (attr rta_oif attrs) ≡ index =
        ap attr_uint32 h.oif ∙ uint32_back index (omega (arith, located'.1)) in
      let name : interface_of interfaces (attr_uint32 (attr rta_oif attrs)) ≡ some route.interface =
        ap (interface_of interfaces) index'
        ∙ interface_found index route.interface located'.0 (laws.found route.interface located) in
      let table' : attr_uint32 (attr rta_table attrs) ≡ 0 =
        ap attr_uint32 h.table ∙ (unfold attr_uint32 in refl) in
      let metric' : attr_uint32 (attr rta_priority attrs) ≡ route.metric =
        ap attr_uint32 h.priority ∙ metric_back route.metric hm in
      let source' : attr_addr route.family (attr rta_prefsrc attrs) ≡ route.source =
        ap (attr_addr route.family) h.source_eq ∙ address_back route.family route.source src in
      let gateway' : attr_route_gateway route.family attrs ≡ route.gateway =
        gateway_back b index route.metric route.family route.gateway route.source attrs h gw in
      let family' : route.family % 256 ≡ route.family = elim fam [
        | inl f ↦ omega (arith, f)
        | inr f ↦ omega (arith, f)
      ] in
      let known : (not (route.family == family_ipv4) && not (route.family == family_ipv6)) ≡ false =
        elim fam [ inl f ↦ ground (arith, f) | inr f ↦ ground (arith, f) ] in
      let protocol' : route_protocol route % 256 ≡ route_protocol route = omega (arith, hp) in
      let scope' : route.scope % 256 ≡ route.scope = omega (arith, hs) in
      let named' : (route.interface == []) ≡ false =
        ground (arith, laws.has_name route.interface located, list_beq_iff route.interface []) in
      rw (family', protocol', scope')
        (parsed route.family (route_protocol route) route.scope x route known named' name table'
          h.multipath metric' source' gateway')

  -- If the kernel's table of interfaces keeps its promises, and the protocol, the scope and the metric
  -- fit their fields, then the request for a default route, wherever one can be made, is read as that
  -- route alone, with the protocol that stands for none given written out.
  pub parse-route_message :
      (laws : InterfacesLaws interfaces) (route : DefaultRoute) (msg : Bytes)
      → route_message interfaces route ≡ ok msg
      → route_protocol route < 256
      → route.scope < 256
      → route.metric < 2 ^ 32
      → parse_default_routes interfaces msg
        ≡ (record route { protocol = route_protocol route }) ∷ []
  parse-route_message laws route msg h hp hs hm =
      let r : Request interfaces route msg = route_message-Request interfaces route h in
      rw r.written (
        read_request laws route r.index r.located r.family_ok r.gateway_sized r.source_sized hp hs
          hm)

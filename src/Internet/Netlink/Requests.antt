-- ===== src/Internet/Netlink/Requests.antt =====
-- What changeDefaultRoute of internal/pkg/netlink/netlink.go has in its requests.
use sigmo.Common.{
  ℕ, ◌%◌, ◌≡◌, refl, sym, ap, ◌∙◌, Bool, true, false, not, ◌&&◌, List, [], ◌∷◌, ◌++◌, Bytes, length,
  arith, ltb, ◌==◌, nat_equal, list_equal, nat_beq_iff, ok, Result-cases, ok-injective, >>=-eq-ok,
  append_assoc, append-nil, Bool-cases, inl, inr, ◌⊎◌,
}
use sigmo.Internet.Route.{DefaultRoute, family_ipv4, family_ipv6, route_protocol}
use sigmo.Internet.Netlink.{
  NetlinkError, Interfaces, rta_oif, rta_gateway, rta_priority, rta_prefsrc, put_uint32, attr_bytes,
  append_attr, ip_family_bytes, append_address, append_metric, route_header, route_message,
  rt_table_main, rtn_unicast, gateway_family, source_family,
}
use sigmo.Internet.Netlink.Attributes.{attrs_bytes}

-- The attributes of a request, where an address that is not set has none.
abbrev pub address_entry : ℕ → Bytes → List (ℕ × Bytes)
address_entry t [] = []
address_entry t (b ∷ a) = (t, b ∷ a) ∷ []

abbrev pub metric_entry : Bool → ℕ → List (ℕ × Bytes)
metric_entry true metric = (rta_priority, put_uint32 metric) ∷ []
metric_entry false metric = []

abbrev pub entries : Bool → ℕ → ℕ → Bytes → Bytes → List (ℕ × Bytes)
entries b index metric gateway source =
    (rta_oif, put_uint32 index)
    ∷ (metric_entry b metric
        ++ (address_entry rta_gateway gateway ++ address_entry rta_prefsrc source))

attrs_bytes-append :
    (xs ys : List (ℕ × Bytes)) → attrs_bytes (xs ++ ys) ≡ attrs_bytes xs ++ attrs_bytes ys
attrs_bytes-append [] ys = refl
attrs_bytes-append ((t, v) ∷ xs) ys =
    ap (λ r. attr_bytes t v ++ r) (attrs_bytes-append xs ys)
    ∙ sym (append_assoc (attr_bytes t v) (attrs_bytes xs) (attrs_bytes ys))

-- The size of an address of the family.
abbrev pub Sized : ℕ → Bytes → Type 0
Sized family a =
    (a ≡ [])
    ⊎ (((family ≡ family_ipv4) × (length a ≡ 4)) ⊎ ((family ≡ family_ipv6) × (length a ≡ 16)))

Raw : Bytes → ℕ × Bytes → Type 0
Raw a raw =
    (raw.1 ≡ a)
    × (((raw.0 ≡ family_ipv4) × (length a ≡ 4)) ⊎ ((raw.0 ≡ family_ipv6) × (length a ≡ 16)))

ip_family_bytes-Raw : (a : Bytes) {raw : ℕ × Bytes} → ip_family_bytes a ≡ ok raw → Raw a raw
unfolding ip_family_bytes Raw
ip_family_bytes-Raw a {raw} h = elim (Bool-cases (length a == 4)) [
  | inl e ↦
      let same : (family_ipv4, a) ≡ raw = ok-injective (rw e at h) in
      (ap (λ r. r.1) (sym same), inl (ap (λ r. r.0) (sym same), (nat_beq_iff (length a) 4).0 e))
  | inr e ↦ elim (Bool-cases (length a == 16)) [
    | inl e' ↦
        let same : (family_ipv6, a) ≡ raw = ok-injective (rw (e, e') at h) in
        (ap (λ r. r.1) (sym same), inr (ap (λ r. r.0) (sym same), (nat_beq_iff (length a) 16).0 e'))
    | inr e' ↦ absurd (ground (arith, e, e', h))
  ]
]

append_address-ok :
    (mismatch : NetlinkError) (t family : ℕ) (a msg : Bytes) {out : Bytes}
    → append_address mismatch t family a msg ≡ ok out
    → Sized family a × (out ≡ msg ++ attrs_bytes (address_entry t a))
unfolding append_address Raw
append_address-ok mismatch t family [] msg h =
    (inl refl, sym (ok-injective h) ∙ sym (append-nil msg))
append_address-ok mismatch t family (b ∷ a) msg {out} h =
    let (raw, er, k) = >>=-eq-ok (ip_family_bytes (b ∷ a)) _ h in
    let (same, sized) : Raw (b ∷ a) raw = ip_family_bytes-Raw (b ∷ a) er in
    elim (Bool-cases (raw.0 == family)) [
      | inr e ↦ absurd (ground (arith, rw e at k))
      | inl e ↦
          let f : raw.0 ≡ family = (nat_beq_iff raw.0 family).0 e in
          let written : append_attr msg t raw.1 ≡ out = ok-injective (rw e at k) in
          (
            inr (rw f at sized),
            sym written
                ∙ rw same (
                    unfold append_attr in
                    ap (λ r. msg ++ r) (sym (append-nil (attr_bytes t (b ∷ a))))),
          )
    ]

append_metric-entry :
    (metric : ℕ) (msg : Bytes)
    → append_metric metric msg ≡ msg ++ attrs_bytes (metric_entry (ltb 0 metric) metric)
append_metric-entry metric msg = elim (Bool-cases (ltb 0 metric)) [
  | inl e ↦
      unfold append_metric append_attr in
      rw e (ap (λ r. msg ++ r) (sym (append-nil (attr_bytes rta_priority (put_uint32 metric)))))
  | inr e ↦ unfold append_metric in rw e (sym (append-nil msg))
]

-- The first twelve bytes of a request.
abbrev pub rt_msg : DefaultRoute → Bytes
rt_msg route =
    route.family % 256
    ∷ 0
    ∷ 0
    ∷ 0
    ∷ rt_table_main
    ∷ route_protocol route % 256
    ∷ route.scope % 256
    ∷ rtn_unicast
    ∷ 0
    ∷ 0
    ∷ 0
    ∷ 0
    ∷ []

abbrev pub route_entries : DefaultRoute → ℕ → List (ℕ × Bytes)
route_entries route index =
    entries (ltb 0 route.metric) index route.metric route.gateway route.source

flat : (r o m g s : Bytes) → (((r ++ o) ++ m) ++ g) ++ s ≡ r ++ (o ++ (m ++ (g ++ s)))
flat r o m g s =
    append_assoc ((r ++ o) ++ m) g s
    ∙ (append_assoc (r ++ o) m (g ++ s) ∙ append_assoc r o (m ++ (g ++ s)))

-- A request, attribute by attribute.
request_bytes :
    (route : DefaultRoute) (index : ℕ)
    → (append_metric route.metric (route_header route index)
          ++ attrs_bytes (address_entry rta_gateway route.gateway))
        ++ attrs_bytes (address_entry rta_prefsrc route.source)
      ≡ rt_msg route ++ attrs_bytes (route_entries route index)
unfolding route_header append_attr
request_bytes route index =
    let o : Bytes = attr_bytes rta_oif (put_uint32 index) in
    let m : List (ℕ × Bytes) = metric_entry (ltb 0 route.metric) route.metric in
    let g : List (ℕ × Bytes) = address_entry rta_gateway route.gateway in
    let s : List (ℕ × Bytes) = address_entry rta_prefsrc route.source in
    let together : attrs_bytes m ++ (attrs_bytes g ++ attrs_bytes s) ≡ attrs_bytes (m ++ (g ++ s)) =
      ap (λ z. attrs_bytes m ++ z) (sym (attrs_bytes-append g s))
      ∙ sym (attrs_bytes-append m (g ++ s)) in
    ap (λ z. (z ++ attrs_bytes g) ++ attrs_bytes s)
      (append_metric-entry route.metric (rt_msg route ++ o))
    ∙ (flat (rt_msg route) o (attrs_bytes m) (attrs_bytes g) (attrs_bytes s)
        ∙ ap (λ z. rt_msg route ++ (o ++ z)) together)

module _ (interfaces : Interfaces) where
  -- What a request that is made is made of.
  pub record Request (route : DefaultRoute) (msg : Bytes) : Type 0 where
    pub index : ℕ
    pub located : interfaces.by_name route.interface ≡ ok index
    pub family_ok : (route.family ≡ family_ipv4) ⊎ (route.family ≡ family_ipv6)
    pub gateway_sized : Sized route.family route.gateway
    pub source_sized : Sized route.family route.source
    pub written : msg ≡ rt_msg route ++ attrs_bytes (route_entries route index)

  pub route_message-Request :
      (route : DefaultRoute) {msg : Bytes}
      → route_message interfaces route ≡ ok msg
      → Request route msg
  unfolding route_message
  route_message-Request route {msg} h =
      elim (Bool-cases (not (route.family == family_ipv4) && not (route.family == family_ipv6))) [
        | inl e ↦ absurd (ground (arith, rw e at h))
        | inr e ↦ elim (Result-cases (interfaces.by_name route.interface)) [
          | inr (x, e') ↦ absurd (ground (arith, e, e', h))
          | inl (index, e') ↦
              let start : Bytes = append_metric route.metric (route_header route index) in
              let (m, em, k) =
                >>=-eq-ok
                  (append_address gateway_family rta_gateway route.family route.gateway start) _
                  (rw (e, e') at h) in
              let (gw, gateway_written) =
                append_address-ok gateway_family rta_gateway route.family route.gateway start em in
              let (src, source_written) =
                append_address-ok source_family rta_prefsrc route.family route.source m k in
              record {
                index = index;
                located = e';
                family_ok = ground (arith, e);
                gateway_sized = gw;
                source_sized = src;
                written =
                    source_written
                    ∙ (ap (λ z. z ++ attrs_bytes (address_entry rta_prefsrc route.source))
                          gateway_written
                        ∙ request_bytes route index);
              }
        ]
      ]

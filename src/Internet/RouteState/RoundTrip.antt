-- ===== src/Internet/RouteState/RoundTrip.antt =====
-- What internal/pkg/internet/route_state.go writes of a route it reads back.
use sigmo.Common.{
  ℕ, ◌<◌, ◌≡◌, ◌≢◌, refl, ◌∙◌, List, [], ◌∷◌, Bytes, Text, length, All, arith, ok, list_beq, inl,
  inr, ◌⊎◌,
}
use sigmo.Internet.Route.{DefaultRoute}
use sigmo.Internet.Plan.{DefaultRouteChange}
use sigmo.Internet.RouteState.{
  AddrText, RouteStateEntry, RawRouteState, shown, route_state_route_from_default,
  route_state_routes, route_state_changes, route_with_state_source, with_gateway,
  default_route_from_state, default_routes_from_state, default_route_changes_from_state,
  raw_from_entry, entry_from_raw, route_entry_codec,
}
use sigmo.Storage.{Codec}
use sigmo.Storage.Cells.{CodecLaws}

-- An IPv4 or an IPv6 address.
abbrev pub IsAddr : Bytes → Type 0
IsAddr a = ((length a ≡ 4) ⊎ (length a ≡ 16)) × All (λ b. b < 256) a

-- What package netip promises: the text of an address is not empty, and parses to the address.
pub record AddrTextLaws (addr : AddrText) : Type 0 where
  pub shown_text : (a : Bytes) → IsAddr a → addr.show_addr a ≢ []
  pub parses : (a : Bytes) → IsAddr a → addr.parse_addr (addr.show_addr a) ≡ ok a

-- The gateway and the source are addresses or not set.
abbrev pub IsRoute : DefaultRoute → Type 0
IsRoute r = ((r.gateway ≡ []) ⊎ IsAddr r.gateway) × ((r.source ≡ []) ⊎ IsAddr r.source)

abbrev pub AreRoutes : List DefaultRoute → Type 0
AreRoutes = All IsRoute

abbrev pub AreChanges : List DefaultRouteChange → Type 0
AreChanges = All (λ c. IsRoute c.original × IsRoute c.replacement)

module _ (addr : AddrText) (laws : AddrTextLaws addr) where
  -- The text of an address that is set.
  shown-IsAddr : (a : Bytes) → IsAddr a → shown addr a ≡ addr.show_addr a
  unfolding shown list_beq
  shown-IsAddr [] h = absurd (elim h.0 [ inl e ↦ omega (arith, e) | inr e ↦ omega (arith, e) ])
  shown-IsAddr (b ∷ a) h = refl

  shown_nil : shown addr [] ≡ []
  unfolding shown list_beq
  shown_nil = refl

  source_parsed :
      (route : DefaultRoute) (t : Text) (a : Bytes)
      → t ≢ []
      → addr.parse_addr t ≡ ok a
      → route_with_state_source addr route t ≡ ok (record route { source = a })
  unfolding route_with_state_source
  source_parsed route [] a h e = absurd (h refl)
  source_parsed route (c ∷ t) a h e = rw (e, route_with_state_source) refl

  gateway_parsed :
      (route : DefaultRoute) (t source : Text) (a : Bytes)
      → t ≢ []
      → addr.parse_addr t ≡ ok a
      → with_gateway addr route t source
        ≡ route_with_state_source addr (record route { gateway = a }) source
  unfolding with_gateway
  gateway_parsed route [] source a h e = absurd (h refl)
  gateway_parsed route (c ∷ t) source a h e = rw (e, with_gateway) refl

  source_back :
      (i : Text) (f p s : ℕ) (g : Bytes) (m : ℕ) (a : Bytes)
      → ((a ≡ []) ⊎ IsAddr a)
      → let with_source : Bytes → DefaultRoute = λ b. record {
        interface = i;
        family = f;
        protocol = p;
        scope = s;
        gateway = g;
        source = b;
        metric = m;
      } in
        route_with_state_source addr (with_source []) (shown addr a) ≡ ok (with_source a)
  source_back i f p s g m a (inl h) = rw (h, shown_nil) (unfold route_with_state_source in refl)
  source_back i f p s g m a (inr h) =
      rw (shown-IsAddr a h)
        (source_parsed _ (addr.show_addr a) a (laws.shown_text a h) (laws.parses a h))

  route_back :
      (r : DefaultRoute)
      → IsRoute r
      → default_route_from_state addr (route_state_route_from_default addr r) ≡ ok r
  unfolding default_route_from_state route_state_route_from_default with_gateway
  route_back r (inl h, h') =
      rw (h, shown_nil)
        (source_back r.interface r.family r.protocol r.scope [] r.metric r.source h')
  route_back r (inr h, h') = rw (shown-IsAddr r.gateway h) (
      gateway_parsed _ (addr.show_addr r.gateway) _ r.gateway (laws.shown_text r.gateway h)
        (laws.parses r.gateway h)
      ∙ source_back r.interface r.family r.protocol r.scope r.gateway r.metric r.source h')

  routes_back :
      (rs : List DefaultRoute)
      → AreRoutes rs
      → default_routes_from_state addr (route_state_routes addr rs) ≡ ok rs
  unfolding default_routes_from_state route_state_routes
  routes_back [] h = refl
  routes_back (r ∷ rs) h = rw (route_back r h.0, routes_back rs h.1) refl

  changes_back :
      (cs : List DefaultRouteChange)
      → AreChanges cs
      → default_route_changes_from_state addr (route_state_changes addr cs) ≡ ok cs
  unfolding default_route_changes_from_state route_state_changes
  changes_back [] h = refl
  changes_back (c ∷ cs) h =
      rw (route_back c.original h.0.0, route_back c.replacement h.0.1, changes_back cs h.1) refl

  -- The raw form of an entry whose routes have no malformed address gives the entry back.
  entry_from_raw-raw_from_entry :
      (e : RouteStateEntry)
      → AreRoutes e.preferred
      → AreChanges e.changes
      → entry_from_raw addr (raw_from_entry addr e) ≡ ok e
  unfolding entry_from_raw raw_from_entry
  entry_from_raw-raw_from_entry e hp hc =
      rw (routes_back e.preferred hp, changes_back e.changes hc) refl

  -- If the JSON of the plain structs decodes to what was encoded, then the text of an entry whose
  -- gateways and sources are addresses or not set decodes to that entry.
  pub unmarshal-marshal_entry :
      (json : Codec RawRouteState) (coded : CodecLaws json) (e : RouteStateEntry) (v : Text)
      → AreRoutes e.preferred
      → AreChanges e.changes
      → (route_entry_codec addr json).marshal e ≡ ok v
      → (route_entry_codec addr json).unmarshal v ≡ ok e
  unfolding route_entry_codec
  unmarshal-marshal_entry json coded e v hp hc h =
      rw (coded.decodes (raw_from_entry addr e) h) (entry_from_raw-raw_from_entry e hp hc)

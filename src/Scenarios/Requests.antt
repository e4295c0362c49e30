-- ===== src/Scenarios/Requests.antt =====
-- Runs of internal/pkg/netlink/netlink.go, with one interface.
use sigmo.Common.{
  ℕ, ◌≡◌, ◌≢◌, refl, sym, ◌∙◌, [], ◌∷◌, some, Bytes, Text, codes, arith, ◌==◌, nat_equal,
  list_equal, list_beq_iff, Result, ok, err, ok-injective, list_beq, Bool-cases, inl, inr,
  if◌then◌else◌,
}
use sigmo.Internet.Route.{route_protocol}
use sigmo.Internet.Netlink.{
  NetlinkError, Interfaces, route_message, parse_default_routes, parse_attrs_loop, Attrs,
}
use sigmo.Internet.Netlink.Attributes.{parse_attrs_loop_ends}
use sigmo.Internet.Netlink.RoundTrip.{InterfacesLaws, parse-route_message}
use sigmo.Scenarios.Routes.{wwan}

unfoldable one_interface : Interfaces
one_interface = record {
  by_name = λ name. if name == codes "wwan0" then ok 7 else err 1;
  by_index = λ index. if index == 7 then ok (codes "wwan0") else err 1;
}

only_name :
    (name : Text) (index : ℕ)
    → one_interface.by_name name ≡ ok index
    → (name ≡ codes "wwan0") × (index ≡ 7)
unfolding one_interface
only_name name index h = elim (Bool-cases (name == codes "wwan0")) [
  | inl e ↦ ((list_beq_iff name (codes "wwan0")).0 e, sym (ok-injective (rw e at h)))
  | inr e ↦ absurd (ground (arith, rw e at h))
]

differs : codes "wwan0" ≢ []
differs h = cc

one_interface_laws : InterfacesLaws one_interface
unfolding one_interface list_beq
one_interface_laws = record {
  found = λ name h. let o = only_name name _ h in rw (o.0, o.1) refl;
  numbered = λ name h. let o = only_name name _ h in (omega (arith, o.1), omega (arith, o.1));
  has_name = λ name h e. differs (sym (only_name name _ h).0 ∙ e);
}

abbrev message_of : Result NetlinkError Bytes → Bytes
message_of (ok msg) = msg
message_of (err e) = []

abbrev request : Bytes
request = message_of (route_message one_interface wwan)

made : route_message one_interface wwan ≡ ok request
unfolding route_message one_interface list_beq
made = refl

parse-route_message_example :
    parse_default_routes one_interface request
    ≡ (record wwan { protocol = route_protocol wwan }) ∷ []
unfolding route_protocol
parse-route_message_example =
    parse-route_message one_interface one_interface_laws wwan request made (omega arith)
      (omega arith) (omega arith)

abbrev two_attrs : Bytes
two_attrs = 5 ∷ 0 ∷ 1 ∷ 0 ∷ 9 ∷ 0 ∷ 0 ∷ 0 ∷ 4 ∷ 0 ∷ 2 ∷ 0 ∷ 0 ∷ 0 ∷ 3 ∷ 0 ∷ []

parse_attrs_loop_ends_example : (result : Attrs) × (parse_attrs_loop 17 two_attrs [] ≡ some result)
parse_attrs_loop_ends_example = parse_attrs_loop_ends 17 two_attrs [] (omega arith)

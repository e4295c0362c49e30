-- ===== src/Internet/Bearer/Setup/Addresses.antt =====
-- How the steps of configureBearer in internal/pkg/internet/bearer_config.go change the addresses of
-- the interface.
use sigmo.Common.{
  ℕ, ◌≡◌, Bool, true, false, List, [], ◌∷◌, Option, none, some, Text, All, Any, arith, nat_equal,
  list_equal, Bool-cases, inl, inr, ◌⊎◌,
}
use mathlib.Core.Path.{subst}
use sigmo.Internet.Route.{DefaultRoute}
use sigmo.Internet.Takeover.{Errors, succeeded, RouteOps, delete_default_routes}
use sigmo.Internet.Bearer.{IpPrefix}
use sigmo.Internet.Bearer.Setup.{
  LinkOps, TrackedConnection, SetupError, add_addresses, add_routes, delete_addresses,
}

-- What the kernel promises of the addresses of an interface. Some it gives an interface by itself, as
-- the link-local ones; any other comes only from adding it. One that is there can be deleted.
pub record AddressLaws {K : Type 0} (ops : RouteOps K) (links : LinkOps K) : Type 0 where
  pub has_address : Text → IpPrefix → K → Bool
  pub is_automatic : IpPrefix → Bool
  pub set_up_brings_none :
      (i j : Text) (k : K) (b : IpPrefix)
      → is_automatic b ≡ false
      → has_address j b k ≡ false
      → has_address j b (links.set_up i k).0 ≡ false
  pub set_mtu_brings_none :
      (i j : Text) (mtu : ℕ) (k : K) (b : IpPrefix)
      → is_automatic b ≡ false
      → has_address j b k ≡ false
      → has_address j b (links.set_mtu i mtu k).0 ≡ false
  pub add_route_brings_none :
      (r : DefaultRoute) (i : Text) (k : K) (b : IpPrefix)
      → is_automatic b ≡ false
      → has_address i b k ≡ false
      → has_address i b (ops.add_default_route r k).0 ≡ false
  pub delete_route_brings_none :
      (r : DefaultRoute) (i : Text) (k : K) (b : IpPrefix)
      → is_automatic b ≡ false
      → has_address i b k ≡ false
      → has_address i b (ops.delete_default_route r k).0 ≡ false
  pub add_address_brings_one :
      (i : Text) (a : IpPrefix) (k : K) (b : IpPrefix)
      → is_automatic b ≡ false
      → has_address i b k ≡ false
      → (has_address i b (links.add_address i a k).0 ≡ false)
        ⊎ ((succeeded (links.add_address i a k).1 ≡ true) × (a ≡ b))
  pub delete_address_brings_none :
      (i : Text) (a : IpPrefix) (k : K) (b : IpPrefix)
      → is_automatic b ≡ false
      → has_address i b k ≡ false
      → has_address i b (links.delete_address i a k).0 ≡ false
  pub delete_address_takes :
      (i : Text) (a : IpPrefix) (k : K) → has_address i a (links.delete_address i a k).0 ≡ false
  pub add_address_brings :
      (i : Text) (a : IpPrefix) (k : K)
      → succeeded (links.add_address i a k).1 ≡ true
      → has_address i a (links.add_address i a k).0 ≡ true
  pub add_address_leaves :
      (i : Text) (a : IpPrefix) (k : K) (b : IpPrefix)
      → has_address i b k ≡ true
      → has_address i b (links.add_address i a k).0 ≡ true
  pub add_route_leaves :
      (r : DefaultRoute) (i : Text) (k : K) (b : IpPrefix)
      → has_address i b k ≡ true
      → has_address i b (ops.add_default_route r k).0 ≡ true

module _ {K : Type 0} (ops : RouteOps K) (links : LinkOps K) (laws : AddressLaws ops links) where
  open laws use {
    has_address, is_automatic, add_route_brings_none, delete_route_brings_none,
    add_address_brings_one, delete_address_brings_none, delete_address_takes, add_address_brings,
    add_address_leaves, add_route_leaves,
  }

  -- The addresses before and after. Without an error the interface has all that are tracked, and after
  -- an error none that it did not have, save those that the kernel gives it.
  abbrev pub Addressed : K → K → TrackedConnection → Option SetupError → Type 0
  Addressed before after tracked none =
      All (λ a. has_address tracked.interface_name a after ≡ true) tracked.addresses
  Addressed before after tracked (some e) =
      (b : IpPrefix)
      → is_automatic b ≡ false
      → has_address tracked.interface_name b before ≡ false
      → has_address tracked.interface_name b after ≡ false

  -- The interface does not have the address, or it is one of these.
  abbrev pub Listed : Text → IpPrefix → List IpPrefix → K → Type 0
  Listed i b addresses k = (has_address i b k ≡ false) ⊎ Any (λ a. a ≡ b) addresses

  add_addresses_leaves :
      (i : Text) (addresses : List IpPrefix) (k : K) (b : IpPrefix)
      → has_address i b k ≡ true
      → has_address i b (add_addresses ops links i addresses k).0 ≡ true
  unfolding add_addresses
  add_addresses_leaves i [] k b h = h
  add_addresses_leaves i (a ∷ addresses) k b h =
      let r : K × Errors = links.add_address i a k in
      elim (Bool-cases (succeeded r.1)) [
        | inl e ↦ rw e (add_addresses_leaves i addresses r.0 b (add_address_leaves i a k b h))
        | inr e ↦ rw e (add_address_leaves i a k b h)
      ]

  pub add_addresses_there :
      (i : Text) (addresses : List IpPrefix) (k : K)
      → let r = add_addresses ops links i addresses k in All (λ a. has_address i a r.0 ≡ true) r.1
  unfolding add_addresses
  add_addresses_there i [] k = tt
  add_addresses_there i (a ∷ addresses) k =
      let r : K × Errors = links.add_address i a k in
      elim (Bool-cases (succeeded r.1)) [
        | inl e ↦ rw e (
          add_addresses_leaves i addresses r.0 a (add_address_brings i a k e),
          add_addresses_there i addresses r.0,
        )
        | inr e ↦ rw e tt
      ]

  pub add_addresses-Listed :
      (i : Text) (addresses : List IpPrefix) (k : K) (b : IpPrefix)
      → is_automatic b ≡ false
      → has_address i b k ≡ false
      → let r = add_addresses ops links i addresses k in Listed i b r.1 r.0
  unfolding add_addresses
  add_addresses-Listed i [] k b own h = inl h
  add_addresses-Listed i (a ∷ addresses) k b own h =
      let r : K × Errors = links.add_address i a k in
      elim (Bool-cases (succeeded r.1)) [
        | inl e ↦ rw e (elim (add_address_brings_one i a k b own h) [
          | inr (fine, same) ↦ inr (inl same)
          | inl out ↦ elim (add_addresses-Listed i addresses r.0 b own out) [
            | inl out' ↦ inl out'
            | inr there ↦ inr (inr there)
          ]
        ])
        | inr e ↦ rw e (elim (add_address_brings_one i a k b own h) [
          | inr (fine, same) ↦ absurd (ground (arith, e, fine))
          | inl out ↦ inl out
        ])
      ]

  pub delete_addresses_out :
      (i : Text) (addresses : List IpPrefix) (k : K) (b : IpPrefix)
      → is_automatic b ≡ false
      → Listed i b addresses k
      → has_address i b (delete_addresses ops links i addresses k).0 ≡ false
  unfolding delete_addresses
  delete_addresses_out i [] k b own (inl out) = out
  delete_addresses_out i [] k b own (inr there) = absurd there
  delete_addresses_out i (a ∷ addresses) k b own (inl out) =
      delete_address_brings_none i a _ b own (delete_addresses_out i addresses k b own (inl out))
  delete_addresses_out i (a ∷ addresses) k b own (inr (inl same)) =
      let k₁ : K = (delete_addresses ops links i addresses k).0 in
      subst (λ c. has_address i c (links.delete_address i a k₁).0 ≡ false) same
        (delete_address_takes i a k₁)
  delete_addresses_out i (a ∷ addresses) k b own (inr (inr there)) =
      delete_address_brings_none i a _ b own (delete_addresses_out i addresses k b own (inr there))

  delete_routes_out :
      (routes : List DefaultRoute) (i : Text) (k : K) (b : IpPrefix)
      → is_automatic b ≡ false
      → has_address i b k ≡ false
      → has_address i b (delete_default_routes ops routes k).0 ≡ false
  unfolding delete_default_routes
  delete_routes_out [] i k b own out = out
  delete_routes_out (r ∷ routes) i k b own out =
      delete_route_brings_none r i _ b own (delete_routes_out routes i k b own out)

  pub delete_routes-Listed :
      (routes : List DefaultRoute) (i : Text) (addresses : List IpPrefix) (k : K) (b : IpPrefix)
      → is_automatic b ≡ false
      → Listed i b addresses k
      → Listed i b addresses (delete_default_routes ops routes k).0
  delete_routes-Listed routes i addresses k b own (inl out) =
      inl (delete_routes_out routes i k b own out)
  delete_routes-Listed routes i addresses k b own (inr there) = inr there

  add_routes_out :
      (routes : List DefaultRoute) (i : Text) (k : K) (b : IpPrefix)
      → is_automatic b ≡ false
      → has_address i b k ≡ false
      → has_address i b (add_routes ops links routes k).0 ≡ false
  unfolding add_routes
  add_routes_out [] i k b own out = out
  add_routes_out (r ∷ routes) i k b own out =
      let s : K × Errors = ops.add_default_route r k in
      elim (Bool-cases (succeeded s.1)) [
        | inl e ↦ rw e (add_routes_out routes i s.0 b own (add_route_brings_none r i k b own out))
        | inr e ↦ rw e (add_route_brings_none r i k b own out)
      ]

  pub add_routes-Listed :
      (routes : List DefaultRoute) (i : Text) (addresses : List IpPrefix) (k : K) (b : IpPrefix)
      → is_automatic b ≡ false
      → Listed i b addresses k
      → Listed i b addresses (add_routes ops links routes k).0
  add_routes-Listed routes i addresses k b own (inl out) = inl (add_routes_out routes i k b own out)
  add_routes-Listed routes i addresses k b own (inr there) = inr there

  pub add_routes_leaves :
      (routes : List DefaultRoute) (i : Text) (k : K) (b : IpPrefix)
      → has_address i b k ≡ true
      → has_address i b (add_routes ops links routes k).0 ≡ true
  unfolding add_routes
  add_routes_leaves [] i k b h = h
  add_routes_leaves (r ∷ routes) i k b h =
      let s : K × Errors = ops.add_default_route r k in
      elim (Bool-cases (succeeded s.1)) [
        | inl e ↦ rw e (add_routes_leaves routes i s.0 b (add_route_leaves r i k b h))
        | inr e ↦ rw e (add_route_leaves r i k b h)
      ]

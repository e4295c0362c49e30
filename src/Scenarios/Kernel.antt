-- ===== src/Scenarios/Kernel.antt =====
-- A kernel for the runs of internal/pkg/internet/bearer_config.go: a list of routes, and which addresses
-- each interface has.
use sigmo.Common.{
  ◌<◌, ◌≡◌, refl, Bool, true, false, ◌&&◌, List, [], ◌∷◌, Text, arith, ◌==◌, nat_equal, list_equal,
  list_beq_iff, Bool-cases, inl, inr, ◌⊎◌, if◌then◌else◌,
}
use sigmo.Internet.Route.{DefaultRoute, default_route_exists}
use sigmo.Internet.Route.Count.{count}
use sigmo.Internet.Takeover.{RouteOps}
use sigmo.Internet.Takeover.Restore.{KernelLaws}
use sigmo.Internet.Bearer.{IpPrefix}
use sigmo.Internet.Bearer.Setup.{LinkOps}
use sigmo.Internet.Bearer.Setup.Counts.{LinkLaws}
use sigmo.Internet.Bearer.Setup.Addresses.{AddressLaws}
use sigmo.Scenarios.Routes.{table_ops, table_adds, table_add_fails, table_deletes, table_lists}

pub record Kernel : Type 0 where
  pub routes : List DefaultRoute
  pub holds : Text → IpPrefix → Bool

abbrev pub kernel_ops : RouteOps Kernel
kernel_ops = record {
  default_routes = λ k. table_ops.default_routes k.routes;
  add_default_route = λ r k.
      let (routes, e) = table_ops.add_default_route r k.routes in (record k { routes = routes }, e);
  delete_default_route = λ r k.
      let (routes, e) = table_ops.delete_default_route r k.routes in
      (record k { routes = routes }, e);
}

abbrev is_at : Text → IpPrefix → Text → IpPrefix → Bool
is_at i a j b = (i == j) && ((a.address == b.address) && (a.bits == b.bits))

-- Links that are always there.
abbrev pub links : LinkOps Kernel
links = record {
  set_up = λ i k. (k, []);
  set_mtu = λ i mtu k. (k, []);
  add_address =
      λ i a k. (record k { holds = λ j b. if is_at i a j b then true else k.holds j b }, []);
  delete_address =
      λ i a k. (record k { holds = λ j b. if is_at i a j b then false else k.holds j b }, []);
}

abbrev pub kernel_laws : KernelLaws kernel_ops
kernel_laws = record {
  table = λ k. k.routes;
  lists = λ k e. table_lists k.routes e;
  adds = λ r k x e. table_adds r k.routes x e;
  add_fails = λ r k x e. table_add_fails r k.routes x e;
  deletes = λ r k x e. table_deletes r k.routes x e;
}

listed-of_count :
    (r : DefaultRoute) (k : List DefaultRoute) → 0 < count r k → default_route_exists r k ≡ true
unfolding default_route_exists
listed-of_count r [] h = absurd (omega arith)
listed-of_count r (s ∷ k) h = ground (arith, listed-of_count r k)

pub link_laws : LinkLaws kernel_ops links kernel_laws
unfolding table_ops
link_laws = record {
  deletes_listed = λ r k h. rw (listed-of_count r k.routes h) refl;
  set_up_keeps = λ i k x. refl;
  set_mtu_keeps = λ i mtu k x. refl;
  add_address_keeps = λ i a k x. refl;
  delete_address_keeps = λ i a k x h. refl;
  delete_address_le = λ i a k x. omega arith;
}

is_at_self : (i : Text) (a : IpPrefix) → is_at i a i a ≡ true
is_at_self i a =
    ground (arith, (list_beq_iff i i).1 refl, (list_beq_iff a.address a.address).1 refl)

is_at_same : (i : Text) (a : IpPrefix) (j : Text) (b : IpPrefix) → is_at i a j b ≡ true → a ≡ b
is_at_same i a j b h =
    let address : a.address ≡ b.address =
      (list_beq_iff a.address b.address).0 (ground (arith, h)) in
    let bits : a.bits ≡ b.bits = ground (arith, h) in cc

added-holds :
    (i : Text) (a : IpPrefix) (k : Kernel) (b : IpPrefix)
    → k.holds i b ≡ false
    → ((links.add_address i a k).0.holds i b ≡ false) ⊎ ((true ≡ true) × (a ≡ b))
added-holds i a k b out = elim (Bool-cases (is_at i a i b)) [
  | inl e ↦ inr (refl, is_at_same i a i b e)
  | inr e ↦ inl (rw e out)
]

deleted-holds :
    (i : Text) (a : IpPrefix) (k : Kernel) (b : IpPrefix)
    → k.holds i b ≡ false
    → (links.delete_address i a k).0.holds i b ≡ false
deleted-holds i a k b out = elim (Bool-cases (is_at i a i b)) [
  | inl e ↦ rw e refl
  | inr e ↦ rw e out
]

still-holds :
    (i : Text) (a : IpPrefix) (k : Kernel) (b : IpPrefix)
    → k.holds i b ≡ true
    → (links.add_address i a k).0.holds i b ≡ true
still-holds i a k b h = elim (Bool-cases (is_at i a i b)) [ inl e ↦ rw e refl | inr e ↦ rw e h ]

-- No address comes by itself.
pub address_laws : AddressLaws kernel_ops links
unfolding table_ops
address_laws = record {
  has_address = λ i b k. k.holds i b;
  is_automatic = λ b. false;
  set_up_brings_none = λ i j k b own out. out;
  set_mtu_brings_none = λ i j mtu k b own out. out;
  add_route_brings_none = λ r i k b own out. out;
  delete_route_brings_none = λ r i k b own out. out;
  add_address_brings_one = λ i a k b own out. added-holds i a k b out;
  delete_address_brings_none = λ i a k b own out. deleted-holds i a k b out;
  delete_address_takes = λ i a k. rw (is_at_self i a) refl;
  add_address_brings = λ i a k fine. rw (is_at_self i a) refl;
  add_address_leaves = λ i a k b h. still-holds i a k b h;
  add_route_leaves = λ r i k b h. h;
}

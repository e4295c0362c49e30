-- ===== src/Internet/Bearer/Setup/Addressed.antt =====
-- Which addresses the interface has when configureBearer of internal/pkg/internet/bearer_config.go ends,
-- for a connection that does not take over the default route.
use sigmo.Common.{
  ℕ, ◌≡◌, refl, sym, true, false, List, [], Option, Text, All, All-map, nat_equal, list_equal,
  Result, Result-cases, Bool-cases, inl, inr, max, trim_space, ◌==◌, Bytes, some, none,
}
use mathlib.Core.Path.{subst}
use sigmo.Internet.Takeover.{
  NetError, Errors, succeeded, RouteOps, RouteStateOps, World, cleanup_default_route_changes,
  delete_default_routes,
}
use sigmo.Internet.Stale.{SavedRouteState}
use sigmo.Internet.Bearer.{IpPrefix, BearerPlan, BearerIpConfig, plan_bearer}
use sigmo.Internet.Bearer.Setup.{
  LinkOps, Bearer, TrackedConnection, SetupError, add_addresses, cleanup_applied, apply_plan,
  apply_or_clean, configure_link, configure_with, configure_bearer,
}
use sigmo.Internet.Bearer.Setup.Addresses.{
  AddressLaws, Addressed, Listed, add_addresses_there, add_addresses-Listed, delete_addresses_out,
  delete_routes-Listed, add_routes-Listed, add_routes_leaves,
}

module _ {K S : Type 0} (ops : RouteOps K) (links : LinkOps K) (laws : AddressLaws ops links)
    (state : RouteStateOps S) (ctx_error : Errors)
    (load : S → Result NetError (List (Text × SavedRouteState))) where
  open laws use {has_address, is_automatic, set_up_brings_none, set_mtu_brings_none}

  abbrev Ends : K → World K S × TrackedConnection × Option SetupError → Type 0
  Ends before r = Addressed ops links laws before r.0.kernel r.1 r.2

  -- What a plan that was applied, in part or wholly, leaves.
  record Brought (interface : Text) (before : K) (r : World K S × TrackedConnection × Errors)
      : Type 0 where
    same_interface : r.1.interface_name ≡ interface
    no_changes : r.1.route_changes ≡ []
    there : All (λ a. has_address interface a r.0.kernel ≡ true) r.1.addresses
    listed :
        (b : IpPrefix)
        → is_automatic b ≡ false
        → has_address interface b before ≡ false
        → Listed ops links laws interface b r.1.addresses r.0.kernel

  apply_plan-Brought :
      (modem_id interface : Text) (plan : BearerPlan) (w : World K S)
      → Brought interface w.kernel
          (apply_plan ops links state ctx_error load modem_id interface false plan w)
  unfolding apply_plan
  apply_plan-Brought modem_id interface plan w =
      let a : K × List IpPrefix × Errors =
        add_addresses ops links interface plan.addresses w.kernel in
      let there' = add_addresses_there ops links laws interface plan.addresses w.kernel in
      let listed' = add_addresses-Listed ops links laws interface plan.addresses w.kernel in
      elim (Bool-cases (succeeded a.2)) [
        | inr e ↦
            rw e (record {
              same_interface = refl;
              no_changes = refl;
              there = there';
              listed = listed';
            })
        | inl e ↦ rw e (record {
          same_interface = refl;
          no_changes = refl;
          there =
              All-map (λ b. add_routes_leaves ops links laws plan.routes interface a.0 b) a.1
                there';
          listed = λ b own out.
              add_routes-Listed ops links laws plan.routes interface a.1 a.0 b own
                (listed' b own out);
        })
      ]

  cleanup_applied_out :
      (tracked : TrackedConnection) (w : World K S) (b : IpPrefix)
      → succeeded ctx_error ≡ true
      → tracked.route_changes ≡ []
      → is_automatic b ≡ false
      → Listed ops links laws tracked.interface_name b tracked.addresses w.kernel
      → has_address tracked.interface_name b
          (cleanup_applied ops links state ctx_error tracked w).0.kernel
        ≡ false
  unfolding cleanup_applied cleanup_default_route_changes
  cleanup_applied_out tracked w b live no_changes own listed =
      rw (live, no_changes)
        (delete_addresses_out ops links laws tracked.interface_name tracked.addresses
          (delete_default_routes ops tracked.routes w.kernel).0 b own
          (delete_routes-Listed ops links laws tracked.routes tracked.interface_name
            tracked.addresses w.kernel b own listed))

  apply_or_clean-Addressed :
      (modem_id interface : Text) (plan : BearerPlan) (w : World K S)
      → succeeded ctx_error ≡ true
      → Ends w.kernel
          (apply_or_clean ops links state ctx_error load modem_id interface false plan w)
  unfolding apply_or_clean
  apply_or_clean-Addressed modem_id interface plan w live =
      let r : World K S × TrackedConnection × Errors =
        apply_plan ops links state ctx_error load modem_id interface false plan w in
      let h = apply_plan-Brought modem_id interface plan w in
      elim (Bool-cases (succeeded r.2)) [
        | inl e ↦ rw e (
            subst (λ i. All (λ a. has_address i a r.0.kernel ≡ true) r.1.addresses)
              (sym h.same_interface) h.there)
        | inr e ↦ rw e (λ b own out. cleanup_applied_out r.1 r.0 b live h.no_changes own (
            subst (λ i. Listed ops links laws i b r.1.addresses r.0.kernel) (sym h.same_interface)
              (h.listed b own
                (subst (λ i. has_address i b w.kernel ≡ false) h.same_interface out))))
      ]

  -- From an earlier kernel on, where nothing was added in between.
  earlier :
      (k k' after : K) (tracked : TrackedConnection) (e : Option SetupError)
      → ((b : IpPrefix)
          → is_automatic b ≡ false
          → has_address tracked.interface_name b k ≡ false
          → has_address tracked.interface_name b k' ≡ false)
      → Addressed ops links laws k' after tracked e
      → Addressed ops links laws k after tracked e
  earlier k k' after tracked none brings_none h = h
  earlier k k' after tracked (some e) brings_none h = λ b own out. h b own (brings_none b own out)

  configure_link-Addressed :
      (modem_id interface : Text) (mtu : ℕ) (plan : BearerPlan) (w : World K S)
      → succeeded ctx_error ≡ true
      → Ends w.kernel
          (configure_link ops links state ctx_error load modem_id interface false mtu plan w)
  unfolding configure_link
  configure_link-Addressed modem_id interface mtu plan w live =
      let k₁ : K × Errors = links.set_up interface w.kernel in
      let k₂ : K × Errors = links.set_mtu interface mtu k₁.0 in
      let w₂ : World K S = record w { kernel = k₂.0 } in
      let sized : (j : Text) (b : IpPrefix)
          → is_automatic b ≡ false
          → has_address j b w.kernel ≡ false
          → has_address j b k₂.0 ≡ false =
        λ j b own out.
          set_mtu_brings_none interface j mtu k₁.0 b own
            (set_up_brings_none interface j w.kernel b own out) in
      elim (Bool-cases (succeeded k₁.1)) [
        | inr e ↦ rw e (λ b own out. set_up_brings_none interface interface w.kernel b own out)
        | inl e ↦ elim (Bool-cases (succeeded k₂.1)) [
          | inr e' ↦ rw (e, e') (λ b own out. sized interface b own out)
          | inl e' ↦
              let r =
                apply_or_clean ops links state ctx_error load modem_id interface false plan w₂ in
              rw (e, e')
                (earlier w.kernel k₂.0 r.0.kernel r.1 r.2 (sized r.1.interface_name)
                  (apply_or_clean-Addressed modem_id interface plan w₂ live))
        ]
      ]

  module _ (parse_addr : Text → Result ℕ Bytes) where
    configure_with-Addressed :
        (modem_id interface : Text) (ip4 ip6 : BearerIpConfig) (w : World K S)
        → succeeded ctx_error ≡ true
        → Ends w.kernel (
            configure_with ops links state ctx_error load parse_addr modem_id interface false ip4
              ip6 w)
    unfolding configure_with
    configure_with-Addressed modem_id interface ip4 ip6 w live =
        elim (Result-cases
          (plan_bearer parse_addr interface false ip4 ip6 (ops.default_routes w.kernel))) [
            | inr (e, failed) ↦ rw (failed, configure_with) (λ b own out. out)
            | inl (plan, found) ↦
                let mtu : ℕ = max ip4.mtu ip6.mtu in
                let eq : configure_with ops links state ctx_error load parse_addr modem_id interface
                      false ip4 ip6 w
                    ≡ configure_link ops links state ctx_error load modem_id interface false mtu
                        plan w =
                  rw (found, configure_with) refl in
                subst (Ends w.kernel) (sym eq)
                  (configure_link-Addressed modem_id interface mtu plan w live)
          ]

    pub configure_bearer-Addressed :
        (modem_id : Text) (bearer : Bearer) (w : World K S)
        → succeeded ctx_error ≡ true
        → let r =
            configure_bearer ops links state ctx_error load parse_addr modem_id bearer false w in
          Addressed ops links laws w.kernel r.0.kernel r.1 r.2
    unfolding configure_bearer
    configure_bearer-Addressed modem_id bearer w live = elim (Result-cases bearer.interface) [
      | inr (e, no_name) ↦ rw no_name (λ b own out. out)
      | inl (interface, name) ↦ elim (Bool-cases (trim_space interface == [])) [
        | inl blank ↦ rw (name, blank) (λ b own out. out)
        | inr named ↦ elim (Result-cases bearer.ip4_config) [
          | inr (e, no_ip4) ↦ rw (name, named, no_ip4) (λ b own out. out)
          | inl (ip4, has_ip4) ↦ elim (Result-cases bearer.ip6_config) [
            | inr (e, no_ip6) ↦ rw (name, named, has_ip4, no_ip6) (λ b own out. out)
            | inl (ip6, has_ip6) ↦
                rw (name, named, has_ip4, has_ip6)
                  (configure_with-Addressed modem_id interface ip4 ip6 w live)
          ]
        ]
      ]
    ]

-- ===== src/Internet/Bearer/Setup/Settled.antt =====
-- What configureBearer of internal/pkg/internet/bearer_config.go leaves in the table of routes when it
-- ends, for a connection that does not take over the default route.
use sigmo.Common.{
  ℕ, ◌≡◌, refl, sym, ap, arith, ok, ◌∙◌, true, false, List, [], Bytes, Text, ◌==◌, nat_equal,
  list_equal, Result, Result-cases, Bool-cases, inl, inr, max, trim_space,
}
use mathlib.Core.Path.{subst}
use sigmo.Internet.Route.{DefaultRoute}
use sigmo.Internet.Route.Count.{count}
use sigmo.Internet.Takeover.{NetError, Errors, succeeded, RouteOps, RouteStateOps, World}
use sigmo.Internet.Takeover.Restore.{KernelLaws}
use sigmo.Internet.Stale.{SavedRouteState}
use sigmo.Internet.Bearer.{BearerPlan, BearerIpConfig, plan_bearer}
use sigmo.Internet.Bearer.Setup.{
  LinkOps, Bearer, apply_or_clean, configure_link, configure_with, configure_bearer,
}
use sigmo.Internet.Bearer.Setup.Counts.{
  LinkLaws, AllOrNothing, AllOrNothing-map, apply_or_clean-AllOrNothing,
}
use sigmo.Internet.Bearer.Setup.Addresses.{AddressLaws, Addressed}
use sigmo.Internet.Bearer.Setup.Addressed.{configure_bearer-Addressed}

module _ {K S : Type 0} (ops : RouteOps K) (links : LinkOps K) (laws : KernelLaws ops)
    (link_laws : LinkLaws ops links laws) (address_laws : AddressLaws ops links)
    (state : RouteStateOps S) (ctx_error : Errors)
    (load : S → Result NetError (List (Text × SavedRouteState))) where
  open laws use {table}
  open link_laws use {set_up_keeps, set_mtu_keeps}

  configure_link-AllOrNothing :
      (modem_id interface : Text) (mtu : ℕ) (plan : BearerPlan) (w : World K S) (x : DefaultRoute)
      → succeeded ctx_error ≡ true
      → let r = configure_link ops links state ctx_error load modem_id interface false mtu plan w in
        AllOrNothing
          (λ p. p ≡ plan)
          x
          (count x (table w.kernel))
          (count x (table r.0.kernel))
          r.1
          r.2
  unfolding configure_link
  configure_link-AllOrNothing modem_id interface mtu plan w x live =
      let k₁ : K × Errors = links.set_up interface w.kernel in
      let k₂ : K × Errors = links.set_mtu interface mtu k₁.0 in
      let w₂ : World K S = record w { kernel = k₂.0 } in
      let up : count x (table k₁.0) ≡ count x (table w.kernel) =
        set_up_keeps interface w.kernel x in
      let sized : count x (table k₂.0) ≡ count x (table w.kernel) =
        set_mtu_keeps interface mtu k₁.0 x ∙ up in
      elim (Bool-cases (succeeded k₁.1)) [
        | inr not_up ↦ rw not_up (omega (arith, up), λ h. up)
        | inl is_up ↦ elim (Bool-cases (succeeded k₂.1)) [
          | inr not_sized ↦ rw (is_up, not_sized) (omega (arith, sized), λ h. sized)
          | inl is_sized ↦
              rw (is_up, is_sized)
                (let r =
                    apply_or_clean ops links state ctx_error load modem_id interface false plan
                      w₂ in
                  subst (λ n. AllOrNothing (λ p. p ≡ plan) x n (count x (table r.0.kernel)) r.1 r.2)
                    sized
                    (apply_or_clean-AllOrNothing ops links laws link_laws state ctx_error load
                      modem_id interface plan w₂ x live))
        ]
      ]

  module _ (parse_addr : Text → Result ℕ Bytes) where
    -- What `plan_bearer` answers for the interface, its configurations and the table.
    abbrev pub PlannedFor : Text → BearerIpConfig → BearerIpConfig → World K S → BearerPlan → Type 0
    PlannedFor interface ip4 ip6 w plan =
        plan_bearer parse_addr interface false ip4 ip6 (ops.default_routes w.kernel) ≡ ok plan

    -- The plan for the bearer's answers.
    abbrev pub PlanOf : Bearer → World K S → BearerPlan → Type 0
    PlanOf bearer w plan =
        (interface : Text) × (ip4 : BearerIpConfig) × (ip6 : BearerIpConfig) × (bearer.interface
          ≡ ok interface)
        × (bearer.ip4_config ≡ ok ip4)
        × (bearer.ip6_config ≡ ok ip6)
        × PlannedFor interface ip4 ip6 w plan

    configure_with-AllOrNothing :
        (modem_id interface : Text) (ip4 ip6 : BearerIpConfig) (w : World K S) (x : DefaultRoute)
        → succeeded ctx_error ≡ true
        → let r =
            configure_with ops links state ctx_error load parse_addr modem_id interface false ip4
              ip6 w in
          AllOrNothing
            (PlannedFor interface ip4 ip6 w)
            x
            (count x (table w.kernel))
            (count x (table r.0.kernel))
            r.1
            r.2
    unfolding configure_with
    configure_with-AllOrNothing modem_id interface ip4 ip6 w x live =
        let mtu : ℕ = max ip4.mtu ip6.mtu in
        elim (Result-cases
          (plan_bearer parse_addr interface false ip4 ip6 (ops.default_routes w.kernel))) [
            | inr (e, refused) ↦ rw (refused, configure_with) (omega arith, λ h. refl)
            | inl (plan, found) ↦
                let r =
                  configure_link ops links state ctx_error load modem_id interface false mtu plan
                    w in
                let eq : configure_with ops links state ctx_error load parse_addr modem_id interface
                      false ip4 ip6 w
                    ≡ r =
                  rw (found, configure_with) refl in
                subst
                  (λ q.
                    AllOrNothing (PlannedFor interface ip4 ip6 w) x (count x (table w.kernel))
                      (count x (table q.0.kernel)) q.1 q.2)
                  (sym eq)
                  (AllOrNothing-map {P = λ p. p ≡ plan} {Q = PlannedFor interface ip4 ip6 w}
                    (λ p same. found ∙ ap ok (sym same)) x _ _ r.1 r.2
                    (configure_link-AllOrNothing modem_id interface mtu plan w x live))
          ]

    configure_bearer-table :
        (modem_id : Text) (bearer : Bearer) (w : World K S) (x : DefaultRoute)
        → succeeded ctx_error ≡ true
        → let r =
            configure_bearer ops links state ctx_error load parse_addr modem_id bearer false w in
          AllOrNothing
            (PlanOf bearer w)
            x
            (count x (table w.kernel))
            (count x (table r.0.kernel))
            r.1
            r.2
    unfolding configure_bearer
    configure_bearer-table modem_id bearer w x live = elim (Result-cases bearer.interface) [
      | inr (e, no_name) ↦ rw no_name (omega arith, λ h. refl)
      | inl (interface, name) ↦ elim (Bool-cases (trim_space interface == [])) [
        | inl blank ↦ rw (name, blank) (omega arith, λ h. refl)
        | inr named ↦ elim (Result-cases bearer.ip4_config) [
          | inr (e, no_ip4) ↦ rw (name, named, no_ip4) (omega arith, λ h. refl)
          | inl (ip4, has_ip4) ↦ elim (Result-cases bearer.ip6_config) [
            | inr (e, no_ip6) ↦ rw (name, named, has_ip4, no_ip6) (omega arith, λ h. refl)
            | inl (ip6, has_ip6) ↦
                let r =
                  configure_with ops links state ctx_error load parse_addr modem_id interface false
                    ip4 ip6 w in
                let eq : configure_bearer ops links state ctx_error load parse_addr modem_id bearer
                      false w
                    ≡ r =
                  rw (name, named, has_ip4, has_ip6) refl in
                subst
                  (λ q.
                    AllOrNothing (PlanOf bearer w) x (count x (table w.kernel))
                      (count x (table q.0.kernel)) q.1 q.2)
                  (sym eq)
                  (AllOrNothing-map {P = PlannedFor interface ip4 ip6 w} {Q = PlanOf bearer w}
                    (λ p found. (interface, ip4, ip6, name, has_ip4, has_ip6, found)) x _ _ r.1 r.2
                    (configure_with-AllOrNothing modem_id interface ip4 ip6 w x live))
          ]
        ]
      ]
    ]

    -- Setting up a connection that does not take over the default route, where the kernel keeps its
    -- promises and the context lives when it comes to cleaning. Without an error there was a plan for
    -- what the bearer answered, its addresses and routes are what is tracked, the interface has all of
    -- the addresses, and the table has every route as often as before and in the plan. After an error,
    -- whichever step failed, the table has no route more often than before, and just as often every
    -- route whose source is none of the addresses that were added, and the interface has no address that
    -- it did not have before, save those that the kernel gives an interface by itself.
    pub configure_bearer-AllOrNothing :
        (modem_id : Text) (bearer : Bearer) (w : World K S) (x : DefaultRoute)
        → succeeded ctx_error ≡ true
        → let r =
            configure_bearer ops links state ctx_error load parse_addr modem_id bearer false w in
          AllOrNothing
            (PlanOf bearer w)
            x
            (count x (table w.kernel))
            (count x (table r.0.kernel))
            r.1
            r.2
          × Addressed ops links address_laws w.kernel r.0.kernel r.1 r.2
    configure_bearer-AllOrNothing modem_id bearer w x live = (
      configure_bearer-table modem_id bearer w x live,
      configure_bearer-Addressed ops links address_laws state ctx_error load parse_addr modem_id
          bearer w live,
    )

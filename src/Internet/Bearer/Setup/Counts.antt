-- ===== src/Internet/Bearer/Setup/Counts.antt =====
-- How the steps of configureBearer in internal/pkg/internet/bearer_config.go change the table of
-- routes, for a connection that does not take over the default route.
use sigmo.Common.{
  ℕ, ◌+◌, ◌-◌, ◌<◌, ◌≤◌, ◌≡◌, ◌≢◌, refl, ap, ◌∙◌, true, false, List, [], ◌∷◌, Option, none, some,
  Text, All, arith, nat_equal, list_equal, Result, Bool-cases, inl, inr,
}
use sigmo.Internet.Route.{DefaultRoute}
use sigmo.Internet.Route.Count.{count, hits_self}
use sigmo.Internet.Takeover.{
  NetError, Errors, succeeded, RouteOps, RouteStateOps, World, delete_default_routes,
  cleanup_default_route_changes,
}
use sigmo.Internet.Takeover.Restore.{KernelLaws}
use sigmo.Internet.Stale.{SavedRouteState}
use sigmo.Internet.Bearer.{IpPrefix, BearerPlan}
use sigmo.Internet.Bearer.Setup.{
  LinkOps, TrackedConnection, SetupError, add_addresses, add_routes, delete_addresses,
  cleanup_applied, apply_plan, apply_or_clean,
}

-- What the kernel promises besides: a route in the table can be deleted, and what is done to links and
-- addresses leaves the table, but that deleting an address may take out routes whose source it is.
pub record LinkLaws {K : Type 0} (ops : RouteOps K) (links : LinkOps K) (laws : KernelLaws ops)
    : Type 0 where
  pub deletes_listed :
      (r : DefaultRoute) (k : K)
      → 0 < count r (laws.table k)
      → succeeded (ops.delete_default_route r k).1 ≡ true
  pub set_up_keeps :
      (i : Text) (k : K) (x : DefaultRoute)
      → count x (laws.table (links.set_up i k).0) ≡ count x (laws.table k)
  pub set_mtu_keeps :
      (i : Text) (mtu : ℕ) (k : K) (x : DefaultRoute)
      → count x (laws.table (links.set_mtu i mtu k).0) ≡ count x (laws.table k)
  pub add_address_keeps :
      (i : Text) (a : IpPrefix) (k : K) (x : DefaultRoute)
      → count x (laws.table (links.add_address i a k).0) ≡ count x (laws.table k)
  pub delete_address_keeps :
      (i : Text) (a : IpPrefix) (k : K) (x : DefaultRoute)
      → x.source ≢ a.address
      → count x (laws.table (links.delete_address i a k).0) ≡ count x (laws.table k)
  pub delete_address_le :
      (i : Text) (a : IpPrefix) (k : K) (x : DefaultRoute)
      → count x (laws.table (links.delete_address i a k).0) ≤ count x (laws.table k)

-- The route does not come from any of the addresses.
abbrev pub Unsourced : DefaultRoute → List IpPrefix → Type 0
Unsourced x = All (λ a. x.source ≢ a.address)

-- How often a route is in the table, before and after. Without an error there is a plan, which is what
-- is tracked, and its routes have been added. After an error there is no more of any route, and just as
-- much of one that does not come from the addresses that were added.
abbrev pub AllOrNothing :
    (BearerPlan → Type 0) → DefaultRoute → ℕ → ℕ → TrackedConnection → Option SetupError → Type 0
AllOrNothing IsPlan x before after tracked none =
    (plan : BearerPlan) × IsPlan plan
    × (tracked.addresses ≡ plan.addresses)
    × (tracked.routes ≡ plan.routes)
    × (after ≡ before + count x plan.routes)
AllOrNothing IsPlan x before after tracked (some e) =
    (after ≤ before) × (Unsourced x tracked.addresses → after ≡ before)

-- Another test of the plan that holds of the same one.
pub AllOrNothing-map :
    {P Q : BearerPlan → Type 0}
    → ((plan : BearerPlan) → P plan → Q plan)
    → (x : DefaultRoute) (before after : ℕ) (tracked : TrackedConnection) (e : Option SetupError)
    → AllOrNothing P x before after tracked e
    → AllOrNothing Q x before after tracked e
AllOrNothing-map f x before after tracked none (plan, p, addresses, routes, counted) =
    (plan, f plan p, addresses, routes, counted)
AllOrNothing-map f x before after tracked (some e) h = h

module _ {K : Type 0} (ops : RouteOps K) (links : LinkOps K) (laws : KernelLaws ops)
    (link_laws : LinkLaws ops links laws) where
  open laws use {table, adds, add_fails, deletes}
  open link_laws use {
    deletes_listed, set_up_keeps, set_mtu_keeps, add_address_keeps, delete_address_keeps,
    delete_address_le,
  }

  add_addresses_keeps :
      (i : Text) (addresses : List IpPrefix) (k : K) (x : DefaultRoute)
      → count x (table (add_addresses ops links i addresses k).0) ≡ count x (table k)
  unfolding add_addresses
  add_addresses_keeps i [] k x = refl
  add_addresses_keeps i (a ∷ addresses) k x =
      let r : K × Errors = links.add_address i a k in
      elim (Bool-cases (succeeded r.1)) [
        | inl added ↦ rw added (add_addresses_keeps i addresses r.0 x ∙ add_address_keeps i a k x)
        | inr not_added ↦ rw not_added (add_address_keeps i a k x)
      ]

  add_routes-count :
      (routes : List DefaultRoute) (k : K) (x : DefaultRoute)
      → let r = add_routes ops links routes k in
        count x (table r.0) ≡ count x (table k) + count x r.1
  unfolding add_routes
  add_routes-count [] k x = omega arith
  add_routes-count (route ∷ routes) k x =
      let r : K × Errors = ops.add_default_route route k in
      elim (Bool-cases (succeeded r.1)) [
        | inl added ↦ rw added (omega (arith, add_routes-count routes r.0 x, adds route k x added))
        | inr not_added ↦ rw not_added (omega (arith, add_fails route k x not_added))
      ]

  add_addresses_all :
      (i : Text) (addresses : List IpPrefix) (k : K)
      → let r = add_addresses ops links i addresses k in succeeded r.2 ≡ true → r.1 ≡ addresses
  unfolding add_addresses
  add_addresses_all i [] k h = refl
  add_addresses_all i (a ∷ addresses) k h =
      let r : K × Errors = links.add_address i a k in
      elim (Bool-cases (succeeded r.1)) [
        | inl added ↦ rw added (
            ap {B = List IpPrefix} (λ as'. a ∷ as')
              (add_addresses_all i addresses r.0 (rw added at h)))
        | inr not_added ↦ absurd (ground (arith, not_added, h))
      ]

  add_routes_all :
      (routes : List DefaultRoute) (k : K)
      → let r = add_routes ops links routes k in succeeded r.2 ≡ true → r.1 ≡ routes
  unfolding add_routes
  add_routes_all [] k h = refl
  add_routes_all (route ∷ routes) k h =
      let r : K × Errors = ops.add_default_route route k in
      elim (Bool-cases (succeeded r.1)) [
        | inl added ↦ rw added (
            ap {B = List DefaultRoute} (λ rs. route ∷ rs)
              (add_routes_all routes r.0 (rw added at h)))
        | inr not_added ↦ absurd (ground (arith, not_added, h))
      ]

  -- Routes that are in the table, each often enough, are all deleted.
  delete_default_routes-count :
      (routes : List DefaultRoute) (k : K)
      → ((y : DefaultRoute) → count y routes ≤ count y (table k))
      → (x : DefaultRoute)
      → count x (table (delete_default_routes ops routes k).0) ≡ count x (table k) - count x routes
  unfolding delete_default_routes
  delete_default_routes-count [] k there x = omega arith
  delete_default_routes-count (route ∷ routes) k there x =
      let k₁ : K = (delete_default_routes ops routes k).0 in
      let rest = delete_default_routes-count routes k (λ y. omega (arith, there y)) in
      let listed : 0 < count route (table k₁) =
        omega (arith, rest route, there route, hits_self route) in
      omega (arith, deletes route k₁ x (deletes_listed route k₁ listed), rest x)

  delete_addresses_keeps :
      (i : Text) (addresses : List IpPrefix) (k : K) (x : DefaultRoute)
      → Unsourced x addresses
      → count x (table (delete_addresses ops links i addresses k).0) ≡ count x (table k)
  unfolding delete_addresses
  delete_addresses_keeps i [] k x h = refl
  delete_addresses_keeps i (a ∷ addresses) k x h =
      delete_address_keeps i a (delete_addresses ops links i addresses k).0 x h.0
      ∙ delete_addresses_keeps i addresses k x h.1

  delete_addresses_le :
      (i : Text) (addresses : List IpPrefix) (k : K) (x : DefaultRoute)
      → count x (table (delete_addresses ops links i addresses k).0) ≤ count x (table k)
  unfolding delete_addresses
  delete_addresses_le i [] k x = omega arith
  delete_addresses_le i (a ∷ addresses) k x = omega (
    arith,
    delete_address_le i a (delete_addresses ops links i addresses k).0 x,
    delete_addresses_le i addresses k x,
  )

  module _ {S : Type 0} (state : RouteStateOps S) (ctx_error : Errors) where
    -- Cleaning up after routes that were added, and no takeover.
    cleanup_applied-count :
        (tracked : TrackedConnection) (w : World K S) (before : DefaultRoute → ℕ) (x : DefaultRoute)
        → succeeded ctx_error ≡ true
        → tracked.route_changes ≡ []
        → ((y : DefaultRoute) → count y (table w.kernel) ≡ before y + count y tracked.routes)
        → let after =
            count x (table (cleanup_applied ops links state ctx_error tracked w).0.kernel) in
          (after ≤ before x) × (Unsourced x tracked.addresses → after ≡ before x)
    unfolding cleanup_applied cleanup_default_route_changes
    cleanup_applied-count tracked w before x live no_changes added =
        let k₁ : K = (delete_default_routes ops tracked.routes w.kernel).0 in
        let i : Text = tracked.interface_name in
        let deleted : count x (table k₁) ≡ before x = omega (
          arith,
          delete_default_routes-count tracked.routes w.kernel (λ y. omega (arith, added y)) x,
          added x,
        ) in
        rw (live, no_changes)
          (
            omega (arith, delete_addresses_le i tracked.addresses k₁ x, deleted),
            λ h. delete_addresses_keeps i tracked.addresses k₁ x h ∙ deleted,
          )

    module _ (load : S → Result NetError (List (Text × SavedRouteState))) where
      -- A secondary connection leaves no changes, and its table has what it added.
      record Added (plan : BearerPlan) (before : DefaultRoute → ℕ)
          (r : World K S × TrackedConnection × Errors) : Type 0 where
        all_addresses : succeeded r.2 ≡ true → r.1.addresses ≡ plan.addresses
        all_routes : succeeded r.2 ≡ true → r.1.routes ≡ plan.routes
        no_changes : r.1.route_changes ≡ []
        gained : (y : DefaultRoute) → count y (table r.0.kernel) ≡ before y + count y r.1.routes

      apply_plan-Added :
          (modem_id interface : Text) (plan : BearerPlan) (w : World K S)
          → Added plan
              (λ y. count y (table w.kernel))
              (apply_plan ops links state ctx_error load modem_id interface false plan w)
      unfolding apply_plan
      apply_plan-Added modem_id interface plan w =
          let a : K × List IpPrefix × Errors =
            add_addresses ops links interface plan.addresses w.kernel in
          let kept = add_addresses_keeps interface plan.addresses w.kernel in
          elim (Bool-cases (succeeded a.2)) [
            | inr not_added ↦ rw not_added (record {
              all_addresses = λ fine. absurd (ground (arith, not_added, fine));
              all_routes = λ fine. absurd (ground (arith, not_added, fine));
              no_changes = refl;
              gained = λ y. omega (arith, kept y);
            })
            | inl added ↦ rw added (record {
              all_addresses = λ fine. add_addresses_all interface plan.addresses w.kernel added;
              all_routes = λ fine. add_routes_all plan.routes a.0 fine;
              no_changes = refl;
              gained = λ y. omega (arith, kept y, add_routes-count plan.routes a.0 y);
            })
          ]

      -- With a plan, after the link is up.
      pub apply_or_clean-AllOrNothing :
          (modem_id interface : Text) (plan : BearerPlan) (w : World K S) (x : DefaultRoute)
          → succeeded ctx_error ≡ true
          → let r = apply_or_clean ops links state ctx_error load modem_id interface false plan w in
            AllOrNothing
              (λ p. p ≡ plan)
              x
              (count x (table w.kernel))
              (count x (table r.0.kernel))
              r.1
              r.2
      unfolding apply_or_clean
      apply_or_clean-AllOrNothing modem_id interface plan w x live =
          let r : World K S × TrackedConnection × Errors =
            apply_plan ops links state ctx_error load modem_id interface false plan w in
          let added = apply_plan-Added modem_id interface plan w in
          elim (Bool-cases (succeeded r.2)) [
            | inl fine ↦ rw fine (
              plan,
              refl,
              added.all_addresses fine,
              added.all_routes fine,
              added.gained x
                  ∙ ap (λ rs. count x (table w.kernel) + count x rs) (added.all_routes fine),
            )
            | inr bad ↦ rw bad (
                cleanup_applied-count r.1 r.0 (λ y. count y (table w.kernel)) x live
                  added.no_changes added.gained)
          ]

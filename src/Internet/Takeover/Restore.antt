-- ===== src/Internet/Takeover/Restore.antt =====
-- Undoing a takeover in internal/pkg/internet/default_route.go gives back the routes of before.
use sigmo.Common.{
  ℕ, ◌+◌, ◌-◌, ◌≡◌, refl, ap, ◌∙◌, true, false, List, [], ◌∷◌, ◌++◌, arith, nat_equal, list_equal,
  ok, Result-cases, Bool-cases, inl, inr,
}
use sigmo.Internet.Route.{DefaultRoute, default_route_exists}
use sigmo.Internet.Route.Count.{hits, count, hits_self, exists-count}
use sigmo.Internet.Plan.{DefaultRouteChange}
use sigmo.Internet.Plan.Wins.{originals, replacements}
use sigmo.Internet.Plan.Clash.{Feasible}
use sigmo.Internet.Takeover.{Errors, succeeded, RouteOps, restore_original, restore_default_routes}

-- What the kernel promises: a list of its routes is the table; a call that fails leaves the table as
-- it was; one that succeeds adds the route, or takes it out once.
pub record KernelLaws {K : Type 0} (ops : RouteOps K) : Type 0 where
  pub table : K → List DefaultRoute
  pub lists : (k : K) {rs : List DefaultRoute} → ops.default_routes k ≡ ok rs → rs ≡ table k
  pub adds :
      (r : DefaultRoute) (k : K) (x : DefaultRoute)
      → succeeded (ops.add_default_route r k).1 ≡ true
      → count x (table (ops.add_default_route r k).0) ≡ hits x r + count x (table k)
  pub add_fails :
      (r : DefaultRoute) (k : K) (x : DefaultRoute)
      → succeeded (ops.add_default_route r k).1 ≡ false
      → count x (table (ops.add_default_route r k).0) ≡ count x (table k)
  pub deletes :
      (r : DefaultRoute) (k : K) (x : DefaultRoute)
      → succeeded (ops.delete_default_route r k).1 ≡ true
      → count x (table (ops.delete_default_route r k).0) ≡ count x (table k) - hits x r

succeeded-nil : (e : Errors) → succeeded e ≡ true → e ≡ []
succeeded-nil [] h = refl
succeeded-nil (x ∷ e) h = cc

pub succeeded-append :
    (e e' : Errors) → succeeded (e ++ e') ≡ true → (succeeded e ≡ true) × (succeeded e' ≡ true)
succeeded-append [] e' h = (refl, h)
succeeded-append (x ∷ e) e' h = cc

module _ {K : Type 0} (ops : RouteOps K) (laws : KernelLaws ops) where
  open laws use {table, lists, adds, add_fails, deletes}

  abbrev pub Counts : K → (DefaultRoute → ℕ) → Type 0
  Counts k f = (x : DefaultRoute) → count x (table k) ≡ f x

  not_listed :
      (r : DefaultRoute) (k : K) (current : List DefaultRoute)
      → ops.default_routes k ≡ ok current
      → count r (table k) ≡ 0
      → default_route_exists r current ≡ false
  not_listed r k current listed none' = elim (Bool-cases (default_route_exists r current)) [
    | inl e ↦ absurd (omega (arith, exists-count r current e, ap (count r) (lists k listed)))
    | inr e ↦ e
  ]

  -- Where the route is not in the table, success is the success of adding it.
  restore_original-added :
      (r : DefaultRoute) (k : K)
      → count r (table k) ≡ 0
      → succeeded (restore_original ops r k).1 ≡ true
      → (succeeded (ops.add_default_route r k).1 ≡ true)
        × ((restore_original ops r k).0 ≡ (ops.add_default_route r k).0)
  restore_original-added r k none' h = elim (Bool-cases (succeeded (ops.add_default_route r k).1)) [
    | inl added ↦ (added, unfold restore_original in rw (succeeded-nil _ added) refl)
    | inr failed ↦
        let k' : K = (ops.add_default_route r k).0 in
        let still : count r (table k') ≡ 0 = add_fails r k r failed ∙ none' in
        absurd (elim (Result-cases (ops.default_routes k')) [
          | inl (current, listed) ↦
              unfold restore_original in
              ground (arith, failed, listed, not_listed r k' current listed still)
          | inr (x, broken) ↦ unfold restore_original in ground (arith, failed, broken)
        ])
  ]

  -- A successful round of the restoring loop: the rest is undone, the original put back, and the
  -- replacement deleted.
  restore_cons :
      (c : DefaultRouteChange) (cs : List DefaultRouteChange) (k : K)
      → succeeded (restore_default_routes ops (c ∷ cs) k).1 ≡ true
      → let k₁ = (restore_default_routes ops cs k).0 in
        let k₂ = (restore_original ops c.original k₁).0 in
        (succeeded (restore_default_routes ops cs k).1 ≡ true)
        × (succeeded (restore_original ops c.original k₁).1 ≡ true)
        × (succeeded (ops.delete_default_route c.replacement k₂).1 ≡ true)
        × ((restore_default_routes ops (c ∷ cs) k).0
            ≡ (ops.delete_default_route c.replacement k₂).0)
  unfolding restore_default_routes
  restore_cons c cs k h =
      let k₁ : K = (restore_default_routes ops cs k).0 in
      let e₁ : Errors = (restore_default_routes ops cs k).1 in
      let r : K × Errors = restore_original ops c.original k₁ in
      elim (Bool-cases (succeeded r.1)) [
        | inl put ↦
            let parts =
              succeeded-append e₁ (ops.delete_default_route c.replacement r.0).1 (rw put at h) in
            (parts.0, put, parts.1, rw put refl)
        | inr not_put ↦
            let parts = succeeded-append e₁ r.1 (rw not_put at h) in
            absurd (ground (arith, parts.1))
      ]

  -- The counts of the table when a change has been carried out.
  abbrev pub changed : DefaultRouteChange → (DefaultRoute → ℕ) → DefaultRoute → ℕ
  changed c f x = f x - hits x c.original + hits x c.replacement

  pub Feasible-changed :
      (c : DefaultRouteChange) (cs : List DefaultRouteChange) (f : DefaultRoute → ℕ)
      → Feasible (c ∷ cs) f
      → Feasible cs (changed c f)
  Feasible-changed c cs f ok' = record {
    taken = λ x. omega (arith, ok'.taken x);
    fresh = λ x. omega (arith, ok'.taken x, ok'.fresh x);
  }

  -- The routes are those of `f` after the changes.
  abbrev pub After : K → (DefaultRoute → ℕ) → List DefaultRouteChange → Type 0
  After k f cs =
      (x : DefaultRoute)
      → count x (table k) + count x (originals cs) ≡ f x + count x (replacements cs)

  pub restore-Counts :
      (cs : List DefaultRouteChange) (k : K) (f : DefaultRoute → ℕ)
      → Feasible cs f
      → After k f cs
      → succeeded (restore_default_routes ops cs k).1 ≡ true
      → Counts (restore_default_routes ops cs k).0 f
  restore-Counts [] k f ok' after h x = unfold restore_default_routes in omega (arith, after x)
  restore-Counts (c ∷ cs) k f ok' after h x =
      let (rest, put, gone, end) = restore_cons c cs k h in
      let k₁ : K = (restore_default_routes ops cs k).0 in
      let ih =
        restore-Counts cs k (changed c f) (Feasible-changed c cs f ok')
          (λ y. omega (arith, after y, ok'.taken y)) rest in
      let absent : count c.original (table k₁) ≡ 0 =
        omega (
          arith,
          ih c.original,
          hits_self c.original,
          ok'.taken c.original,
          ok'.fresh c.original,
        ) in
      let (added, same) = restore_original-added c.original k₁ absent put in
      let k₂ : K = (restore_original ops c.original k₁).0 in
      omega (
        arith,
        ap (λ q. count x (table q)) end,
        ap (λ q. count x (table q)) same,
        deletes c.replacement k₂ x gone,
        adds c.original k₁ x added,
        ih x,
        ok'.taken x,
      )

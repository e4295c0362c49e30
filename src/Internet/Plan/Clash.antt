-- ===== src/Internet/Plan/Clash.antt =====
-- The replacements planned in internal/pkg/internet/default_route.go clash with no other route.
use sigmo.Common.{
  ℕ, ◌+◌, ◌≤◌, ◌≡◌, refl, true, false, List, [], ◌∷◌, ◌++◌, arith, nat_equal, list_equal,
  Bool-cases, inl, inr,
}
use sigmo.Internet.Route.{DefaultRoute, same_default_route, same_default_route-Same}
use sigmo.Internet.Route.Count.{count, count-append, hits-le-one}
use sigmo.Internet.Plan.{
  DefaultRouteChange, demoted, keeps_place, changes_from, default_route_changes,
  route_metric_exists,
}
use sigmo.Internet.Plan.Fallback.{fallback_metric-IsLeastFree}
use sigmo.Internet.Plan.Wins.{originals, replacements}

-- A route with a free metric is not in the table.
fresh-count :
    (x r : DefaultRoute) (used : List DefaultRoute)
    → route_metric_exists r x.metric used ≡ false
    → x.family ≡ r.family
    → count x used ≡ 0
unfolding route_metric_exists
fresh-count x r [] h e = refl
fresh-count x r (u ∷ used) h e = elim (Bool-cases (same_default_route x u)) [
  | inl s ↦
      let s' = (same_default_route-Same x u).0 s in
      absurd (ground (arith, s'.family_eq, s'.metric_eq))
  | inr d ↦ rw d (ground (arith, fresh-count x r used))
]

demoted-fresh :
    (x r : DefaultRoute) (used : List DefaultRoute)
    → same_default_route x (demoted r used) ≡ true
    → count x used ≡ 0
demoted-fresh x r used s =
    let s' = (same_default_route-Same x (demoted r used)).0 s in
    fresh-count x r used (rw s'.metric_eq (fallback_metric-IsLeastFree r used).free) s'.family_eq

used-demoted :
    (x r : DefaultRoute) (used : List DefaultRoute)
    → count x used ≤ 1
    → count x (used ++ demoted r used ∷ []) ≤ 1
used-demoted x r used h = elim (Bool-cases (same_default_route x (demoted r used))) [
  | inl s ↦ omega (
    arith,
    count-append x used (demoted r used ∷ []),
    demoted-fresh x r used s,
    hits-le-one x (demoted r used),
  )
  | inr d ↦ rw (count-append x used (demoted r used ∷ []), d) (omega arith)
]

replacements-count :
    (preferred used current : List DefaultRoute) (x : DefaultRoute)
    → count x used ≤ 1
    → count x used + count x (replacements (changes_from preferred used current)) ≤ 1
unfolding changes_from
replacements-count preferred used [] x h = omega arith
replacements-count preferred used (r ∷ rs) x h = elim (Bool-cases (keeps_place r preferred)) [
  | inl k ↦ rw k (replacements-count preferred used rs x h)
  | inr k ↦ rw k (
      omega (
        arith,
        count-append x used (demoted r used ∷ []),
        replacements-count preferred (used ++ demoted r used ∷ []) rs x (used-demoted x r used h),
      ))
]

originals-count :
    (preferred used current : List DefaultRoute) (x : DefaultRoute)
    → count x (originals (changes_from preferred used current)) ≤ count x current
unfolding changes_from
originals-count preferred used [] x = omega arith
originals-count preferred used (r ∷ rs) x = elim (Bool-cases (keeps_place r preferred)) [
  | inl k ↦ rw k (omega (arith, originals-count preferred used rs x))
  | inr k ↦ rw k (omega (arith, originals-count preferred (used ++ demoted r used ∷ []) rs x))
]

-- The plan takes routes from the table, and puts in none that the table or the plan has already.
pub record Feasible (changes : List DefaultRouteChange) (f : DefaultRoute → ℕ) : Type 0 where
  pub taken : (x : DefaultRoute) → count x (originals changes) ≤ f x
  pub fresh : (x : DefaultRoute) → f x + count x (replacements changes) ≤ 1

-- For a table with no route twice, the planned changes take only routes that it has, and the
-- replacements differ from one another and from every route of the table.
pub default_route_changes-Feasible :
    (current preferred : List DefaultRoute)
    → ((x : DefaultRoute) → count x current ≤ 1)
    → Feasible (default_route_changes current preferred) (λ x. count x current)
unfolding default_route_changes
default_route_changes-Feasible current preferred once = record {
  taken = originals-count preferred current current;
  fresh = λ x. replacements-count preferred current current x (once x);
}

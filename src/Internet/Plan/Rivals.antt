-- ===== src/Internet/Plan/Rivals.antt =====
-- Which routes of internal/pkg/internet/default_route.go lose to a preferred one, and what
-- `preferredMetric` finds.
use sigmo.Common.{
  ℕ, ◌<◌, ◌≤◌, ◌≡◌, ◌≢◌, refl, true, false, List, [], ◌∷◌, Option, none, some, All, Any, Any-map,
  Any-All, arith, nat_equal, list_equal, Bool-cases, inl, inr, ◌⊎◌, Option-cases,
}
use mathlib.Core.Path.{subst}
use sigmo.Internet.Route.{DefaultRoute, default_route_exists}
use sigmo.Internet.Plan.{
  default_route_metric, preferred_from, preferred_metric, demoted, keeps_place, improve,
}
use sigmo.Internet.Plan.Fallback.{fallback_metric-IsLeastFree}

-- No preferred route has the family.
abbrev pub Absent : ℕ → List DefaultRoute → Type 0
Absent family = All (λ p. p.family ≢ family)

-- A preferred route of the family has the metric.
abbrev pub Has : ℕ → ℕ → List DefaultRoute → Type 0
Has family metric = Any (λ p. (p.family ≡ family) × (p.metric ≡ metric))

-- What the loop of `preferredMetric` finds.
Found : ℕ → List DefaultRoute → Option ℕ → Option ℕ → Type 0
Found family routes best none = (best ≡ none) × Absent family routes
Found family routes best (some m) = (best ≡ some m) ⊎ Has family m routes

Found-step :
    (family : ℕ) (r : DefaultRoute) (rs : List DefaultRoute) (best x : Option ℕ)
    → Found family rs (improve family r best) x
    → Found family (r ∷ rs) best x
unfolding Found
Found-step family r rs none none h = ground arith
Found-step family r rs (some b) none h = ground arith
Found-step family r rs none (some m) (inl e) = ground arith
Found-step family r rs (some b) (some m) (inl e) = ground arith
Found-step family r rs best (some m) (inr h) = inr (inr h)

preferred_from-Found :
    (family : ℕ) (routes : List DefaultRoute) (best : Option ℕ)
    → Found family routes best (preferred_from family routes best)
unfolding preferred_from
preferred_from-Found family [] none = unfold Found in (refl, tt)
preferred_from-Found family [] (some m) = unfold Found in inl refl
preferred_from-Found family (r ∷ rs) best =
    Found-step family r rs best (preferred_from family rs (improve family r best))
      (preferred_from-Found family rs (improve family r best))

-- The route is preferred itself, or has no preferred rival, or loses to one by its metric.
abbrev pub Yields : List DefaultRoute → DefaultRoute → Type 0
Yields preferred r =
    (default_route_exists r preferred ≡ true)
    ⊎ (Absent r.family preferred
        ⊎ Any (λ p. (p.family ≡ r.family) × (p.metric < r.metric)) preferred)

metric-Found :
    (r : DefaultRoute) (preferred : List DefaultRoute)
    → Found r.family preferred none (preferred_metric r.family preferred)
unfolding preferred_metric
metric-Found r preferred = preferred_from-Found r.family preferred none

Found-some :
    (family m : ℕ) (preferred : List DefaultRoute)
    → Found family preferred none (some m)
    → Has family m preferred
unfolding Found
Found-some family m preferred (inl e) = cc
Found-some family m preferred (inr h) = h

pub Has-metric :
    (r : DefaultRoute) (preferred : List DefaultRoute) {m : ℕ}
    → preferred_metric r.family preferred ≡ some m
    → Has r.family m preferred
Has-metric r preferred {m} found =
    Found-some r.family m preferred
      (subst (Found r.family preferred none) found (metric-Found r preferred))

pub beaten :
    (family k : ℕ) (preferred : List DefaultRoute) (m : ℕ)
    → m < k
    → Has family m preferred
    → Any (λ p. (p.family ≡ family) × (p.metric < k)) preferred
beaten family k preferred m lt = Any-map (λ p h. (h.0, omega (arith, h.1))) preferred

pub kept-Yields :
    (r : DefaultRoute) (preferred : List DefaultRoute)
    → keeps_place r preferred ≡ true
    → Yields preferred r
unfolding keeps_place
kept-Yields r preferred h = elim (Bool-cases (default_route_exists r preferred)) [
  | inl e ↦ inl e
  | inr e ↦ elim (Option-cases (preferred_metric r.family preferred)) [
    | inl absent ↦ inr (
        inl (
          unfold Found in
          (subst (Found r.family preferred none) absent (metric-Found r preferred)).1))
    | inr (m, found) ↦
        let lt : m < r.metric = ground (arith, e, found) in
        inr (inr (beaten r.family r.metric preferred m lt (Has-metric r preferred found)))
  ]
]

pub moved-metric :
    (r : DefaultRoute) (preferred : List DefaultRoute)
    → keeps_place r preferred ≡ false
    → (m : ℕ) × (preferred_metric r.family preferred ≡ some m) × (r.metric ≤ m)
unfolding keeps_place
moved-metric r preferred h = elim (Option-cases (preferred_metric r.family preferred)) [
  | inl absent ↦ absurd (ground (arith, absent))
  | inr (m, found) ↦ (m, found, ground (arith, found))
]

-- As `configureBearer` calls it: the preferred routes have the default metric.
abbrev pub AtDefault : List DefaultRoute → Type 0
AtDefault = All (λ p. p.metric ≡ default_route_metric)

pub demoted-Yields :
    (r : DefaultRoute) (preferred used : List DefaultRoute)
    → AtDefault preferred
    → keeps_place r preferred ≡ false
    → Yields preferred (demoted r used)
demoted-Yields r preferred used at_default h =
    let (m, found, le) = moved-metric r preferred h in
    let high = (fallback_metric-IsLeastFree r used).above in
    inr (
      inr (
        Any-map (λ p q. (q.0.0, omega (arith, q.1, high))) preferred
          (Any-All _ _ preferred (Has-metric r preferred found) at_default)))

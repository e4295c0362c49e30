-- ===== src/Internet/Plan/Wins.antt =====
-- After the planned changes of internal/pkg/internet/default_route.go the preferred routes win.
use sigmo.Common.{
  ◌≤◌, ◌≡◌, refl, true, false, List, [], ◌∷◌, ◌++◌, All, Any, All-append, All-map, Any-exists, sym,
  Any-map, Any-All, arith, nat_equal, list_equal, Bool-cases, inl, inr, ◌⊎◌, if◌then◌else◌,
}
use mathlib.Core.Path.{subst}
use sigmo.Internet.Route.{DefaultRoute, default_route_exists, same_default_route_refl}
use sigmo.Internet.Plan.{
  DefaultRouteChange, default_route_metric, demoted, keeps_place, changes_from,
  default_route_changes,
}
use sigmo.Internet.Plan.Rivals.{
  Yields, Has-metric, kept-Yields, moved-metric, AtDefault, demoted-Yields,
}

abbrev pub originals : List DefaultRouteChange → List DefaultRoute
originals [] = []
originals (c ∷ cs) = c.original ∷ originals cs

abbrev pub replacements : List DefaultRouteChange → List DefaultRoute
replacements [] = []
replacements (c ∷ cs) = c.replacement ∷ replacements cs

-- The table without the first routes, and with the second ones.
abbrev pub without : List DefaultRoute → List DefaultRoute → List DefaultRoute
without gone [] = []
without gone (r ∷ rs) = if default_route_exists r gone then without gone rs else r ∷ without gone rs

-- The table when the changes have been carried out.
abbrev pub changed_table : List DefaultRouteChange → List DefaultRoute → List DefaultRoute
changed_table changes current = without (originals changes) current ++ replacements changes

-- A route of the table keeps its place, or is the original of a change.
Planned : List DefaultRoute → List DefaultRoute → DefaultRoute → Type 0
Planned preferred gone r = (keeps_place r preferred ≡ true) ⊎ (default_route_exists r gone ≡ true)

Planned-cons :
    (preferred gone : List DefaultRoute) (o r : DefaultRoute)
    → Planned preferred gone r
    → Planned preferred (o ∷ gone) r
unfolding Planned default_route_exists
Planned-cons preferred gone o r (inl k) = inl k
Planned-cons preferred gone o r (inr e) = inr (ground (arith, e))

-- The two rounds of the planning loop.
changes_kept :
    (preferred used rs : List DefaultRoute) (r : DefaultRoute)
    → keeps_place r preferred ≡ true
    → changes_from preferred used (r ∷ rs) ≡ changes_from preferred used rs
unfolding changes_from
changes_kept preferred used rs r k = rw k refl

changes_moved :
    (preferred used rs : List DefaultRoute) (r : DefaultRoute)
    → keeps_place r preferred ≡ false
    → changes_from preferred used (r ∷ rs)
      ≡ record { original = r; replacement = demoted r used }
        ∷ changes_from preferred (used ++ demoted r used ∷ []) rs
unfolding changes_from
changes_moved preferred used rs r k = rw k refl

first-Planned :
    (preferred gone : List DefaultRoute) (r : DefaultRoute) → Planned preferred (r ∷ gone) r
unfolding Planned default_route_exists
first-Planned preferred gone r = inr (ground (arith, same_default_route_refl r))

changes_from-Planned :
    (preferred used current : List DefaultRoute)
    → All (Planned preferred (originals (changes_from preferred used current))) current
changes_from-Planned preferred used [] = tt
changes_from-Planned preferred used (r ∷ rs) = elim (Bool-cases (keeps_place r preferred)) [
  | inl k ↦
      subst (λ cs. All (Planned preferred (originals cs)) (r ∷ rs))
        (sym (changes_kept preferred used rs r k))
        (unfold Planned in inl k, changes_from-Planned preferred used rs)
  | inr k ↦
      let used' : List DefaultRoute = used ++ demoted r used ∷ [] in
      let gone : List DefaultRoute = originals (changes_from preferred used' rs) in
      subst (λ cs. All (Planned preferred (originals cs)) (r ∷ rs))
        (sym (changes_moved preferred used rs r k))
        (
          first-Planned preferred gone r,
          All-map (Planned-cons preferred gone r) rs (changes_from-Planned preferred used' rs),
        )
]

without-All-Yields :
    (preferred gone current : List DefaultRoute)
    → All (Planned preferred gone) current
    → All (Yields preferred) (without gone current)
without-All-Yields preferred gone [] h = tt
without-All-Yields preferred gone (r ∷ rs) h = elim (Bool-cases (default_route_exists r gone)) [
  | inl e ↦ rw e (without-All-Yields preferred gone rs h.1)
  | inr e ↦
      let keeps : keeps_place r preferred ≡ true =
        unfold Planned in elim h.0 [ inl k ↦ k | inr e' ↦ ground (arith, e, e') ] in
      rw e (kept-Yields r preferred keeps, without-All-Yields preferred gone rs h.1)
]

-- Where the preferred routes have the default metric, so has every one of a family.
moved-le :
    (r : DefaultRoute) (preferred : List DefaultRoute)
    → AtDefault preferred
    → keeps_place r preferred ≡ false
    → (r.metric ≤ default_route_metric) × Any (λ p. p.family ≡ r.family) preferred
moved-le r preferred d h =
    let (m, found, le) = moved-metric r preferred h in
    let has = Has-metric r preferred found in
    let (p, ((family, metric), at)) = Any-exists preferred (Any-All _ _ preferred has d) in
    (omega (arith, le, metric, at), Any-map (λ q e. e.0) preferred has)

-- What is moved would not have yielded.
moved-stays :
    (r : DefaultRoute) (preferred : List DefaultRoute)
    → AtDefault preferred
    → keeps_place r preferred ≡ false
    → ¬ Yields preferred r
moved-stays r preferred d h (inl e) = unfold keeps_place in ground (arith, h, e)
moved-stays r preferred d h (inr (inl absent)) =
    let rival = (moved-le r preferred d h).1 in
    let (p, (same, other)) = Any-exists preferred (Any-All _ _ preferred rival absent) in other same
moved-stays r preferred d h (inr (inr beaten')) =
    let low = (moved-le r preferred d h).0 in
    let (p, ((family, less), at)) = Any-exists preferred (Any-All _ _ preferred beaten' d) in
    omega (arith, low, less, at)

originals-All :
    (preferred used current : List DefaultRoute)
    → AtDefault preferred
    → All (λ o. ¬ Yields preferred o) (originals (changes_from preferred used current))
unfolding changes_from
originals-All preferred used [] d = tt
originals-All preferred used (r ∷ rs) d = elim (Bool-cases (keeps_place r preferred)) [
  | inl k ↦ rw k (originals-All preferred used rs d)
  | inr k ↦
      rw k (moved-stays r preferred d k, originals-All preferred (used ++ demoted r used ∷ []) rs d)
]

replacements-All-Yields :
    (preferred used current : List DefaultRoute)
    → AtDefault preferred
    → All (Yields preferred) (replacements (changes_from preferred used current))
unfolding changes_from
replacements-All-Yields preferred used [] d = tt
replacements-All-Yields preferred used (r ∷ rs) d = elim (Bool-cases (keeps_place r preferred)) [
  | inl k ↦ rw k (replacements-All-Yields preferred used rs d)
  | inr k ↦ rw k (
    demoted-Yields r preferred used d k,
    replacements-All-Yields preferred (used ++ demoted r used ∷ []) rs d,
  )
]

-- If the preferred routes have the default metric, then in the table without the originals of the
-- planned changes and with their replacements every route is preferred itself, or has no preferred
-- rival in its family, or has a larger metric than one; and no original was such a route before.
pub default_route_changes-Yields :
    (current preferred : List DefaultRoute)
    → AtDefault preferred
    → let changes = default_route_changes current preferred in
      All (Yields preferred) (changed_table changes current)
      × All (λ o. ¬ Yields preferred o) (originals changes)
unfolding default_route_changes
default_route_changes-Yields current preferred d =
    let gone : List DefaultRoute = originals (changes_from preferred current current) in
    (
      All-append (Yields preferred) (without gone current) _
          (without-All-Yields preferred gone current
            (changes_from-Planned preferred current current))
          (replacements-All-Yields preferred current current d),
      originals-All preferred current current d,
    )

-- ===== src/Scenarios/Routes.antt =====
-- Runs of internal/pkg/internet/default_route.go on a kernel that is a list of routes.
use sigmo.Common.{
  ◌+◌, ◌-◌, ◌≡◌, ◌≤◌, refl, sym, ◌∙◌, true, false, List, [], ◌∷◌, All, codes, ok, ok-injective,
  arith, inl, inr, list_beq, Bool-cases, if◌then◌else◌, Text, trim_space, nat_equal, list_equal,
  ◌≢◌, ◌==◌, list_beq_iff,
}
use sigmo.Internet.Route.{
  DefaultRoute, same_default_route, default_route_exists, Same, same_default_route-Same,
  family_ipv4,
}
use sigmo.Internet.Route.Count.{hits, count, hits-le-one}
use sigmo.Internet.Plan.{
  default_route_metric, default_route_changes, preferred_metric, fallback_metric,
  route_metric_exists,
}
use sigmo.Internet.Plan.Rivals.{Yields}
use sigmo.Internet.Plan.Wins.{originals, changed_table, replacements, default_route_changes-Yields}
use sigmo.Internet.Plan.Clash.{Feasible, default_route_changes-Feasible}
use sigmo.Internet.Takeover.{
  default_route_exists_error, failed, Errors, RouteOps, RouteStateOps, World, succeeded,
  takeover_default_routes, restore_default_routes,
}
use sigmo.Internet.Stale.{SavedRouteState, RestoreTarget, restore_stale_states}
use sigmo.Internet.Stale.Owners.{OthersOwn, restore_stale_states-others}
use sigmo.Internet.Takeover.Restore.{KernelLaws}
use sigmo.Internet.Takeover.Undo.{takeover-counts, restore-takeover}

-- A cable connection and a modem.
abbrev pub cable : DefaultRoute
cable = record {
  interface = codes "eth0";
  family = family_ipv4;
  protocol = 16;
  scope = 0;
  gateway = 192 ∷ 168 ∷ 1 ∷ 1 ∷ [];
  source = [];
  metric = 0;
}

abbrev pub wwan : DefaultRoute
wwan = record {
  interface = codes "wwan0";
  family = family_ipv4;
  protocol = 0;
  scope = 0;
  gateway = 10 ∷ 0 ∷ 0 ∷ 1 ∷ [];
  source = [];
  metric = default_route_metric;
}

abbrev pub cabled : List DefaultRoute
cabled = cable ∷ []

abbrev pub modems : List DefaultRoute
modems = wwan ∷ []

default_route_changes-Yields_example :
    let changes = default_route_changes cabled modems in
    All (Yields modems) (changed_table changes cabled)
    × All (λ o. ¬ Yields modems o) (originals changes)
default_route_changes-Yields_example = default_route_changes-Yields cabled modems (refl, tt)

cabled_once : (x : DefaultRoute) → count x cabled ≤ 1
cabled_once x = ground arith

default_route_changes-Feasible_example :
    Feasible (default_route_changes cabled modems) (λ x. count x cabled)
default_route_changes-Feasible_example = default_route_changes-Feasible cabled modems cabled_once

-- A kernel that is the list of its routes.
abbrev pub remove : DefaultRoute → List DefaultRoute → List DefaultRoute
remove r [] = []
remove r (s ∷ ss) = let rest = remove r ss in if same_default_route r s then ss else s ∷ rest

unfoldable pub table_ops : RouteOps (List DefaultRoute)
table_ops = record {
  default_routes = λ k. ok k;
  add_default_route =
      λ r k. if default_route_exists r k then (k, default_route_exists_error ∷ []) else (r ∷ k, []);
  delete_default_route =
      λ r k. if default_route_exists r k then (remove r k, []) else (k, failed 3 ∷ []);
}

Same-trans : (a b c : DefaultRoute) → Same a b → Same b c → Same a c
Same-trans a b c h k = record {
  interface_eq = h.interface_eq ∙ k.interface_eq;
  family_eq = h.family_eq ∙ k.family_eq;
  protocol_eq = h.protocol_eq ∙ k.protocol_eq;
  scope_eq = h.scope_eq ∙ k.scope_eq;
  gateway_eq = h.gateway_eq ∙ k.gateway_eq;
  source_eq = h.source_eq ∙ k.source_eq;
  metric_eq = h.metric_eq ∙ k.metric_eq;
}

Same-symm : (a b : DefaultRoute) → Same a b → Same b a
Same-symm a b h = record {
  interface_eq = sym h.interface_eq;
  family_eq = sym h.family_eq;
  protocol_eq = sym h.protocol_eq;
  scope_eq = sym h.scope_eq;
  gateway_eq = sym h.gateway_eq;
  source_eq = sym h.source_eq;
  metric_eq = sym h.metric_eq;
}

tells_alike :
    (x r s : DefaultRoute)
    → Same r s
    → same_default_route x r ≡ true
    → same_default_route x s ≡ true
tells_alike x r s h e =
    (same_default_route-Same x s).1 (Same-trans x r s ((same_default_route-Same x r).0 e) h)

hits-same : (x r s : DefaultRoute) → same_default_route r s ≡ true → hits x r ≡ hits x s
hits-same x r s h =
    let rs : Same r s = (same_default_route-Same r s).0 h in
    elim (Bool-cases (same_default_route x r)) [
      | inl e ↦ rw (e, tells_alike x r s rs e)
      | inr e ↦ elim (Bool-cases (same_default_route x s)) [
        | inl f ↦ absurd (cc (e, tells_alike x s r (Same-symm r s rs) f))
        | inr f ↦ rw (e, f)
      ]
    ]

count-remove :
    (r x : DefaultRoute) (k : List DefaultRoute)
    → default_route_exists r k ≡ true
    → count x (remove r k) + hits x r ≡ count x k
unfolding default_route_exists
count-remove r x [] h = cc
count-remove r x (s ∷ ss) h = elim (Bool-cases (same_default_route r s)) [
  | inl e ↦ rw e (ground (arith, hits-same x r s e))
  | inr e ↦
      let ih : count x (remove r ss) + hits x r ≡ count x ss =
        count-remove r x ss (ground (arith, e, h)) in
      rw e (omega (arith, ih))
]

pub table_adds :
    (r : DefaultRoute) (k : List DefaultRoute) (x : DefaultRoute)
    → succeeded (table_ops.add_default_route r k).1 ≡ true
    → count x (table_ops.add_default_route r k).0 ≡ hits x r + count x k
unfolding table_ops
table_adds r k x e = ground arith

pub table_add_fails :
    (r : DefaultRoute) (k : List DefaultRoute) (x : DefaultRoute)
    → succeeded (table_ops.add_default_route r k).1 ≡ false
    → count x (table_ops.add_default_route r k).0 ≡ count x k
unfolding table_ops
table_add_fails r k x e = ground arith

pub table_deletes :
    (r : DefaultRoute) (k : List DefaultRoute) (x : DefaultRoute)
    → succeeded (table_ops.delete_default_route r k).1 ≡ true
    → count x (table_ops.delete_default_route r k).0 ≡ count x k - hits x r
unfolding table_ops
table_deletes r k x e = ground (arith, count-remove r x k)

pub table_lists :
    (k : List DefaultRoute) {rs : List DefaultRoute} → table_ops.default_routes k ≡ ok rs → rs ≡ k
unfolding table_ops
table_lists k e = sym (ok-injective e)

unfoldable pub table_laws : KernelLaws table_ops
table_laws = record {
  table = λ k. k;
  lists = table_lists;
  adds = table_adds;
  add_fails = table_add_fails;
  deletes = table_deletes;
}

-- A store that keeps nothing.
abbrev pub no_store : RouteStateOps (Unit {0})
no_store = record {
  save_route_state = λ modem_id interface preferred changes s. (s, []);
  delete_route_state = λ interface s. (s, []);
}

-- The cable's route and the modem's, which the connection has just added.
abbrev start : World (List DefaultRoute) (Unit {0})
start = record { kernel = wwan ∷ cable ∷ []; store = tt }

start_once : (x : DefaultRoute) → count x start.kernel ≤ 1
start_once x = elim (Bool-cases (same_default_route x wwan)) [
  | inr e ↦ ground (arith, e, hits-le-one x cable)
  | inl e ↦ elim (Bool-cases (same_default_route x cable)) [
    | inr f ↦ ground (arith, f, hits-le-one x wwan)
    | inl f ↦
        let a : x.metric ≡ 10 = ((same_default_route-Same x wwan).0 e).metric_eq in
        let b : x.metric ≡ 0 = ((same_default_route-Same x cable).0 f).metric_eq in
        absurd (omega (arith, a, b))
  ]
]

abbrev undone : (List DefaultRoute) × Errors
undone =
    let r = takeover_default_routes table_ops no_store (codes "m1") (codes "wwan0") modems start in
    restore_default_routes table_ops r.1 r.0.kernel

taken_over :
    succeeded
      (takeover_default_routes table_ops no_store (codes "m1") (codes "wwan0") modems start).2
    ≡ true
unfolding takeover_default_routes table_ops default_route_changes default_route_exists
    same_default_route list_beq preferred_metric
taken_over = refl

taken_back : succeeded undone.1 ≡ true
unfolding takeover_default_routes restore_default_routes table_ops default_route_changes
    default_route_exists same_default_route list_beq preferred_metric fallback_metric
    route_metric_exists
taken_back = refl

takeover-counts_example :
    let r = takeover_default_routes table_ops no_store (codes "m1") (codes "wwan0") modems start in
    (r.1 ≡ default_route_changes start.kernel modems)
    × ((x : DefaultRoute)
        → count x r.0.kernel + count x (originals r.1)
          ≡ count x start.kernel + count x (replacements r.1))
unfolding table_laws same_default_route
takeover-counts_example =
    takeover-counts table_ops no_store (codes "wwan0") table_laws (codes "m1") modems start
      start_once taken_over

restore-takeover_example : count cable undone.0 ≡ count cable start.kernel
unfolding table_laws same_default_route
restore-takeover_example =
    restore-takeover table_ops no_store (codes "wwan0") table_laws (codes "m1") modems start cable
      start_once taken_over taken_back

-- Two saved states of another modem.
abbrev other_states : List (Text × SavedRouteState)
other_states =
    (codes "wwan1", record { modem_id = codes "m2"; preferred = modems; changes = [] })
    ∷ (codes "wwan2", record { modem_id = codes "m2 "; preferred = []; changes = [] })
    ∷ []

abbrev first_modem : RestoreTarget
first_modem = record { modem_id = codes "m1"; interface_names = codes "wwan1" ∷ [] }

differ : (a b : Text) → (a == b) ≡ false → a ≢ b
differ a b h e = ground (arith, h, e, list_beq_iff a b)

first_modem_named : trim_space first_modem.modem_id ≢ []
unfolding trim_space list_beq
first_modem_named = differ (codes "m1") [] refl

others_own : All (OthersOwn (trim_space first_modem.modem_id)) other_states
unfolding trim_space list_beq
others_own = (
  (differ (codes "m2") [] refl, differ (codes "m2") (codes "m1") refl),
  ((differ (codes "m2") [] refl, differ (codes "m2") (codes "m1") refl), tt),
)

listed : table_ops.default_routes start.kernel ≡ ok start.kernel
unfolding table_ops
listed = refl

restore_stale_states-others_example :
    restore_stale_states table_ops no_store (ok other_states) first_modem start ≡ (start, [])
restore_stale_states-others_example =
    restore_stale_states-others table_ops no_store other_states first_modem start listed
      first_modem_named others_own

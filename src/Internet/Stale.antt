-- ===== src/Internet/Stale.antt =====
-- Restoring the routes that an earlier run saved: restoreStaleDefaultRouteStatesWithStore of
-- internal/pkg/internet/default_route.go. The saved states come as a list in the order of the names.
pub mod Owners
use sigmo.Common.{
  ◌+◌, Bool, true, false, not, ◌&&◌, ◌||◌, List, [], ◌∷◌, ◌++◌, Text, any, ◌==◌, nat_equal,
  list_equal, Result, ok, err, if◌then◌else◌, trim_space,
}
use sigmo.Internet.Route.{DefaultRoute, default_route_exists}
use sigmo.Internet.Plan.{DefaultRouteChange}
use sigmo.Internet.Takeover.{NetError, Errors, RouteOps, RouteStateOps, World, restore_stale_state}

pub record SavedRouteState : Type 0 where
  pub modem_id : Text
  pub preferred : List DefaultRoute
  pub changes : List DefaultRouteChange

pub record RestoreTarget : Type 0 where
  pub modem_id : Text
  pub interface_names : List Text

-- A set of names is the list of those that are not blank.
unfoldable pub interface_set : List Text → List Text
interface_set [] = []
interface_set (text ∷ names) =
    let rest = interface_set names in
    let name = trim_space text in if name == [] then rest else name ∷ rest

unfoldable pub route_state_target_matches : Text → List Text → Text → SavedRouteState → Bool
route_state_target_matches modem_id targets interface entry =
    let owner = trim_space entry.modem_id in
    if not (modem_id == []) && not (owner == [])
    then owner == modem_id
    else any (λ t. t == interface) targets

unfoldable pub route_state_preferred_present : List DefaultRoute → List DefaultRoute → Bool
route_state_preferred_present [] current = false
route_state_preferred_present (route ∷ preferred) current =
    default_route_exists route current || route_state_preferred_present preferred current

-- The trimmed identifier, and the names.
abbrev pub is_scoped : Text → List Text → Bool
is_scoped modem_id [] = not (modem_id == [])
is_scoped modem_id (t ∷ targets) = true

-- Whether the loop passes over an entry.
unfoldable pub passes_over : Text → List Text → List DefaultRoute → Text → SavedRouteState → Bool
passes_over modem_id targets current interface entry =
    if is_scoped modem_id targets
    then not (route_state_target_matches modem_id targets interface entry)
    else route_state_preferred_present entry.preferred current

module _ {K S : Type 0} (ops : RouteOps K) (state : RouteStateOps S) where
  unfoldable pub restore_each :
      Text
      → List Text
      → List DefaultRoute
      → List (Text × SavedRouteState)
      → World K S
      → World K S × Errors
  restore_each modem_id targets current [] w = (w, [])
  restore_each modem_id targets current ((interface, entry) ∷ entries) w =
      let (w₁, e₁) =
        restore_stale_state ops state interface entry.preferred entry.changes current w in
      let skip = restore_each modem_id targets current entries w in
      let (w₂, e₂) = restore_each modem_id targets current entries w₁ in
      if passes_over modem_id targets current interface entry then skip else (w₂, e₁ ++ e₂)

  -- `entries` is what `loadAllRouteStates` answers.
  unfoldable pub restore_stale_states :
      Result NetError (List (Text × SavedRouteState))
      → RestoreTarget
      → World K S
      → World K S × Errors
  unfolding restore_each interface_set
  restore_stale_states (err x) target w = (w, x ∷ [])
  restore_stale_states (ok []) target w = (w, [])
  restore_stale_states (ok (e ∷ entries)) target w = elim (ops.default_routes w.kernel) [
    | err x ↦ (w, x ∷ [])
    | ok current ↦
        restore_each (trim_space target.modem_id) (interface_set target.interface_names) current
          (e ∷ entries) w
  ]

-- ===== src/Internet/Stale/Owners.antt =====
-- Which saved routes the restoring loop of internal/pkg/internet/default_route.go leaves alone.
use sigmo.Common.{
  ◌≡◌, ◌≢◌, refl, true, List, [], ◌∷◌, Text, All, arith, list_beq_iff, nat_equal, list_equal, ok,
  trim_space,
}
use sigmo.Internet.Route.{DefaultRoute}
use sigmo.Internet.Takeover.{RouteOps, RouteStateOps, World}
use sigmo.Internet.Stale.{
  SavedRouteState, RestoreTarget, interface_set, route_state_target_matches, passes_over,
  restore_each, restore_stale_states,
}

-- The entry belongs to a modem, and not to this one.
abbrev pub OthersOwn : Text → Text × SavedRouteState → Type 0
OthersOwn modem_id e = (trim_space (e.1.modem_id) ≢ []) × (trim_space (e.1.modem_id) ≢ modem_id)

passes_over-OthersOwn :
    (modem_id : Text) (targets : List Text) (current : List DefaultRoute) (interface : Text)
    (entry : SavedRouteState)
    → modem_id ≢ []
    → OthersOwn modem_id (interface, entry)
    → passes_over modem_id targets current interface entry ≡ true
unfolding passes_over route_state_target_matches
passes_over-OthersOwn modem_id [] current interface entry named h = ground (
  arith,
  named,
  h.0,
  h.1,
  list_beq_iff modem_id [],
  list_beq_iff (trim_space entry.modem_id) [],
  list_beq_iff (trim_space entry.modem_id) modem_id,
)
passes_over-OthersOwn modem_id (t ∷ targets) current interface entry named h = ground (
  arith,
  named,
  h.0,
  h.1,
  list_beq_iff modem_id [],
  list_beq_iff (trim_space entry.modem_id) [],
  list_beq_iff (trim_space entry.modem_id) modem_id,
)

module _ {K S : Type 0} (ops : RouteOps K) (state : RouteStateOps S) where
  restore_each-others :
      (modem_id : Text) (targets : List Text) (current : List DefaultRoute)
      (entries : List (Text × SavedRouteState)) (w : World K S)
      → modem_id ≢ []
      → All (OthersOwn modem_id) entries
      → restore_each ops state modem_id targets current entries w ≡ (w, [])
  unfolding restore_each
  restore_each-others modem_id targets current [] w named h = refl
  restore_each-others modem_id targets current ((interface, entry) ∷ entries) w named h =
      rw (passes_over-OthersOwn modem_id targets current interface entry named h.0)
        (restore_each-others modem_id targets current entries w named h.1)

  -- Where the routes can be listed, restoring for a named modem changes nothing, and meets no error,
  -- if all the saved states belong to other modems, whatever interfaces are named.
  pub restore_stale_states-others :
      (entries : List (Text × SavedRouteState)) (target : RestoreTarget) (w : World K S)
      {current : List DefaultRoute}
      → ops.default_routes w.kernel ≡ ok current
      → trim_space target.modem_id ≢ []
      → All (OthersOwn (trim_space target.modem_id)) entries
      → restore_stale_states ops state (ok entries) target w ≡ (w, [])
  unfolding restore_stale_states
  restore_stale_states-others [] target w listed named h = refl
  restore_stale_states-others (e ∷ entries) target w {current} listed named h =
      rw (restore_stale_states, listed)
        (restore_each-others (trim_space target.modem_id) (interface_set target.interface_names)
          current (e ∷ entries) w named h)

-- ===== src/Internet/Takeover.antt =====
-- Carrying out and undoing the planned changes: the second half of
-- internal/pkg/internet/default_route.go. The kernel table, reached through internal/pkg/netlink, and
-- the saved state are parameters. An error is the list of what `errors.Join` joins; nil is no error.
pub mod Restore
pub mod Undo
pub mod Saved
use sigmo.Common.{
  ℕ, ◌+◌, Bool, true, false, not, List, [], ◌∷◌, ◌++◌, Text, any, Result, ok, err, if◌then◌else◌,
}
use sigmo.Internet.Route.{DefaultRoute, default_route_exists}
use sigmo.Internet.Plan.{DefaultRouteChange, default_route_changes}

pub data NetError : Type 0 where
  default_route_exists_error : NetError
  failed : ℕ → NetError

abbrev pub Errors : Type 0
Errors = List NetError

abbrev pub is_exists : NetError → Bool
is_exists default_route_exists_error = true
is_exists (failed code) = false

-- `errors.Is(err, netlink.ErrDefaultRouteExists)`
abbrev pub has_exists : Errors → Bool
has_exists = any is_exists

abbrev pub succeeded : Errors → Bool
succeeded [] = true
succeeded (e ∷ es) = false

-- The three functions of `defaultRouteOps`, over the state of the kernel.
pub record RouteOps (K : Type 0) : Type 0 where
  pub default_routes : K → Result NetError (List DefaultRoute)
  pub add_default_route : DefaultRoute → K → K × Errors
  pub delete_default_route : DefaultRoute → K → K × Errors

-- The two functions of `connectionStateStore` that a takeover calls.
pub record RouteStateOps (S : Type 0) : Type 0 where
  pub save_route_state : Text → Text → List DefaultRoute → List DefaultRouteChange → S → S × Errors
  pub delete_route_state : Text → S → S × Errors

-- A kernel and a store.
pub record World (K S : Type 0) : Type 0 where
  pub kernel : K
  pub store : S

module _ {K : Type 0} (ops : RouteOps K) where
  unfoldable pub restore_original : DefaultRoute → K → K × Errors
  restore_original route k =
      let (k', e) = ops.add_default_route route k in
      if has_exists e
      then elim (ops.default_routes k') [
        | err x ↦ (k', e ++ x ∷ [])
        | ok current ↦ if default_route_exists route current then (k', []) else (k', e)
      ]
      else (k', e)

  -- The loop runs from the last change to the first, so it is a recursion that first undoes the rest.
  unfoldable pub restore_default_routes : List DefaultRouteChange → K → K × Errors
  unfolding restore_original
  restore_default_routes [] k = (k, [])
  restore_default_routes (change ∷ changes) k =
      let (k₁, e₁) = restore_default_routes changes k in
      let (k₂, e₂) = restore_original change.original k₁ in
      if succeeded e₂
      then (let (k₃, e₃) = ops.delete_default_route change.replacement k₂ in (k₃, e₁ ++ e₃))
      else (k₂, e₁ ++ e₂)

  -- `deleteDefaultRoutesWithOps`, also from the last route to the first.
  unfoldable pub delete_default_routes : List DefaultRoute → K → K × Errors
  delete_default_routes [] k = (k, [])
  delete_default_routes (route ∷ routes) k =
      let (k₁, e₁) = delete_default_routes routes k in
      let (k₂, e₂) = ops.delete_default_route route k₁ in (k₂, e₁ ++ e₂)

unfoldable pub existing_default_routes : List DefaultRoute → List DefaultRoute → List DefaultRoute
existing_default_routes [] current = []
existing_default_routes (route ∷ routes) current =
    let rest = existing_default_routes routes current in
    if default_route_exists route current then route ∷ rest else rest

module _ {K S : Type 0} (ops : RouteOps K) (state : RouteStateOps S) where
  cleanup_saved : Text → List DefaultRouteChange → World K S → World K S × Errors
  cleanup_saved interface (c ∷ applied) w = (w, [])
  cleanup_saved interface [] w =
      let (s, e) = state.delete_route_state interface w.store in (record w { store = s }, e)

  -- Ending a failed takeover: the saved state goes if nothing was applied.
  give_up :
      Text
      → List DefaultRouteChange
      → Errors
      → World K S
      → World K S × List DefaultRouteChange × Errors
  unfolding cleanup_saved
  give_up interface applied e w =
      let (w', e') = cleanup_saved interface applied w in (w', applied, e ++ e')

  -- The loop of `takeoverDefaultRoutesWithStore`: the world, the changes applied, and the error.
  pub apply_changes :
      Text
      → List DefaultRouteChange
      → List DefaultRouteChange
      → World K S
      → World K S × List DefaultRouteChange × Errors
  unfolding restore_original give_up
  apply_changes interface applied [] w = (w, applied, [])
  apply_changes interface applied (change ∷ changes) w =
      let (k₁, e₁) = ops.delete_default_route change.original w.kernel in
      let (k₂, e₂) = ops.add_default_route change.replacement k₁ in
      let (k₃, e₃) = restore_original ops change.original k₂ in
      let others =
        apply_changes interface (applied ++ change ∷ []) changes (record w { kernel = k₂ }) in
      if not (succeeded e₁)
      then give_up interface applied e₁ (record w { kernel = k₁ })
      else if succeeded e₂
      then others
      else if succeeded e₃
      then give_up interface applied e₂ (record w { kernel = k₃ })
      else (record w { kernel = k₃ }, applied ++ change ∷ [], e₂ ++ e₃)

  -- The changes are saved before the first is applied; without changes nothing is saved.
  take_changes :
      Text
      → Text
      → List DefaultRoute
      → List DefaultRouteChange
      → World K S
      → World K S × List DefaultRouteChange × Errors
  unfolding apply_changes
  take_changes modem_id interface preferred [] w = (w, [], [])
  take_changes modem_id interface preferred (c ∷ cs) w =
      let (s, e) = state.save_route_state modem_id interface preferred (c ∷ cs) w.store in
      if succeeded e
      then apply_changes interface [] (c ∷ cs) (record w { store = s })
      else (record w { store = s }, [], e)

  unfoldable pub takeover_default_routes :
      Text → Text → List DefaultRoute → World K S → World K S × List DefaultRouteChange × Errors
  unfolding take_changes
  takeover_default_routes modem_id interface preferred w = elim (ops.default_routes w.kernel) [
    | err x ↦ (w, [], x ∷ [])
    | ok current ↦
        take_changes modem_id interface preferred (default_route_changes current preferred) w
  ]

  -- `cleanupDefaultRouteChangesWithStore`
  unfoldable pub cleanup_default_route_changes :
      Text → List DefaultRouteChange → World K S → World K S × Errors
  unfolding restore_default_routes
  cleanup_default_route_changes interface [] w = (w, [])
  cleanup_default_route_changes interface (c ∷ cs) w =
      let (k, e) = restore_default_routes ops (c ∷ cs) w.kernel in
      let w' : World K S = record w { kernel = k } in
      if succeeded e
      then (let (s, e') = state.delete_route_state interface w.store in
          (record w' { store = s }, e'))
      else (w', e)

  -- `restoreStaleDefaultRouteStateWithStore`
  unfoldable pub restore_stale_state :
      Text
      → List DefaultRoute
      → List DefaultRouteChange
      → List DefaultRoute
      → World K S
      → World K S × Errors
  unfolding delete_default_routes restore_default_routes existing_default_routes
  restore_stale_state interface preferred changes current w =
      let (k₁, e₁) =
        delete_default_routes ops (existing_default_routes preferred current) w.kernel in
      let (k₂, e₂) = restore_default_routes ops changes k₁ in
      let (s, e₃) = state.delete_route_state interface w.store in
      if not (succeeded e₁)
      then (record w { kernel = k₁ }, e₁)
      else if not (succeeded e₂)
      then (record w { kernel = k₂ }, e₂)
      else (record w { kernel = k₂; store = s }, e₃)

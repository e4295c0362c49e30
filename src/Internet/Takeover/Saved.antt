-- ===== src/Internet/Takeover/Saved.antt =====
-- What a takeover of internal/pkg/internet/default_route.go has saved.
use sigmo.Common.{
  ◌≡◌, ◌≢◌, refl, sym, ◌∙◌, true, List, [], ◌∷◌, ◌++◌, Text, arith, Result-cases, append_assoc,
  append-nil, Bool-cases, inl, inr,
}
use sigmo.Internet.Route.{DefaultRoute}
use sigmo.Internet.Plan.{DefaultRouteChange, default_route_changes}
use sigmo.Internet.Takeover.{
  Errors, succeeded, RouteOps, RouteStateOps, World, apply_changes, take_changes,
  takeover_default_routes,
}
use sigmo.Internet.Takeover.Undo.{apply_cons}

module _ {K S : Type 0} (ops : RouteOps K) (state : RouteStateOps S) (interface : Text) where
  -- A loop that succeeds applies every change, and leaves the store as it is.
  apply_all :
      (applied cs : List DefaultRouteChange) (w : World K S)
      → let r = apply_changes ops state interface applied cs w in
        succeeded r.2 ≡ true → (r.1 ≡ applied ++ cs) × (r.0.store ≡ w.store)
  apply_all applied [] w h = unfold apply_changes in (sym (append-nil applied), refl)
  apply_all applied (c ∷ cs) w h =
      let (gone, added, step) = apply_cons ops state interface applied c cs w h in
      let k₁ : K = (ops.delete_default_route c.original w.kernel).0 in
      let k₂ : K = (ops.add_default_route c.replacement k₁).0 in
      let rest = apply_all (applied ++ c ∷ []) cs (record w { kernel = k₂ }) (rw step at h) in
      rw step (rest.0 ∙ append_assoc applied (c ∷ []) cs, rest.1)

  -- With a change to make, the changes that are made are those that were saved.
  take_saved :
      (modem_id : Text) (preferred : List DefaultRoute) (cs : List DefaultRouteChange)
      (w : World K S)
      → let r = take_changes ops state modem_id interface preferred cs w in
        let s = state.save_route_state modem_id interface preferred cs w.store in
        succeeded r.2 ≡ true → r.1 ≢ [] → (succeeded s.1 ≡ true) × (r.1 ≡ cs) × (r.0.store ≡ s.0)
  take_saved modem_id preferred [] w h some' = unfold take_changes in absurd (some' refl)
  take_saved modem_id preferred (c ∷ cs) w h some' =
      let s : S × Errors = state.save_route_state modem_id interface preferred (c ∷ cs) w.store in
      let w' : World K S = record w { store = s.0 } in
      elim (Bool-cases (succeeded s.1)) [
        | inl saved ↦
            unfold take_changes in
            let (all_applied, kept) = apply_all [] (c ∷ cs) w' (rw saved at h) in
            rw saved (refl, all_applied, kept)
        | inr not_saved ↦ unfold take_changes in absurd (ground (arith, not_saved))
      ]

  pub takeover_saved :
      (modem_id : Text) (preferred : List DefaultRoute) (w : World K S)
      → let r = takeover_default_routes ops state modem_id interface preferred w in
        let s = state.save_route_state modem_id interface preferred r.1 w.store in
        succeeded r.2 ≡ true → r.1 ≢ [] → (succeeded s.1 ≡ true) × (r.0.store ≡ s.0)
  unfolding takeover_default_routes
  takeover_saved modem_id preferred w h some' = elim (Result-cases (ops.default_routes w.kernel)) [
    | inr (x, broken) ↦ absurd (ground (arith, broken))
    | inl (current, listed) ↦
        let cs : List DefaultRouteChange = default_route_changes current preferred in
        let eq : takeover_default_routes ops state modem_id interface preferred w
            ≡ take_changes ops state modem_id interface preferred cs w =
          rw (listed, takeover_default_routes) refl in
        let (saved, all_taken, kept) =
          take_saved modem_id preferred cs w (rw eq at h) (rw eq at some') in
        rw (eq, all_taken) (saved, kept)
  ]

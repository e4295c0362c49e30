-- ===== src/Internet/Takeover/Undo.antt =====
-- A takeover in internal/pkg/internet/default_route.go, carried out and then undone.
use sigmo.Common.{
  ℕ, ◌+◌, ◌≤◌, ◌≡◌, refl, sym, ap, ◌∙◌, true, List, [], ◌∷◌, ◌++◌, Text, arith, Result-cases,
  append_assoc, append-nil, Bool-cases, inl, inr,
}
use sigmo.Internet.Route.{DefaultRoute}
use sigmo.Internet.Route.Count.{count}
use sigmo.Internet.Plan.{DefaultRouteChange, default_route_changes}
use sigmo.Internet.Plan.Wins.{originals, replacements}
use sigmo.Internet.Plan.Clash.{Feasible, default_route_changes-Feasible}
use sigmo.Internet.Takeover.{
  Errors, succeeded, RouteOps, RouteStateOps, World, restore_original, restore_default_routes,
  give_up, apply_changes, take_changes, takeover_default_routes,
}
use sigmo.Internet.Takeover.Restore.{
  KernelLaws, succeeded-append, Counts, After, changed, Feasible-changed, restore-Counts,
}

module _ {K S : Type 0} (ops : RouteOps K) (state : RouteStateOps S) (interface : Text) where
  give_up_fails :
      (applied : List DefaultRouteChange) (e : Errors) (w : World K S)
      → succeeded (give_up ops state interface applied e w).2 ≡ true
      → succeeded e ≡ true
  unfolding give_up
  give_up_fails applied e w h = (succeeded-append e _ h).0

  -- A successful round of the applying loop: the original deleted, the replacement added.
  pub apply_cons :
      (applied : List DefaultRouteChange) (c : DefaultRouteChange) (cs : List DefaultRouteChange)
      (w : World K S)
      → succeeded (apply_changes ops state interface applied (c ∷ cs) w).2 ≡ true
      → let k₁ = (ops.delete_default_route c.original w.kernel).0 in
        let k₂ = (ops.add_default_route c.replacement k₁).0 in
        (succeeded (ops.delete_default_route c.original w.kernel).1 ≡ true)
        × (succeeded (ops.add_default_route c.replacement k₁).1 ≡ true)
        × (apply_changes ops state interface applied (c ∷ cs) w
            ≡ apply_changes ops state interface (applied ++ c ∷ []) cs (record w { kernel = k₂ }))
  unfolding apply_changes
  apply_cons applied c cs w h =
      let d : K × Errors = ops.delete_default_route c.original w.kernel in
      let a : K × Errors = ops.add_default_route c.replacement d.0 in
      let r : K × Errors = restore_original ops c.original a.0 in
      elim (Bool-cases (succeeded d.1)) [
        | inr kept' ↦
            absurd (
              ground (arith, give_up_fails applied d.1 (record w { kernel = d.0 }) (rw kept' at h)))
        | inl gone ↦ elim (Bool-cases (succeeded a.1)) [
          | inl added ↦ (gone, added, rw (gone, added) refl)
          | inr not_added ↦ absurd (elim (Bool-cases (succeeded r.1)) [
            | inl back ↦ ground (
              arith,
              not_added,
              give_up_fails applied a.1 (record w { kernel = r.0 })
                  (rw (gone, not_added, back) at h),
            )
            | inr lost ↦
                ground
                  (arith, not_added, (succeeded-append a.1 r.1 (rw (gone, not_added, lost) at h)).0)
          ])
        ]
      ]

  module _ (laws : KernelLaws ops) where
    open laws use {table, lists, adds, deletes}

    -- Every change is applied, and the counts are those of the plan.
    apply-After :
        (applied cs : List DefaultRouteChange) (w : World K S) (f : DefaultRoute → ℕ)
        → Feasible cs f
        → Counts ops laws w.kernel f
        → let r = apply_changes ops state interface applied cs w in
          succeeded r.2 ≡ true → (r.1 ≡ applied ++ cs) × After ops laws r.0.kernel f cs
    apply-After applied [] w f ok' counts h =
        unfold apply_changes in (sym (append-nil applied), λ x. omega (arith, counts x))
    apply-After applied (c ∷ cs) w f ok' counts h =
        let (gone, added, step) = apply_cons applied c cs w h in
        let k₁ : K = (ops.delete_default_route c.original w.kernel).0 in
        let k₂ : K = (ops.add_default_route c.replacement k₁).0 in
        let w₂ : World K S = record w { kernel = k₂ } in
        let (all_applied, after) =
          apply-After (applied ++ c ∷ []) cs w₂ (changed ops laws c f)
            (Feasible-changed ops laws c cs f ok')
            (λ x.
              omega (
                arith,
                adds c.replacement k₁ x added,
                deletes c.original w.kernel x gone,
                counts x,
              ))
            (rw step at h) in
        rw step
          (all_applied ∙ append_assoc applied (c ∷ []) cs, λ x. omega (arith, after x, ok'.taken x))

    take_changes-After :
        (modem_id : Text) (preferred : List DefaultRoute) (cs : List DefaultRouteChange)
        (w : World K S) (f : DefaultRoute → ℕ)
        → Feasible cs f
        → Counts ops laws w.kernel f
        → let r = take_changes ops state modem_id interface preferred cs w in
          succeeded r.2 ≡ true → (r.1 ≡ cs) × After ops laws r.0.kernel f cs
    take_changes-After modem_id preferred [] w f ok' counts h =
        unfold take_changes in (refl, λ x. omega (arith, counts x))
    take_changes-After modem_id preferred (c ∷ cs) w f ok' counts h =
        let s : S × Errors = state.save_route_state modem_id interface preferred (c ∷ cs) w.store in
        let w' : World K S = record w { store = s.0 } in
        elim (Bool-cases (succeeded s.1)) [
          | inl saved ↦
              unfold take_changes in
              rw saved (apply-After [] (c ∷ cs) w' f ok' counts (rw saved at h))
          | inr not_saved ↦ unfold take_changes in absurd (ground (arith, not_saved))
        ]

    Planned : World K S → List DefaultRoute → World K S × List DefaultRouteChange × Errors → Type 0
    Planned w preferred r =
        (r.1 ≡ default_route_changes (table w.kernel) preferred)
        × Feasible r.1 (λ x. count x (table w.kernel))
        × After ops laws r.0.kernel (λ x. count x (table w.kernel)) r.1

    takeover-Planned :
        (modem_id : Text) (preferred : List DefaultRoute) (w : World K S)
        → ((x : DefaultRoute) → count x (table w.kernel) ≤ 1)
        → let r = takeover_default_routes ops state modem_id interface preferred w in
          succeeded r.2 ≡ true → Planned w preferred r
    unfolding takeover_default_routes Planned
    takeover-Planned modem_id preferred w once h =
        elim (Result-cases (ops.default_routes w.kernel)) [
          | inr (x, broken) ↦ absurd (ground (arith, broken))
          | inl (current, listed) ↦
              let cs : List DefaultRouteChange = default_route_changes (table w.kernel) preferred in
              let planned = default_route_changes-Feasible (table w.kernel) preferred once in
              let taken = take_changes ops state modem_id interface preferred cs w in
              let eq : takeover_default_routes ops state modem_id interface preferred w ≡ taken =
                rw (listed, takeover_default_routes)
                  (ap
                    (λ rs.
                      take_changes ops state modem_id interface preferred
                        (default_route_changes rs preferred) w)
                    (lists w.kernel listed)) in
              let (all_taken, after) =
                take_changes-After modem_id preferred cs w (λ x. count x (table w.kernel)) planned
                  (λ x. refl) (rw eq at h) in
              rw eq (all_taken, rw all_taken planned, rw all_taken after)
        ]

    -- If the kernel keeps its promises and holds no route twice, then a takeover that succeeds carries
    -- out exactly the planned changes: the table gains the replacements and loses the originals.
    pub takeover-counts :
        (modem_id : Text) (preferred : List DefaultRoute) (w : World K S)
        → ((x : DefaultRoute) → count x (table w.kernel) ≤ 1)
        → succeeded (takeover_default_routes ops state modem_id interface preferred w).2 ≡ true
        → let r = takeover_default_routes ops state modem_id interface preferred w in
          (r.1 ≡ default_route_changes (table w.kernel) preferred)
          × ((x : DefaultRoute)
              → count x (table r.0.kernel) + count x (originals r.1)
                ≡ count x (table w.kernel) + count x (replacements r.1))
    unfolding Planned
    takeover-counts modem_id preferred w once h =
        let p = takeover-Planned modem_id preferred w once h in (p.0, p.2)

    -- If the kernel keeps its promises and holds no route twice, then undoing the changes of a takeover
    -- that succeeded, where that succeeds too, gives back the table of before, each route as often.
    pub restore-takeover :
        (modem_id : Text) (preferred : List DefaultRoute) (w : World K S) (x : DefaultRoute)
        → ((y : DefaultRoute) → count y (table w.kernel) ≤ 1)
        → succeeded (takeover_default_routes ops state modem_id interface preferred w).2 ≡ true
        → succeeded
            (restore_default_routes ops
              (takeover_default_routes ops state modem_id interface preferred w).1
              (takeover_default_routes ops state modem_id interface preferred w).0.kernel).1
          ≡ true
        → let r = takeover_default_routes ops state modem_id interface preferred w in
          count x (table (restore_default_routes ops r.1 r.0.kernel).0) ≡ count x (table w.kernel)
    unfolding Planned
    restore-takeover modem_id preferred w x once h h' =
        let r = takeover_default_routes ops state modem_id interface preferred w in
        let p = takeover-Planned modem_id preferred w once h in
        restore-Counts ops laws r.1 r.0.kernel (λ y. count y (table w.kernel)) p.1 p.2 h' x

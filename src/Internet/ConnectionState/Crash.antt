-- ===== src/Internet/ConnectionState/Crash.antt =====
-- A takeover of internal/pkg/internet/default_route.go on the state of
-- internal/pkg/internet/connection_state.go: what a later run of the program finds.
use sigmo.Common.{
  ℕ, ◌≡◌, ◌≢◌, refl, ap, ◌∙◌, true, List, [], some, Text, arith, nat_equal, list_equal, ==_refl, ok,
  err, inl, inr, ◌⊎◌, trim_space,
}
use mathlib.Core.Path.{subst}
use sigmo.Internet.Route.{DefaultRoute}
use sigmo.Internet.Plan.{DefaultRouteChange}
use sigmo.Internet.Takeover.{succeeded, RouteOps, RouteStateOps, World, takeover_default_routes}
use sigmo.Internet.Takeover.Saved.{takeover_saved}
use sigmo.Internet.RouteState.RoundTrip.{AddrTextLaws, AreRoutes, AreChanges}
use sigmo.Internet.RouteState.{AddrText, RawRouteState}
use sigmo.Internet.ConnectionState.{
  StateError, Saved, store_failed, route_state_ops, state_errors, load_route_state_for_modem,
  save_route_state_for_modem, route_state,
}
use sigmo.Internet.ConnectionState.Routes.{
  RouteMap, Assigned, RouteStep, save_call, saves, view, run-RouteStep, read_slot, found_slot,
  entry_of,
}
use sigmo.Storage.{Database, Codec, read_value}
use sigmo.Storage.Cells.{DatabaseLaws, CodecLaws}

module _ {K D : Type 0} (ops : RouteOps K) (db : Database D) (laws : DatabaseLaws db)
    (addr : AddrText) (shown : AddrTextLaws addr) (route_json : Codec RawRouteState)
    (coded : CodecLaws route_json) where
  abbrev state : RouteStateOps D
  state = route_state_ops db addr route_json

  saved_none : (r : Saved) → succeeded (state_errors r) ≡ true → r ≡ ok tt
  saved_none (ok u) h = refl
  saved_none (err e) h = cc

  -- A step that answers that it saved is the one that saves.
  saves_inverse :
      {s s' : RouteMap} (m i : Text) (p : List DefaultRoute) (c : List DefaultRouteChange)
      → RouteStep s (save_call m i p c) (ok tt) s'
      → Assigned i (some (ok (entry_of m p c))) s s'
  saves_inverse m i p c (saves _ _ _ _ e h a) = a

  -- Loading an entry of one's own.
  load_own :
      (m i : Text) (p : List DefaultRoute) (c : List DefaultRouteChange) (d : D)
      → route_state db addr route_json i d ≡ ok (some (entry_of m p c))
      → load_route_state_for_modem db addr route_json m i d ≡ ok (some c)
  unfolding load_route_state_for_modem
  load_own m i p c d e = rw e (ap ok (ground (arith, ==_refl (trim_space m))))

  load_fails :
      (m i : Text) (d : D) (e : StateError)
      → route_state db addr route_json i d ≡ err e
      → load_route_state_for_modem db addr route_json m i d ≡ err e
  unfolding load_route_state_for_modem
  load_fails m i d e h = rw h refl

  load-save :
      (m i : Text) (p : List DefaultRoute) (c : List DefaultRouteChange) (d : D)
      → AreRoutes p
      → AreChanges c
      → succeeded (state.save_route_state m i p c d).1 ≡ true
      → let d' = (state.save_route_state m i p c d).0 in
        (load_route_state_for_modem db addr route_json m i d' ≡ ok (some c))
        ⊎ ((n : ℕ) × (load_route_state_for_modem db addr route_json m i d'
              ≡ err (store_failed (read_value n))))
  unfolding route_state_ops
  load-save m i p c d hp hc h =
      let r : D × Saved = save_route_state_for_modem db addr route_json m i p c d in
      let done : r.1 ≡ ok tt = saved_none r.1 h in
      let step : RouteStep (view db laws addr shown route_json coded d) (save_call m i p c) (ok tt)
          (view db laws addr shown route_json coded r.0) =
        subst
          (λ o.
            RouteStep (view db laws addr shown route_json coded d) (save_call m i p c) o
              (view db laws addr shown route_json coded r.0))
          done (run-RouteStep db laws addr shown route_json coded (save_call m i p c) d (hp, hc)) in
      let slot : view db laws addr shown route_json coded r.0 i ≡ some (ok (entry_of m p c)) =
        saves_inverse m i p c step i ∙ rw (==_refl (trim_space i)) refl in
      elim (read_slot db laws addr shown route_json coded i r.0) [
        | inl e ↦
            inl
              (load_own m i p c r.0 (e ∙ ap (found_slot db laws addr shown route_json coded) slot))
        | inr (n, e) ↦ inr (n, load_fails m i r.0 _ e)
      ]

  -- If the gateways and sources of the routes are addresses or not set, then a takeover that succeeds
  -- with a change at all is found by a later run: loading the state of its modem and interface answers
  -- the changes that were made, or fails because the store cannot be read.
  pub load-takeover :
      (m i : Text) (preferred : List DefaultRoute) (w : World K D)
      → succeeded (takeover_default_routes ops state m i preferred w).2 ≡ true
      → (takeover_default_routes ops state m i preferred w).1 ≢ []
      → AreRoutes preferred
      → AreChanges (takeover_default_routes ops state m i preferred w).1
      → let r = takeover_default_routes ops state m i preferred w in
        (load_route_state_for_modem db addr route_json m i r.0.store ≡ ok (some r.1))
        ⊎ ((n : ℕ) × (load_route_state_for_modem db addr route_json m i r.0.store
              ≡ err (store_failed (read_value n))))
  load-takeover m i preferred w h some' hp hc =
      let r = takeover_default_routes ops state m i preferred w in
      let (saved, kept) = takeover_saved ops state i m preferred w h some' in
      rw kept (load-save m i preferred r.1 w.store hp hc saved)

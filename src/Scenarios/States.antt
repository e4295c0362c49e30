-- ===== src/Scenarios/States.antt =====
-- Runs of internal/pkg/internet/connection_state.go and internal/pkg/storage/app_state.go on a list of rows.
use sigmo.Common.{
  ℕ, ◌-◌, ◌≡◌, ◌≢◌, refl, sym, true, false, ◌||◌, List, [], ◌∷◌, Option, none, some, Text, codes,
  arith, ◌==◌, nat_equal, list_equal, list_beq_iff, Result, ok, err, list_beq, Bool-cases, inl, inr,
  ◌⊎◌, lookup, insert, delete, trim_space, is_space, has_prefix,
}
use sigmo.Internet.Route.{DefaultRoute}
use sigmo.Internet.Plan.{DefaultRouteChange, default_route_changes}
use sigmo.Internet.Takeover.{Errors, World, takeover_default_routes, succeeded}
use sigmo.Internet.RouteState.{RouteStateEntry, route_entry_codec}
use sigmo.Internet.RouteState.RoundTrip.{AreRoutes, AreChanges, IsRoute, unmarshal-marshal_entry}
use sigmo.Internet.ConnectionState.{
  Saved, interface_scope, save_proxy_state_for_modem, load_route_state_for_modem, route_state_ops,
  store_failed,
}
use sigmo.Internet.ConnectionState.Routes.{
  RouteMap, RouteStep, RouteCall, save_call, run, view, run-RouteStep,
}
use sigmo.Internet.ConnectionState.Crash.{load-takeover}
use sigmo.Internet.ConnectionState.Proxies.{text_of, owner, Tidy}
use sigmo.Internet.ConnectionState.Proxies.Taking.{save_proxy-owner}
use sigmo.Storage.{put, get, read_value}
use sigmo.Scenarios.Tables.{Rows, rows_database, rows_laws}
use sigmo.Internet.Profile.{Preferences}
use sigmo.Internet.AlwaysOn.{load_always_on_state_for_profile, sync_always_on_state}
use sigmo.Internet.AlwaysOn.Syncing.{kept, load-sync_always_on_state}
use sigmo.Scenarios.Formats.{
  preferences_codec, preferences_laws, raw_codec, raw_laws, proxy_codec, proxy_laws, marked,
  marked_laws,
}
use sigmo.Scenarios.Routes.{cable, wwan, modems, table_ops}

-- The modem's proxy is on wwan0, and is to move to wwan1.
abbrev one_proxy : Rows
one_proxy = ((codes "interface:wwan0", codes "internet.proxy"), codes "modem-1") ∷ []

one_proxy-Tidy : Tidy rows_database rows_laws proxy_codec proxy_laws one_proxy
unfolding rows_laws
one_proxy-Tidy s v h = elim (Bool-cases (codes "interface:wwan0" == s)) [
  | inl e ↦ (
    codes "wwan0",
    unfold interface_scope trim_space is_space in
        sym ((list_beq_iff (codes "interface:wwan0") s).0 e),
  )
  | inr e ↦ absurd (unfold lookup in ground (arith, e, h))
]

abbrev taken : Rows
taken =
    (save_proxy_state_for_modem rows_database proxy_codec (codes "modem-1") (codes "wwan1")
      one_proxy).0

abbrev owner_after : Rows → Text → Option Text
owner_after d n = owner rows_database rows_laws proxy_codec proxy_laws d n

named : (trim_space (codes "modem-1") == []) ≡ false
unfolding trim_space is_space list_beq
named = refl

takes :
    (save_proxy_state_for_modem rows_database proxy_codec
      (codes "modem-1")
      (codes "wwan1")
      one_proxy).1
    ≡ ok tt
unfolding list_beq trim_space save_proxy_state_for_modem sigmo.Internet.ConnectionState.take_proxy
    sigmo.Internet.ConnectionState.proxy_state get interface_scope sigmo.Storage.read_row
    rows_database lookup sigmo.Internet.ConnectionState.take_interface
    sigmo.Internet.ConnectionState.proxy_interfaces_for_modem sigmo.Storage.list_raw
    sigmo.Internet.ConnectionState.owned_interfaces has_prefix
    sigmo.Internet.ConnectionState.add_owned proxy_codec delete insert is_space
    sigmo.Common.trim_left sigmo.Internet.ConnectionState.delete_others
    sigmo.Internet.ConnectionState.delete_proxy_state sigmo.Internet.ConnectionState.put_proxy
    sigmo.Internet.ConnectionState.sort sigmo.Internet.ConnectionState.sort_insert
    sigmo.Internet.ConnectionState.text_le sigmo.Internet.ConnectionState.trim_prefix
    sigmo.Scenarios.Tables.add_row sigmo.Scenarios.Tables.rows_of sigmo.Storage.delete_row put
    sigmo.Storage.write_row
takes = refl

save_proxy-owner_example :
    (((text_of (owner_after one_proxy (codes "wwan1")) == [])
        || (text_of (owner_after one_proxy (codes "wwan1")) == trim_space (codes "modem-1")))
      ≡ true)
    × (owner_after taken (codes "wwan0") ≡ none)
unfolding list_beq trim_space rows_laws lookup interface_scope proxy_codec
save_proxy-owner_example =
    save_proxy-owner rows_database rows_laws proxy_codec proxy_laws (codes "modem-1")
      (codes "wwan1") (codes "wwan0") one_proxy one_proxy-Tidy named takes

abbrev entry : RouteStateEntry
entry = record { modem = codes "modem-1"; preferred = modems; changes = [] }

abbrev text_written : Result ℕ Text → Text
text_written (ok t) = t
text_written (err e) = []

abbrev entry_text : Text
entry_text = text_written ((route_entry_codec marked raw_codec).marshal entry)

entry_written : (route_entry_codec marked raw_codec).marshal entry ≡ ok entry_text
unfolding route_entry_codec raw_codec
entry_written = refl

abbrev save_modem : RouteCall
save_modem = save_call (codes "modem-1") (codes "wwan0") modems []

abbrev route_view : Rows → RouteMap
route_view = view rows_database rows_laws marked marked_laws raw_codec raw_laws

abbrev route_run : Rows → Rows × Saved
route_run = run rows_database rows_laws marked marked_laws raw_codec raw_laws save_modem

-- The cable's route and the modem's, with no state saved.
abbrev beside : World (List DefaultRoute) Rows
beside = record { kernel = wwan ∷ cable ∷ []; store = [] }

abbrev taken_over : World (List DefaultRoute) Rows × List DefaultRouteChange × Errors
taken_over =
    takeover_default_routes table_ops (route_state_ops rows_database marked raw_codec)
      (codes "modem-1") (codes "wwan0") modems beside

takeover_done : succeeded taken_over.2 ≡ true
unfolding default_route_changes takeover_default_routes sigmo.Internet.Route.default_route_exists
    table_ops sigmo.Internet.Route.same_default_route list_beq sigmo.Internet.Plan.preferred_metric
    route_state_ops sigmo.Internet.ConnectionState.save_route_state_for_modem trim_space
    sigmo.Internet.ConnectionState.save_read sigmo.Internet.ConnectionState.route_state get
    interface_scope sigmo.Storage.read_row rows_database lookup
    sigmo.Internet.ConnectionState.put_route_state_for_modem put delete insert is_space
    sigmo.Common.trim_left sigmo.Internet.Plan.fallback_metric sigmo.Internet.Plan.keeps_place
    sigmo.Internet.Plan.route_metric_exists sigmo.Internet.Route.route_protocol
    sigmo.Internet.RouteState.raw_from_entry route_entry_codec raw_codec
    sigmo.Internet.RouteState.route_state_changes
    sigmo.Internet.RouteState.route_state_route_from_default
    sigmo.Internet.RouteState.route_state_routes sigmo.Internet.RouteState.shown
    sigmo.Storage.write_row
takeover_done = refl

something : taken_over.1 ≢ []
unfolding default_route_changes takeover_default_routes sigmo.Internet.Route.default_route_exists
    table_ops sigmo.Internet.Route.same_default_route list_beq sigmo.Internet.Plan.preferred_metric
    route_state_ops sigmo.Internet.ConnectionState.save_route_state_for_modem trim_space
    sigmo.Internet.ConnectionState.save_read sigmo.Internet.ConnectionState.route_state get
    interface_scope sigmo.Storage.read_row rows_database lookup
    sigmo.Internet.ConnectionState.put_route_state_for_modem put delete insert is_space
    sigmo.Common.trim_left sigmo.Internet.Plan.fallback_metric sigmo.Internet.Plan.keeps_place
    sigmo.Internet.Plan.route_metric_exists sigmo.Internet.Route.route_protocol
    sigmo.Internet.RouteState.raw_from_entry route_entry_codec raw_codec
    sigmo.Internet.RouteState.route_state_changes
    sigmo.Internet.RouteState.route_state_route_from_default
    sigmo.Internet.RouteState.route_state_routes sigmo.Internet.RouteState.shown
    sigmo.Storage.write_row
something h = cc

gateway_sound : IsRoute cable
gateway_sound =
    (inr (inl refl, (omega arith, (omega arith, (omega arith, (omega arith, tt))))), inl refl)

changes_sound : AreChanges taken_over.1
unfolding default_route_changes takeover_default_routes sigmo.Internet.Route.default_route_exists
    table_ops sigmo.Internet.Route.same_default_route list_beq sigmo.Internet.Plan.preferred_metric
    route_state_ops sigmo.Internet.ConnectionState.save_route_state_for_modem trim_space
    sigmo.Internet.ConnectionState.save_read sigmo.Internet.ConnectionState.route_state get
    interface_scope sigmo.Storage.read_row rows_database lookup
    sigmo.Internet.ConnectionState.put_route_state_for_modem put delete insert is_space
    sigmo.Common.trim_left sigmo.Internet.Plan.fallback_metric sigmo.Internet.Plan.keeps_place
    sigmo.Internet.Plan.route_metric_exists sigmo.Internet.Route.route_protocol
    sigmo.Internet.RouteState.raw_from_entry route_entry_codec raw_codec
    sigmo.Internet.RouteState.route_state_changes
    sigmo.Internet.RouteState.route_state_route_from_default
    sigmo.Internet.RouteState.route_state_routes sigmo.Internet.RouteState.shown
    sigmo.Storage.write_row
changes_sound = ((gateway_sound, gateway_sound), tt)

modems_sound : AreRoutes modems
modems_sound =
    ((inr (inl refl, (omega arith, (omega arith, (omega arith, (omega arith, tt))))), inl refl), tt)

unmarshal-marshal_entry_example :
    (route_entry_codec marked raw_codec).unmarshal entry_text ≡ ok entry
unmarshal-marshal_entry_example =
    unmarshal-marshal_entry marked marked_laws raw_codec raw_laws entry entry_text modems_sound tt
      entry_written

-- A save on a table without entries.
run-RouteStep_example :
    RouteStep (route_view []) save_modem (route_run []).1 (route_view (route_run []).0)
run-RouteStep_example =
    run-RouteStep rows_database rows_laws marked marked_laws raw_codec raw_laws save_modem []
      (modems_sound, tt)

load-takeover_example :
    (load_route_state_for_modem rows_database marked raw_codec
        (codes "modem-1")
        (codes "wwan0")
        taken_over.0.store
      ≡ ok (some taken_over.1))
    ⊎ ((n : ℕ) × (load_route_state_for_modem rows_database marked raw_codec
            (codes "modem-1")
            (codes "wwan0")
            taken_over.0.store
          ≡ err (store_failed (read_value n))))
load-takeover_example =
    load-takeover table_ops rows_database rows_laws marked marked_laws raw_codec raw_laws
      (codes "modem-1") (codes "wwan0") modems beside takeover_done something modems_sound
      changes_sound

abbrev wanted : Preferences
wanted = record {
  apn = codes "internet";
  ip_type = [];
  apn_username = [];
  apn_password = [];
  apn_auth = [];
  default_route = true;
  proxy_enabled = false;
  always_on = true;
}

abbrev wanted_rows : Rows
wanted_rows =
    (sync_always_on_state rows_database preferences_codec (codes "8949 ") wanted one_proxy).0

load-sync_always_on_state_example :
    (load_always_on_state_for_profile rows_database preferences_codec (codes "8949 ") wanted_rows
      ≡ ok (kept true wanted))
    ⊎ ((n : ℕ) × (load_always_on_state_for_profile rows_database preferences_codec
            (codes "8949 ")
            wanted_rows
          ≡ err (sigmo.Internet.AlwaysOn.store_failed (read_value n))))
unfolding sync_always_on_state put rows_database list_beq trim_space is_space
    sigmo.Storage.write_row preferences_codec sigmo.Internet.AlwaysOn.profile_scope
load-sync_always_on_state_example =
    load-sync_always_on_state rows_database rows_laws preferences_codec preferences_laws
      (codes "8949 ") wanted one_proxy refl

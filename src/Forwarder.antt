-- ===== src/Forwarder.antt =====
-- internal/app/forwarder/relay.go: the relay of messages and calls. A path and an equipment identifier
-- are text. The contexts that `addModem` makes are numbered, and `cancelled` lists those whose
-- `cancel` was called. Times are nanoseconds and the zero `time.Time` is `none`.
pub mod Subscriptions
pub mod Contexts
pub mod Notices
use sigmo.Common.{
  ℕ, suc, ◌+◌, Bool, List, [], ◌∷◌, ◌++◌, Option, none, some, Text, ◌==◌, nat_equal, list_equal,
  if◌then◌else◌, Assoc, lookup, insert, delete,
}

pub record Relay : Type 0 where
  pub cancels : Assoc Text ℕ
  pub equipment : Assoc Text Text
  pub modems : Assoc Text Text
  pub notified_calls : Assoc Text (Unit {0})
  pub contexts : ℕ
  pub cancelled : List ℕ

unfoldable pub new_relay : Relay
new_relay = record {
  cancels = [];
  equipment = [];
  modems = [];
  notified_calls = [];
  contexts = 0;
  cancelled = [];
}

-- A `cancel` that may be nil is called.
abbrev pub call_cancel : Option ℕ → List ℕ → List ℕ
call_cancel none cancelled = cancelled
call_cancel (some c) cancelled = c ∷ cancelled

-- The equipment was known under another path, which is dropped.
abbrev pub forget_path : Text → Text → Relay → Relay
forget_path existing id r = record r {
  cancels = delete existing r.cancels;
  modems = delete existing r.modems;
  equipment = delete id r.equipment;
  cancelled = call_cancel (lookup existing r.cancels) r.cancelled;
}

unfoldable pub drop_old : Text → Text → Relay → Relay
drop_old path id r = if id == [] then r else elim (lookup id r.equipment) [
  | none ↦ r
  | some existing ↦ if existing == path then r else forget_path existing id r
]

-- A new context for the path. The equipment is noted if it is named.
unfoldable pub start_path : Text → Text → Relay → Relay
start_path path id r = record r {
  cancels = insert path r.contexts r.cancels;
  equipment = if id == [] then r.equipment else insert id path r.equipment;
  modems = if id == [] then r.modems else insert path id r.modems;
  contexts = suc r.contexts;
}

-- `done` is that the parent context has ended. What the goroutine does when its subscription ends is
-- `remove_modem`.
unfoldable pub add_modem : Bool → Text → Text → Relay → Relay
add_modem done path id r =
    if done
    then r
    else let r' : Relay = drop_old path id r in
      elim (lookup path r'.cancels) [ some c ↦ r' | none ↦ start_path path id r' ]

unfoldable pub remove_modem : Text → Relay → Relay
remove_modem path r =
    let r' : Relay = record r {
      cancels = delete path r.cancels;
      cancelled = call_cancel (lookup path r.cancels) r.cancelled;
    } in
    elim (lookup path r.modems) [
      | none ↦ r'
      | some id ↦ record r' { modems = delete path r.modems; equipment = delete id r.equipment }
    ]

abbrev pub values : Assoc Text ℕ → List ℕ
values [] = []
values ((k, v) ∷ m) = v ∷ values m

unfoldable pub stop_all : Relay → Relay
stop_all r = record r {
  cancels = [];
  equipment = [];
  modems = [];
  cancelled = values r.cancels ++ r.cancelled;
}

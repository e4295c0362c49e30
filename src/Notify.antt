-- ===== src/Notify.antt =====
-- internal/pkg/notify/notify.go: which channels an event is sent to. The clients of the channels are
-- arguments: which of them can be made, and which of them accept the event. Channels are sent to at
-- the same time, so the sorting of the targets is left out; a warning on an unknown channel is a log.
use sigmo.Common.{
  Bool, true, false, List, [], ◌∷◌, Option, none, some, Text, any, ◌==◌, nat_equal, list_equal,
  if◌then◌else◌, map,
}
use sigmo.Common.{to_lower}

-- The names of the channels that there is a client for, and which clients accept the event.
pub record Notifier : Type 0 where
  pub channels : List Text
  pub accepts : Text → Bool

abbrev pub is_one_of : Text → List Text → Bool
is_one_of name = any (λ t. t == name)

-- A Go map holds a name once.
abbrev pub with_name : Text → List Text → List Text
with_name name names = if is_one_of name names then names else name ∷ names

-- One round of the loop of `New`: an enabled channel gets a client, or there is no notifier.
abbrev pub add_client : Bool → Bool → Text → Option (List Text) → Option (List Text)
add_client false created name rest = rest
add_client true false name rest = none
add_client true true name none = none
add_client true true name (some names) = some (with_name name names)

-- The settings' channels are names, and whether they are enabled. `createSender` answers `creates`.
unfoldable pub new_channels : (Text → Bool) → List (Text × Bool) → Option (List Text)
new_channels creates [] = some []
new_channels creates ((name, enabled) ∷ channels) =
    add_client enabled (creates (to_lower name)) (to_lower name) (new_channels creates channels)

-- The named channels that there is a client for.
unfoldable pub known_targets : List Text → List Text → List Text
known_targets known [] = []
known_targets known (name ∷ names) =
    let rest = known_targets known names in
    if is_one_of (to_lower name) known then to_lower name ∷ rest else rest

-- Without names, all of them.
unfoldable pub targets : List Text → List Text → List Text
unfolding known_targets
targets known [] = map to_lower known
targets known (name ∷ names) = known_targets known (name ∷ names)

-- The channels that the event reached, and those whose error is joined to the answer.
pub record Delivery : Type 0 where
  pub reached : List Text
  pub failed : List Text

abbrev pub split : (Text → Bool) → List Text → Delivery
split accepts [] = record { reached = []; failed = [] }
split accepts (t ∷ ts) =
    let rest = split accepts ts in
    if accepts t
    then record rest { reached = t ∷ rest.reached }
    else record rest { failed = t ∷ rest.failed }

unfoldable pub send_event : Notifier → List Text → Delivery
unfolding targets
send_event n names = split n.accepts (targets n.channels names)

-- The answer is no error.
unfoldable pub is_fine : Delivery → Bool
is_fine d = elim d.failed [ [] ↦ true | f ∷ fs ↦ false ]

-- ===== src/Notifications/DiscoveryRuns.antt =====
-- The results on the discovery of events, at a queue of one event and a rule for its machine.
use alphaping.Prelude.{
  ◌≡◌, refl, Bool, true, false, none, some, if◌then◌else◌, String, List, [], ◌∷◌,
}
use alphaping.Prelude.Outcome.{throw}
use alphaping.Notifications.Discovery.{
  machine, availability, CursorRow, EventKey, QueuedEvent, StateEvent, ResolvedResource, RuleRow,
  Identity, Tables, Databases, Write, initialize, move_cursor, clean, insert,
}
use alphaping.Notifications.Discovery.Run.{same_identity, discover_notification_events}
use alphaping.Notifications.Discovery.Kept.{Advances}
use alphaping.Notifications.Discovery.Progress.{discover_notification_events-Advances}
use alphaping.Notifications.Discovery.Failures.{IsLeft, discover_notification_events-throw}

abbrev event_key : EventKey
event_key = record {
  workspace_pk = 3;
  resource_type = machine;
  resource_pk = 8;
  occurred_at = 1000;
  event_id = "A1";
}

abbrev went_down : StateEvent
went_down = record {
  key = event_key;
  previous_state = "healthy";
  current_state = "down";
  reason_code = "machine_offline";
}

abbrev queued_event : QueuedEvent
queued_event = record { sequence = 5; key = event_key }

abbrev host_rule : RuleRow
host_rule = record {
  key = record {
    workspace_id = "w";
    resource_type = machine;
    resource_id = "m";
    dimension = availability;
  };
  channel_id = "c";
  enabled = true;
}

abbrev tables : Tables
tables = record {
  events = went_down ∷ [];
  machines =
      record { telemetry_pk = 8; id = "m"; name = "host"; workspace_id = "w"; deleted_at = none }
      ∷ [];
  services = [];
  workspaces = record { id = "w"; telemetry_pk = 3; name = "team"; deleted_at = none } ∷ [];
  rules = host_rule ∷ [];
  channels = record { id = "c"; workspace_id = "w"; enabled = true } ∷ [];
}

abbrev host : ResolvedResource
host = record {
  type = machine;
  telemetry_pk = 8;
  id = "m";
  name = "host";
  workspace_id = "w";
  workspace_pk = 3;
  workspace_name = "team";
}

abbrev read_cursor : CursorRow
read_cursor = record { last_sequence = 4; updated_at = 900 }

abbrev databases : Databases
databases = record { cursor = some read_cursor; deliveries = []; queue = queued_event ∷ [] }

abbrev digest : Identity → String
digest identity =
    if same_identity identity (record { channel_id = "c"; key = event_key }) then "d" else "other"

abbrev by_key : List RuleRow → List RuleRow
by_key rules = rules

abbrev all_available : Write → Bool
all_available write = true

abbrev no_clean : Write → Bool
no_clean write = elim write [
  | clean ↦ false
  | initialize ↦ true
  | move_cursor ↦ true
  | insert batch ↦ true
]

refused :
    (discover_notification_events digest by_key no_clean 2000 tables none databases).1
    ≡ throw "d1_error"
unfolding discover_notification_events
refused = refl

discover_notification_events-Advances_example :
    Advances databases
      (discover_notification_events digest by_key all_available 2000 tables none databases).0
discover_notification_events-Advances_example =
    discover_notification_events-Advances digest by_key all_available 2000 tables none databases
      read_cursor refl refl

discover_notification_events-throw_example :
    IsLeft digest by_key no_clean 2000 databases
      (discover_notification_events digest by_key no_clean 2000 tables none databases).0
discover_notification_events-throw_example =
    discover_notification_events-throw digest by_key no_clean 2000 tables none databases read_cursor
      "d1_error" refl refl refused

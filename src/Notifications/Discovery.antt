-- ===== src/Notifications/Discovery.antt =====
-- workers/notifications/src/discovery.ts: the events that are queued become deliveries. A table is the list
-- of its rows in the order of its primary key; an id has no colon, so that the keys of the maps are equal
-- where their parts are; the order of the rules and SHA-256 are parameters, and a database may refuse a write.
pub mod Events
pub mod Rules
pub mod Run
pub mod Requested
pub mod Inserts
pub mod Delivered
pub mod Identified
pub mod Kept
pub mod Progress
pub mod Failures
use alphaping.Prelude.{
  ℕ, zero, suc, ◌+◌, ◌-◌, max, Bool, true, false, ◌&&◌, ◌||◌, not, ltb, leb, ◌==◌, Option, none,
  some, if◌then◌else◌, String, str_eq, List, [], ◌∷◌, ◌++◌, map, filter, any, take, drop, length,
}
use alphaping.Prelude.Outcome.{Outcome, ok, throw, stuck}

abbrev pub event_limit : ℕ
event_limit = 100

abbrev pub insert_batch : ℕ
insert_batch = 50

abbrev pub max_matched_rules : ℕ
max_matched_rules = 2000

abbrev pub key_batch : ℕ
key_batch = 24

pub data ResourceType : Type 0 where
  machine service : ResourceType

pub data NotificationDimension : Type 0 where
  availability resource recovery : NotificationDimension

abbrev pub same_type : ResourceType → ResourceType → Bool
same_type machine machine = true
same_type service service = true
same_type _ _ = false

abbrev pub same_dimension : NotificationDimension → NotificationDimension → Bool
same_dimension availability availability = true
same_dimension resource resource = true
same_dimension recovery recovery = true
same_dimension _ _ = false

pub record CursorRow : Type 0 where
  pub last_sequence : ℕ
  pub updated_at : ℕ

-- The columns on which the queue is joined with state_events.
pub record EventKey : Type 0 where
  pub workspace_pk : ℕ
  pub resource_type : ResourceType
  pub resource_pk : ℕ
  pub occurred_at : ℕ
  pub event_id : String

pub record QueuedEvent : Type 0 where
  pub sequence : ℕ
  pub key : EventKey

pub record StateEvent : Type 0 where
  pub key : EventKey
  pub previous_state : String
  pub current_state : String
  pub reason_code : String

pub record StateEventRow : Type 0 where
  pub sequence : ℕ
  pub event : StateEvent

-- A row of machines or of services.
pub record ResourceTableRow : Type 0 where
  pub telemetry_pk : ℕ
  pub id : String
  pub name : String
  pub workspace_id : String
  pub deleted_at : Option ℕ

pub record WorkspaceRow : Type 0 where
  pub id : String
  pub telemetry_pk : ℕ
  pub name : String
  pub deleted_at : Option ℕ

-- ResourceRow, with the type, which is part of the map's key.
pub record ResolvedResource : Type 0 where
  pub type : ResourceType
  pub telemetry_pk : ℕ
  pub id : String
  pub name : String
  pub workspace_id : String
  pub workspace_pk : ℕ
  pub workspace_name : String

pub record RuleKey : Type 0 where
  pub workspace_id : String
  pub resource_type : ResourceType
  pub resource_id : String
  pub dimension : NotificationDimension

pub record RuleRow : Type 0 where
  pub key : RuleKey
  pub channel_id : String
  pub enabled : Bool

pub record ChannelRow : Type 0 where
  pub id : String
  pub workspace_id : String
  pub enabled : Bool

-- What the id of a delivery is the digest of.
pub record Identity : Type 0 where
  pub channel_id : String
  pub key : EventKey

pub record NotificationPayload : Type 0 where
  pub workspace : String
  pub resource_type : ResourceType
  pub resource_name : String
  pub dimension : NotificationDimension
  pub previous_state : String
  pub current_state : String
  pub reason_code : String
  pub occurred_at : ℕ

pub record DeliveryInsert : Type 0 where
  pub id : String
  pub workspace_id : String
  pub identity : Identity
  pub dimension : NotificationDimension
  pub payload : NotificationPayload

-- A row of notification_deliveries as it is inserted: pending, without attempts, and due.
pub record DeliveryRow : Type 0 where
  pub delivery : DeliveryInsert
  pub created_at : ℕ

pub record DiscoveryResult : Type 0 where
  pub scanned : ℕ
  pub enqueued : ℕ
  pub bootstrapped : Bool

-- What a run reads and does not write.
pub record Tables : Type 0 where
  pub events : List StateEvent
  pub machines : List ResourceTableRow
  pub services : List ResourceTableRow
  pub workspaces : List WorkspaceRow
  pub rules : List RuleRow
  pub channels : List ChannelRow

-- What a run writes: the cursor's row and the deliveries of the control database, the queue of the other.
pub record Databases : Type 0 where
  pub cursor : Option CursorRow
  pub deliveries : List DeliveryRow
  pub queue : List QueuedEvent

-- A write, which a database may refuse.
pub data Write : Type 0 where
  initialize move_cursor clean : Write
  insert : ℕ → Write

abbrev pub same_key : EventKey → EventKey → Bool
same_key a b =
    (a.workspace_pk == b.workspace_pk && same_type a.resource_type b.resource_type)
    && (a.resource_pk == b.resource_pk
        && (a.occurred_at == b.occurred_at && str_eq a.event_id b.event_id))

unfoldable pub dimension_for_event : StateEvent → NotificationDimension
dimension_for_event event =
    if str_eq event.current_state "healthy"
    then recovery
    else if str_eq event.reason_code "resource_threshold"
    then resource
    else availability

-- `SELECT sequence … ORDER BY sequence DESC LIMIT 1`, or 0.
abbrev pub newest_sequence : List QueuedEvent → ℕ
newest_sequence [] = 0
newest_sequence (queued ∷ queue) = max queued.sequence (newest_sequence queue)

-- The UPDATE, whose condition is that the sequence is not behind.
unfoldable pub update_cursor : CursorRow → ℕ → ℕ → CursorRow
update_cursor cursor sequence now =
    if leb cursor.last_sequence sequence
    then record { last_sequence = sequence; updated_at = now }
    else cursor

-- The rows up to the sequence, at most as many as the limit.
unfoldable pub clean_consumed_events : ℕ → ℕ → List QueuedEvent → List QueuedEvent
clean_consumed_events limit sequence [] = []
clean_consumed_events zero sequence (queued ∷ queue) = queued ∷ queue
clean_consumed_events (suc limit) sequence (queued ∷ queue) =
    let kept = queued ∷ clean_consumed_events (suc limit) sequence queue in
    let dropped = clean_consumed_events limit sequence queue in
    if leb queued.sequence sequence then dropped else kept

-- The row of state_events with the key, which contains its primary key.
unfoldable pub find_event : List StateEvent → EventKey → Option StateEvent
find_event [] key = none
find_event (event ∷ events) key =
    let rest = find_event events key in if same_key event.key key then some event else rest

unfoldable pub join_events : List StateEvent → List QueuedEvent → List StateEventRow
unfolding find_event
join_events events [] = []
join_events events (queued ∷ queue) =
    let rest = join_events events queue in
    elim (find_event events queued.key) [
      | none ↦ rest
      | some event ↦ record { sequence = queued.sequence; event = event } ∷ rest
    ]

unfoldable pub load_events : Tables → Databases → CursorRow → List StateEventRow
unfolding join_events
load_events tables databases cursor = take event_limit (
    join_events tables.events
      (filter (λ queued. ltb cursor.last_sequence queued.sequence) databases.queue))

abbrev pub is_null : Option ℕ → Bool
is_null none = true
is_null (some value) = false

-- A row of a resource joined with the workspaces that are not deleted.
unfoldable pub join_workspaces :
    ResourceType → ResourceTableRow → List WorkspaceRow → List ResolvedResource
join_workspaces type row [] = []
join_workspaces type row (workspace ∷ workspaces) =
    let rest = join_workspaces type row workspaces in
    if str_eq workspace.id row.workspace_id && is_null workspace.deleted_at
    then record {
      type = type;
      telemetry_pk = row.telemetry_pk;
      id = row.id;
      name = row.name;
      workspace_id = row.workspace_id;
      workspace_pk = workspace.telemetry_pk;
      workspace_name = workspace.name;
    }
      ∷ rest
    else rest

unfoldable pub load_resource_rows :
    ResourceType → List ℕ → List WorkspaceRow → List ResourceTableRow → List ResolvedResource
unfolding join_workspaces
load_resource_rows type pks workspaces [] = []
load_resource_rows type pks workspaces (row ∷ rows) =
    let rest = load_resource_rows type pks workspaces rows in
    if any (λ pk. pk == row.telemetry_pk) pks && is_null row.deleted_at
    then join_workspaces type row workspaces ++ rest
    else rest

-- The keys of the resources of a type that the events are about.
abbrev pub resource_pks : ResourceType → List StateEventRow → List ℕ
resource_pks type events =
    map (λ (row : StateEventRow). row.event.key.resource_pk)
      (filter (λ row. same_type row.event.key.resource_type type) events)

-- The entries of the map, in the order in which they are set.
unfoldable pub resolve_resources : Tables → List StateEventRow → List ResolvedResource
unfolding load_resource_rows
resolve_resources tables events =
    load_resource_rows machine (resource_pks machine events) tables.workspaces tables.machines
    ++ load_resource_rows service (resource_pks service events) tables.workspaces tables.services

-- `resources.get(resourceKey(…))`: the last entry that is set with the key.
unfoldable pub get_resource : List ResolvedResource → EventKey → Option ResolvedResource
get_resource [] key = none
get_resource (entry ∷ entries) key = elim (get_resource entries key) [
  | some later ↦ some later
  | none ↦
      if same_type entry.type key.resource_type
        && (entry.workspace_pk == key.workspace_pk && entry.telemetry_pk == key.resource_pk)
      then some entry
      else none
]

-- ===== src/Notifications/Discovery/Rules.antt =====
-- `loadRules` of workers/notifications/src/discovery.ts: the rules that are asked for, in batches of keys.
use alphaping.Prelude.{
  ℕ, zero, suc, ◌+◌, ◌-◌, Bool, ◌&&◌, ltb, none, some, if◌then◌else◌, str_eq, List, [], ◌∷◌, ◌++◌,
  filter, any, take, drop, length,
}
use alphaping.Prelude.Outcome.{Outcome, ok, throw, stuck}
use alphaping.Notifications.Discovery.{
  ResolvedResource, RuleKey, RuleRow, StateEvent, StateEventRow, Tables, key_batch,
  max_matched_rules, same_type, same_dimension, dimension_for_event, get_resource,
}

abbrev pub same_rule_key : RuleKey → RuleKey → Bool
same_rule_key a b =
    (str_eq a.workspace_id b.workspace_id && same_type a.resource_type b.resource_type)
    && (str_eq a.resource_id b.resource_id && same_dimension a.dimension b.dimension)

-- The key of the rules for an event of the resource.
unfoldable pub rule_key : ResolvedResource → StateEvent → RuleKey
unfolding dimension_for_event
rule_key resource event = record {
  workspace_id = resource.workspace_id;
  resource_type = event.key.resource_type;
  resource_id = resource.id;
  dimension = dimension_for_event event;
}

-- `requested.set(key, …)`: a key that is set again stays where it is.
unfoldable pub request_key : List RuleKey → RuleKey → List RuleKey
request_key keys key = if any (same_rule_key key) keys then keys else keys ++ (key ∷ [])

unfoldable pub requested_keys :
    List ResolvedResource → List RuleKey → List StateEventRow → List RuleKey
unfolding request_key rule_key get_resource
requested_keys resources keys [] = keys
requested_keys resources keys (row ∷ rows) = elim (get_resource resources row.event.key) [
  | none ↦ requested_keys resources keys rows
  | some resource ↦ requested_keys resources (request_key keys (rule_key resource row.event)) rows
]

-- The join on a channel of the rule's workspace that is enabled, as the rule is; an id is that of one channel.
unfoldable pub is_active : Tables → RuleRow → Bool
is_active tables rule =
    rule.enabled
    && any
        (λ channel.
          str_eq channel.id rule.channel_id
          && (str_eq channel.workspace_id rule.key.workspace_id && channel.enabled))
        tables.channels

unfoldable pub matching_rules : Tables → List RuleKey → List RuleRow
unfolding is_active
matching_rules tables [] = []
matching_rules tables (key ∷ keys) =
    filter (λ rule. same_rule_key rule.key key && is_active tables rule) tables.rules
    ++ matching_rules tables keys

module _ (order_by : List RuleRow → List RuleRow) (tables : Tables) where
  -- The loop over the batches: the rules found so far, in the order in which they are pushed. The first
  -- number is fuel.
  unfoldable pub load_batches : ℕ → List RuleKey → List RuleRow → Outcome (List RuleRow)
  unfolding matching_rules
  load_batches fuel [] found = ok found
  load_batches zero (key ∷ keys) found = stuck
  load_batches (suc fuel) (key ∷ keys) found =
      let batch =
        take (max_matched_rules - length found + 1)
          (order_by (matching_rules tables (take key_batch (key ∷ keys)))) in
      let rest = load_batches fuel (drop key_batch (key ∷ keys)) (found ++ batch) in
      if ltb max_matched_rules (length found + length batch)
      then throw "notification_rule_batch_exceeded"
      else rest

  unfoldable pub load_rules : List ResolvedResource → List StateEventRow → Outcome (List RuleRow)
  unfolding requested_keys load_batches
  load_rules resources events =
      let keys = requested_keys resources [] events in load_batches (length keys) keys []

-- `rules.get(key) ?? []`
abbrev pub get_rules : List RuleRow → RuleKey → List RuleRow
get_rules rules key = filter (λ rule. same_rule_key rule.key key) rules

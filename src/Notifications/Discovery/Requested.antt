-- ===== src/Notifications/Discovery/Requested.antt =====
-- `loadRules` of workers/notifications/src/discovery.ts: the keys that are requested, and the rules found for
-- them.
use mathlib.Core.List.{Memᴰ}
use mathlib.Core.List.Memᴰ
use text.Mathlib.TextPositions.{eq_refl}
use alphaping.Prelude.{
  ℕ, zero, suc, ◌+◌, ◌-◌, ◌<◌, ◌≡◌, refl, Bool, true, false, Bool-cases, inl, inr, ◌&&◌, ltb, some,
  Option-cases, List, [], ◌∷◌, ◌++◌, filter, any, take, drop, length, arith, Memᴰ-filter,
  any-append_left, any-append_right, any-take-drop, take_whole,
}
use alphaping.Prelude.Outcome.{ok, ok_injective}
use alphaping.Notifications.Discovery.{
  StateEventRow, ResolvedResource, RuleKey, RuleRow, Tables, machine, service, availability,
  resource, recovery, ResourceType, NotificationDimension, same_type, same_dimension, key_batch,
  max_matched_rules, get_resource,
}
use alphaping.Notifications.Discovery.Rules.{
  same_rule_key, rule_key, request_key, requested_keys, is_active, matching_rules, load_batches,
  load_rules,
}

same_type_refl : (type : ResourceType) → same_type type type ≡ true
same_type_refl machine = refl
same_type_refl service = refl

same_dimension_refl :
    (dimension : NotificationDimension) → same_dimension dimension dimension ≡ true
same_dimension_refl availability = refl
same_dimension_refl resource = refl
same_dimension_refl recovery = refl

same_rule_key_refl : (key : RuleKey) → same_rule_key key key ≡ true
same_rule_key_refl key =
    rw
      (
        eq_refl key.workspace_id,
        eq_refl key.resource_id,
        same_type_refl key.resource_type,
        same_dimension_refl key.dimension,
      )
      refl

pub same_rule_key_of_eq : (a b : RuleKey) → a ≡ b → same_rule_key a b ≡ true
same_rule_key_of_eq a b e = rw (← e) (same_rule_key_refl a)

module _ (resources : List ResolvedResource) where
  request_key-any :
      (test : RuleKey → Bool) (keys : List RuleKey) (key : RuleKey)
      → any test keys ≡ true
      → any test (request_key keys key) ≡ true
  unfolding request_key
  request_key-any test keys key e = elim (Bool-cases (any (same_rule_key key) keys)) [
    | inl h ↦ rw h e
    | inr h ↦ rw h (any-append_left test keys (key ∷ []) e)
  ]

  request_key_self :
      (keys : List RuleKey) (key : RuleKey) → any (same_rule_key key) (request_key keys key) ≡ true
  unfolding request_key
  request_key_self keys key = elim (Bool-cases (any (same_rule_key key) keys)) [
    | inl h ↦ rw h h
    | inr h ↦
        rw h
          (any-append_right (same_rule_key key) keys (key ∷ []) (rw (same_rule_key_refl key) refl))
  ]

  requested_keys-any :
      (test : RuleKey → Bool) (keys : List RuleKey) (rows : List StateEventRow)
      → any test keys ≡ true
      → any test (requested_keys resources keys rows) ≡ true
  unfolding requested_keys
  requested_keys-any test keys [] e = e
  requested_keys-any test keys (row ∷ rows) e =
      elim (Option-cases (get_resource resources row.event.key)) [
        | inl h ↦ rw (requested_keys, h) (requested_keys-any test keys rows e)
        | inr (found, h) ↦
            rw (requested_keys, h)
              (requested_keys-any test (request_key keys (rule_key found row.event)) rows
                (request_key-any test keys (rule_key found row.event) e))
      ]

  -- The key of a row whose resource is found is requested.
  pub requested_keys-Memᴰ :
      (keys : List RuleKey) (rows : List StateEventRow) (row : StateEventRow)
      (found : ResolvedResource)
      → Memᴰ row rows
      → get_resource resources row.event.key ≡ some found
      → any (same_rule_key (rule_key found row.event)) (requested_keys resources keys rows) ≡ true
  unfolding requested_keys
  requested_keys-Memᴰ keys [] row found m e = elim m [ ]
  requested_keys-Memᴰ keys (first ∷ rows) row found (Memᴰ.head same) e =
      let e' : get_resource resources first.event.key ≡ some found = rw (← same) e in
      rw (requested_keys, e', same)
        (requested_keys-any (same_rule_key (rule_key found first.event))
          (request_key keys (rule_key found first.event)) rows
          (request_key_self keys (rule_key found first.event)))
  requested_keys-Memᴰ keys (first ∷ rows) row found (Memᴰ.tail m) e =
      elim (Option-cases (get_resource resources first.event.key)) [
        | inl h ↦ rw (requested_keys, h) (requested_keys-Memᴰ keys rows row found m e)
        | inr (other, h) ↦
            rw (requested_keys, h)
              (requested_keys-Memᴰ (request_key keys (rule_key other first.event)) rows row found m
                e)
      ]

module _ (tables : Tables) where
  matching_rules-Memᴰ :
      (keys : List RuleKey) (rule : RuleRow)
      → Memᴰ rule tables.rules
      → is_active tables rule ≡ true
      → any (same_rule_key rule.key) keys ≡ true
      → Memᴰ rule (matching_rules tables keys)
  unfolding matching_rules
  matching_rules-Memᴰ [] rule m active e = cc
  matching_rules-Memᴰ (key ∷ keys) rule m active e =
      let matches : RuleRow → Bool = λ rule. same_rule_key rule.key key && is_active tables rule in
      elim (Bool-cases (same_rule_key rule.key key)) [
        | inl h ↦
            Memᴰ.append_left (matching_rules tables keys)
              (Memᴰ-filter matches tables.rules m (rw (h, active) refl))
        | inr h ↦
            Memᴰ.append_right (filter matches tables.rules)
              (matching_rules-Memᴰ keys rule m active (rw h at e))
      ]

  module _ (order_by : List RuleRow → List RuleRow)
      (ordered : (rules : List RuleRow) (rule : RuleRow)
        → Memᴰ rule rules
        → Memᴰ rule (order_by rules)) where
    -- The rules of a batch, and whether they exceed the limit.
    abbrev batch_of : List RuleKey → List RuleRow → List RuleRow
    unfolding matching_rules
    batch_of keys found =
        take (max_matched_rules - length found + 1)
          (order_by (matching_rules tables (take key_batch keys)))

    load_batches-found :
        (fuel : ℕ) (keys : List RuleKey) (found rules : List RuleRow) (rule : RuleRow)
        → load_batches order_by tables fuel keys found ≡ ok rules
        → Memᴰ rule found
        → Memᴰ rule rules
    unfolding load_batches
    load_batches-found fuel [] found rules rule e m = rw (← ok_injective _ _ e) m
    load_batches-found zero (key ∷ keys) found rules rule e m = cc
    load_batches-found (suc fuel) (key ∷ keys) found rules rule e m =
        elim (Bool-cases
          (ltb max_matched_rules (length found + length (batch_of (key ∷ keys) found)))) [
            | inl over ↦ cc (rw (load_batches, over) at e)
            | inr fits ↦
                load_batches-found fuel (drop key_batch (key ∷ keys))
                  (found ++ batch_of (key ∷ keys) found) rules rule (rw (load_batches, fits) at e)
                  (Memᴰ.append_left (batch_of (key ∷ keys) found) m)
          ]

    batch_of-Memᴰ :
        (keys : List RuleKey) (found : List RuleRow) (rule : RuleRow)
        → ltb max_matched_rules (length found + length (batch_of keys found)) ≡ false
        → Memᴰ rule tables.rules
        → is_active tables rule ≡ true
        → any (same_rule_key rule.key) (take key_batch keys) ≡ true
        → Memᴰ rule (batch_of keys found)
    unfolding batch_of
    batch_of-Memᴰ keys found rule fits m active requested =
        let selected = order_by (matching_rules tables (take key_batch keys)) in
        let short : length (batch_of keys found) < max_matched_rules - length found + 1 =
          ground (arith, fits) in
        rw (take_whole (max_matched_rules - length found + 1) selected short) (
          ordered (matching_rules tables (take key_batch keys)) rule
            (matching_rules-Memᴰ (take key_batch keys) rule m active requested))

    -- Where no batch exceeds the limit, a rule that is active and of a requested key is found.
    load_batches-Memᴰ :
        (fuel : ℕ) (keys : List RuleKey) (found rules : List RuleRow) (rule : RuleRow)
        → load_batches order_by tables fuel keys found ≡ ok rules
        → Memᴰ rule tables.rules
        → is_active tables rule ≡ true
        → any (same_rule_key rule.key) keys ≡ true
        → Memᴰ rule rules
    unfolding load_batches
    load_batches-Memᴰ fuel [] found rules rule e m active requested = cc
    load_batches-Memᴰ zero (key ∷ keys) found rules rule e m active requested = cc
    load_batches-Memᴰ (suc fuel) (key ∷ keys) found rules rule e m active requested =
        elim (Bool-cases
          (ltb max_matched_rules (length found + length (batch_of (key ∷ keys) found)))) [
            | inl over ↦ cc (rw (load_batches, over) at e)
            | inr fits ↦
                let e' = rw (load_batches, fits) at e in
                elim (any-take-drop (same_rule_key rule.key) key_batch (key ∷ keys) requested) [
                  | inr later ↦
                      load_batches-Memᴰ fuel (drop key_batch (key ∷ keys))
                        (found ++ batch_of (key ∷ keys) found) rules rule e' m active later
                  | inl now ↦
                      load_batches-found fuel (drop key_batch (key ∷ keys))
                        (found ++ batch_of (key ∷ keys) found) rules rule e'
                        (Memᴰ.append_right found
                          (batch_of-Memᴰ (key ∷ keys) found rule fits m active now))
                ]
          ]

    -- An active rule for the row of a resource that is found is among the rules that are loaded.
    pub load_rules-Memᴰ :
        (resources : List ResolvedResource) (rows : List StateEventRow) (row : StateEventRow)
        (found : ResolvedResource) (rule : RuleRow) (rules : List RuleRow)
        → load_rules order_by tables resources rows ≡ ok rules
        → Memᴰ row rows
        → get_resource resources row.event.key ≡ some found
        → Memᴰ rule tables.rules
        → is_active tables rule ≡ true
        → rule.key ≡ rule_key found row.event
        → Memᴰ rule rules
    unfolding load_rules
    load_rules-Memᴰ resources rows row found rule rules e m resolved m' active same =
        load_batches-Memᴰ (length (requested_keys resources [] rows))
          (requested_keys resources [] rows) [] rules rule e m' active
          (rw same (requested_keys-Memᴰ resources [] rows row found m resolved))

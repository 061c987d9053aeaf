-- ===== src/Authz/Runs.antt =====
-- The access decisions, at concrete grants.
use alphaping.Prelude.{◌≡◌, refl, true, [], ◌∷◌}
use mathlib.Core.List.{Memᴰ}
use alphaping.Authz.{
  member, view, manage, allow, deny, machine, container, ResourceGrant, denies_capability,
  allows_capability, can_access_resource,
}
use alphaping.Authz.Laws.{IsAbout, Allows, Denies, access_has_grant}

abbrev manages_machine : ResourceGrant
manages_machine = record {
  resource_type = machine;
  resource_id = "m1";
  capability = manage;
  effect = allow;
}

abbrev hides_machine : ResourceGrant
hides_machine = record {
  resource_type = machine;
  resource_id = "m1";
  capability = view;
  effect = deny;
}

abbrev hides_container : ResourceGrant
hides_container = record {
  resource_type = container;
  resource_id = "c1";
  capability = view;
  effect = deny;
}

may_manage : can_access_resource member (manages_machine ∷ []) machine "m1" manage ≡ true
unfolding can_access_resource denies_capability allows_capability
may_manage = refl

hides_container_denies : denies_capability hides_container view ≡ true
unfolding denies_capability
hides_container_denies = refl

access_has_grant_example :
    ((g : ResourceGrant) × Memᴰ g (manages_machine ∷ []) × IsAbout machine "m1" g × Allows manage g)
    × ((g : ResourceGrant)
        → Memᴰ g (manages_machine ∷ [])
        → IsAbout machine "m1" g
        → Denies manage g
        → ⊥)
access_has_grant_example = access_has_grant (manages_machine ∷ []) machine "m1" manage may_manage

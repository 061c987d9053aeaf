-- ===== src/Authz.antt =====
-- packages/authz/src/index.ts: who may view or manage a resource of a workspace.
pub mod Laws
mod Runs
use alphaping.Prelude.{
  Bool, true, false, ◌&&◌, ◌||◌, List, String, str_eq, if◌then◌else◌, filter, any,
}

pub data WorkspaceRole : Type 0 where
  admin member : WorkspaceRole

pub data Capability : Type 0 where
  view manage : Capability

pub data GrantEffect : Type 0 where
  allow deny : GrantEffect

pub data ResourceType : Type 0 where
  machine service container dashboard incident : ResourceType

pub record ResourceGrant : Type 0 where
  pub resource_type : ResourceType
  pub resource_id : String
  pub capability : Capability
  pub effect : GrantEffect

-- `===` on the unions of literals.
abbrev pub is_admin : WorkspaceRole → Bool
is_admin admin = true
is_admin member = false

abbrev pub same_capability : Capability → Capability → Bool
same_capability view view = true
same_capability manage manage = true
same_capability _ _ = false

abbrev pub is_deny : GrantEffect → Bool
is_deny deny = true
is_deny allow = false

abbrev pub is_allow : GrantEffect → Bool
is_allow allow = true
is_allow deny = false

abbrev pub same_type : ResourceType → ResourceType → Bool
same_type machine machine = true
same_type service service = true
same_type container container = true
same_type dashboard dashboard = true
same_type incident incident = true
same_type _ _ = false

unfoldable pub denies_capability : ResourceGrant → Capability → Bool
denies_capability grant capability =
    is_deny grant.effect
    && (same_capability grant.capability capability
        || (same_capability capability manage && same_capability grant.capability view))

-- The test of the last `some` in each function.
unfoldable pub allows_capability : Capability → ResourceGrant → Bool
allows_capability capability grant =
    is_allow grant.effect
    && (same_capability grant.capability capability
        || (same_capability capability view && same_capability grant.capability manage))

abbrev pub is_about : ResourceType → String → ResourceGrant → Bool
is_about resource_type resource_id grant =
    same_type grant.resource_type resource_type && str_eq grant.resource_id resource_id

unfoldable pub can_access_resource :
    WorkspaceRole → List ResourceGrant → ResourceType → String → Capability → Bool
can_access_resource role grants resource_type resource_id capability =
    let relevant = filter (is_about resource_type resource_id) grants in
    if is_admin role
    then true
    else if any (λ grant. denies_capability grant capability) relevant
    then false
    else any (allows_capability capability) relevant

unfoldable pub can_access_incident :
    WorkspaceRole → List ResourceGrant → String → Capability → Bool → Bool
can_access_incident role grants incident_id capability inherited_from_services =
    let incident_grants = filter (is_about incident incident_id) grants in
    if is_admin role
    then true
    else if any (λ grant. denies_capability grant capability) incident_grants
    then false
    else can_access_resource role incident_grants incident incident_id capability
      || inherited_from_services

unfoldable pub can_access_container :
    WorkspaceRole → List ResourceGrant → String → String → Capability → Bool
can_access_container role grants machine_id container_id capability =
    let container_grants = filter (is_about container container_id) grants in
    if is_admin role
    then true
    else if any (λ grant. denies_capability grant capability) container_grants
    then false
    else any (allows_capability capability) container_grants
      || can_access_resource role grants machine machine_id capability

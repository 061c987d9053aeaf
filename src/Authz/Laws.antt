-- ===== src/Authz/Laws.antt =====
-- What the access decisions guarantee.
use alphaping.Prelude.{
  ◌≡◌, refl, inl, inr, Bool, true, false, List, [], ◌∷◌, ◌++◌, String, filter, any, arith,
  Bool-cases, ap, eq_iff, Memᴰ-filter, ◌||◌, ◌&&◌,
}
use mathlib.Core.List.{Memᴰ}
use alphaping.Authz.{
  GrantEffect, allow, deny, same_type, same_capability, is_allow, service, dashboard, WorkspaceRole,
  admin, member, Capability, view, manage, ResourceType, machine, container, incident,
  ResourceGrant, is_about, denies_capability, allows_capability, can_access_resource,
  can_access_incident, can_access_container,
}

-- A stronger test passes where a weaker one does.
any_mono :
    (p q : ResourceGrant → Bool)
    → ((g : ResourceGrant) → p g ≡ true → q g ≡ true)
    → (gs : List ResourceGrant) → any p gs ≡ true
    → any q gs ≡ true
any_mono p q h (g ∷ gs) e = elim (Bool-cases (p g)) [
  | inl here ↦ rw (h g here)
  | inr there ↦ ground (arith, any_mono p q h gs (rw there at e))
]
any_mono p q h [] e = cc

denies_manage_of_denies_view :
    (g : ResourceGrant) → denies_capability g view ≡ true → denies_capability g manage ≡ true
unfolding denies_capability
denies_manage_of_denies_view g e = ground arith

allows_view_of_allows_manage :
    (g : ResourceGrant) → allows_capability manage g ≡ true → allows_capability view g ≡ true
unfolding allows_capability
allows_view_of_allows_manage g e = ground arith

denied_mono :
    (gs : List ResourceGrant)
    → any (λ g. denies_capability g manage) gs ≡ false
    → any (λ g. denies_capability g view) gs ≡ false
denied_mono gs e = elim (Bool-cases (any (λ g. denies_capability g view) gs)) [
  | inl denied ↦ absurd (cc (e, any_mono _ _ denies_manage_of_denies_view gs denied))
  | inr free ↦ free
]

-- Whoever may manage a resource may also view it, in every role and under every list of grants.
manage_then_view :
    (role : WorkspaceRole) (grants : List ResourceGrant) (resource_type : ResourceType)
    (id : String)
    → can_access_resource role grants resource_type id manage ≡ true
    → can_access_resource role grants resource_type id view ≡ true
unfolding can_access_resource
manage_then_view admin grants resource_type id e = refl
manage_then_view member grants resource_type id e =
    let relevant = filter (is_about resource_type id) grants in
    ground (
      arith,
      denied_mono relevant,
      any_mono (allows_capability manage) (allows_capability view) allows_view_of_allows_manage
          relevant,
    )

-- Whoever may manage an incident may also view it, in every role, under every list of grants, and
-- with or without the access to all affected services.
pub manage_then_view_incident :
    (role : WorkspaceRole) (grants : List ResourceGrant) (id : String) (inherited : Bool)
    → can_access_incident role grants id manage inherited ≡ true
    → can_access_incident role grants id view inherited ≡ true
unfolding can_access_incident
manage_then_view_incident admin grants id inherited e = refl
manage_then_view_incident member grants id inherited e =
    let own = filter (is_about incident id) grants in
    ground (arith, denied_mono own, manage_then_view member own incident id)

-- Whoever may manage a container may also view it, in every role and under every list of grants.
pub manage_then_view_container :
    (role : WorkspaceRole) (grants : List ResourceGrant) (machine_id id : String)
    → can_access_container role grants machine_id id manage ≡ true
    → can_access_container role grants machine_id id view ≡ true
unfolding can_access_container
manage_then_view_container admin grants machine_id id e = refl
manage_then_view_container member grants machine_id id e =
    let own = filter (is_about container id) grants in
    ground (
      arith,
      denied_mono own,
      any_mono (allows_capability manage) (allows_capability view) allows_view_of_allows_manage own,
      manage_then_view member grants machine machine_id,
    )

module _ (p q : ResourceGrant → Bool) (g : ResourceGrant) (chosen : q g ≡ true)
    (passes : p g ≡ true) where
  any-filter : (front back : List ResourceGrant) → any p (filter q (front ++ g ∷ back)) ≡ true
  any-filter [] back = rw (chosen, passes)
  any-filter (x ∷ front) back = ground (arith, any-filter front back)

-- A member whom one of the grants on an incident denies a capability does not have it, wherever the grant
-- stands in the list and whatever the others allow, and also with access to all affected services.
pub denial_refuses_incident :
    (front back : List ResourceGrant) (g : ResourceGrant) (id : String) (c : Capability)
    (inherited : Bool)
    → denies_capability g c ≡ true
    → is_about incident id g ≡ true
    → can_access_incident member (front ++ g ∷ back) id c inherited ≡ false
unfolding can_access_incident
denial_refuses_incident front back g id c inherited denies about =
    rw (any-filter (λ x. denies_capability x c) (is_about incident id) g about denies front back)

-- A member whom one of the grants on a container denies a capability does not have it, wherever the grant
-- stands in the list and whatever the others allow, also on the container's machine.
denial_refuses_container :
    (front back : List ResourceGrant) (g : ResourceGrant) (machine_id id : String) (c : Capability)
    → denies_capability g c ≡ true
    → is_about container id g ≡ true
    → can_access_container member (front ++ g ∷ back) machine_id id c ≡ false
unfolding can_access_container
denial_refuses_container front back g machine_id id c denies about =
    rw (any-filter (λ x. denies_capability x c) (is_about container id) g about denies front back)

-- A grant in the list that a test picks.
any-Memᴰ :
    (p : ResourceGrant → Bool) (gs : List ResourceGrant)
    → any p gs ≡ true
    → (g : ResourceGrant) × Memᴰ g gs × (p g ≡ true)
any-Memᴰ p [] e = cc
any-Memᴰ p (x ∷ gs) e = elim (Bool-cases (p x)) [
  | inl here ↦ (x, Memᴰ.head refl, here)
  | inr there ↦ let (g, m, h) = any-Memᴰ p gs (rw there at e) in (g, Memᴰ.tail m, h)
]

filter-Memᴰ :
    (q : ResourceGrant → Bool) (gs : List ResourceGrant) {g : ResourceGrant}
    → Memᴰ g (filter q gs)
    → Memᴰ g gs × (q g ≡ true)
filter-Memᴰ q [] m = elim m [ ]
filter-Memᴰ q (x ∷ gs) {g} m = elim (Bool-cases (q x)) [
  | inl kept ↦ kept_case (filter-Memᴰ q gs) kept (rw kept at m)
  | inr dropped ↦ let (m', h) = filter-Memᴰ q gs (rw dropped at m) in (Memᴰ.tail m', h)
]
  where
    kept_case :
        (Memᴰ g (filter q gs) → Memᴰ g gs × (q g ≡ true))
        → q x ≡ true
        → Memᴰ g (x ∷ filter q gs)
        → Memᴰ g (x ∷ gs) × (q g ≡ true)
    kept_case ih kept (Memᴰ.head e) = (Memᴰ.head e, rw e kept)
    kept_case ih kept (Memᴰ.tail m') = let (m'', h) = ih m' in (Memᴰ.tail m'', h)

Memᴰ-any :
    (p : ResourceGrant → Bool) (gs : List ResourceGrant) {g : ResourceGrant}
    → Memᴰ g gs
    → p g ≡ true
    → any p gs ≡ true
Memᴰ-any p [] m h = elim m [ ]
Memᴰ-any p (x ∷ gs) (Memᴰ.head e) h = ground (arith, ap p e, h)
Memᴰ-any p (x ∷ gs) (Memᴰ.tail m) h = ground (arith, Memᴰ-any p gs m h)

-- The grant is about the resource.
pub record IsAbout (resource_type : ResourceType) (id : String) (g : ResourceGrant) : Type 0 where
  pub type : g.resource_type ≡ resource_type
  pub resource : g.resource_id ≡ id

-- To manage includes to view, so that an allowed `manage` is an allowed `view` and a denied `view` a
-- denied `manage`.
pub data Allows : Capability → ResourceGrant → Type 0 where
  allows_same :
      {c : Capability} {g : ResourceGrant} → g.effect ≡ allow → g.capability ≡ c → Allows c g
  allows_more :
      {c : Capability} {g : ResourceGrant}
      → c ≡ view
      → g.effect ≡ allow
      → g.capability ≡ manage
      → Allows c g

pub data Denies : Capability → ResourceGrant → Type 0 where
  denies_same :
      {c : Capability} {g : ResourceGrant} → g.effect ≡ deny → g.capability ≡ c → Denies c g
  denies_less :
      {c : Capability} {g : ResourceGrant}
      → c ≡ manage
      → g.effect ≡ deny
      → g.capability ≡ view
      → Denies c g

same_type_refl : (a : ResourceType) → same_type a a ≡ true
same_type_refl machine = refl
same_type_refl service = refl
same_type_refl container = refl
same_type_refl dashboard = refl
same_type_refl incident = refl

same_type-eq : (a b : ResourceType) → same_type a b ≡ true → a ≡ b
same_type-eq machine machine e = refl
same_type-eq service service e = refl
same_type-eq container container e = refl
same_type-eq dashboard dashboard e = refl
same_type-eq incident incident e = refl
same_type-eq machine service e = cc
same_type-eq machine container e = cc
same_type-eq machine dashboard e = cc
same_type-eq machine incident e = cc
same_type-eq service machine e = cc
same_type-eq service container e = cc
same_type-eq service dashboard e = cc
same_type-eq service incident e = cc
same_type-eq container machine e = cc
same_type-eq container service e = cc
same_type-eq container dashboard e = cc
same_type-eq container incident e = cc
same_type-eq dashboard machine e = cc
same_type-eq dashboard service e = cc
same_type-eq dashboard container e = cc
same_type-eq dashboard incident e = cc
same_type-eq incident machine e = cc
same_type-eq incident service e = cc
same_type-eq incident container e = cc
same_type-eq incident dashboard e = cc

is_about-IsAbout :
    (resource_type : ResourceType) (id : String) (g : ResourceGrant)
    → is_about resource_type id g ≡ true
    → IsAbout resource_type id g
is_about-IsAbout resource_type id g e = record {
  type = same_type-eq g.resource_type resource_type (ground arith);
  resource = ground (arith, eq_iff g.resource_id id);
}

IsAbout-is_about :
    (resource_type : ResourceType) (id : String) (g : ResourceGrant)
    → IsAbout resource_type id g
    → is_about resource_type id g ≡ true
IsAbout-is_about resource_type id g about =
    rw (about.type, same_type_refl resource_type)
      (ground (arith, eq_iff g.resource_id id, about.resource))

allows_capability-Allows :
    (c : Capability) (g : ResourceGrant) → allows_capability c g ≡ true → Allows c g
unfolding allows_capability
allows_capability-Allows c g e = by_fields c g.effect g.capability refl refl e
  where
    by_fields :
        (c : Capability) (effect : GrantEffect) (capability : Capability)
        → g.effect ≡ effect
        → g.capability ≡ capability
        → is_allow effect
            && (same_capability capability c
                || (same_capability c view && same_capability capability manage))
          ≡ true
        → Allows c g
    by_fields view allow view e' f h = Allows.allows_same e' f
    by_fields view allow manage e' f h = Allows.allows_more refl e' f
    by_fields manage allow manage e' f h = Allows.allows_same e' f
    by_fields manage allow view e' f h = cc
    by_fields view deny capability e' f h = cc
    by_fields manage deny capability e' f h = cc

Denies-denies_capability :
    (c : Capability) (g : ResourceGrant) → Denies c g → denies_capability g c ≡ true
unfolding denies_capability
Denies-denies_capability c g (Denies.denies_same e f) = rw (e, f) (by_capability c)
  where
    by_capability :
        (c : Capability)
        → same_capability c c || (same_capability c manage && same_capability c view) ≡ true
    by_capability view = refl
    by_capability manage = refl
Denies-denies_capability c g (Denies.denies_less k e f) = rw (k, e, f) refl

-- A member who has a capability on a resource has it by a grant in the list that is about that resource
-- and allows the capability or, where it is to view, to manage; and no grant in the list that is about
-- that resource denies the capability or, where it is to manage, to view.
pub access_has_grant :
    (grants : List ResourceGrant) (resource_type : ResourceType) (id : String) (c : Capability)
    → can_access_resource member grants resource_type id c ≡ true
    → ((g : ResourceGrant) × Memᴰ g grants × IsAbout resource_type id g × Allows c g)
      × ((g : ResourceGrant) → Memᴰ g grants → IsAbout resource_type id g → Denies c g → ⊥)
unfolding can_access_resource
access_has_grant grants resource_type id c e =
    let relevant = filter (is_about resource_type id) grants in
    let free : any (λ g. denies_capability g c) relevant ≡ false = ground arith in
    let (g, m, allows) = any-Memᴰ (allows_capability c) relevant (rw free at e) in
    let (m', about) = filter-Memᴰ (is_about resource_type id) grants m in
    (
      (g, m', is_about-IsAbout resource_type id g about, allows_capability-Allows c g allows),
      λ g m about denies.
          let denied =
            Memᴰ-any (λ g. denies_capability g c) relevant
              (Memᴰ-filter (is_about resource_type id) grants m
                (IsAbout-is_about resource_type id g about))
              (Denies-denies_capability c g denies) in
          cc,
    )

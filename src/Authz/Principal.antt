-- ===== src/Authz/Principal.antt =====
-- packages/authz/principal.go: the actor, and the roles that count for a resource.
use hquizlet_platform.Prelude.{
  ◌≡◌, refl, arith, Bool, false, not, ◌&&◌, ◌||◌, String, List, [], ◌∷◌, ◌++◌, str_eq,
  if◌then◌else◌,
}
use hquizlet_platform.Prelude.Int.{ℤ, eq_ℤ, is_positive}
use hquizlet_platform.Authz.Roles.{platform_admin, student, class_member_role}
use hquizlet_platform.Authz.Resource.{Target}

-- Principal; `org_roles` is the Go map, as the list of its entries.
pub record Actor : Type 0 where
  pub user_id : ℤ
  pub legacy_role : String
  pub platform_roles : List String
  pub class_role : String
  pub class_id : ℤ
  pub org_roles : List (ℤ × List String)

-- contains
abbrev pub contains : List String → String → Bool
contains [] v = false
contains (x ∷ xs) v = str_eq x v || contains xs v

abbrev is_empty : List String → Bool
is_empty [] = Bool.true
is_empty (_ ∷ _) = false

-- The read of a Go map of lists: a missing key gives nil.
abbrev pub org_entry : ℤ → List (ℤ × List String) → List String
org_entry k [] = []
org_entry k ((j, roles) ∷ m) = if eq_ℤ j k then roles else org_entry k m

-- Principal.OrgRoleKeys
unfoldable pub org_role_keys : Actor → ℤ → List String
org_role_keys p org_id = if is_positive org_id then org_entry org_id p.org_roles else []

-- Principal.resolvedPlatformRoles
unfoldable pub resolved_platform_roles : Actor → List String
resolved_platform_roles p =
    let roles =
      if str_eq p.legacy_role "admin" && not (contains p.platform_roles platform_admin)
      then p.platform_roles ++ platform_admin ∷ []
      else p.platform_roles in
    if is_empty roles && str_eq p.legacy_role "user" then student ∷ [] else roles

-- The class role counts for resources of the actor's class, and for those with no class.
unfoldable pub class_keys : Actor → Target → List String
class_keys p res =
    let cr = class_member_role p.class_role in
    if str_eq cr ""
    then []
    else if not (is_positive res.class_id) || eq_ℤ res.class_id p.class_id
    then cr ∷ []
    else []

-- Principal.effectiveRoleKeys
unfoldable pub effective_role_keys : Actor → Target → List String
unfolding class_keys
effective_role_keys p res =
    (resolved_platform_roles p ++ class_keys p res) ++ org_role_keys p res.org_id

pub contains-append :
    (xs ys : List String) (v : String) → contains (xs ++ ys) v ≡ (contains xs v || contains ys v)
contains-append [] ys v = refl
contains-append (x ∷ xs) ys v = ground (arith, contains-append xs ys v)

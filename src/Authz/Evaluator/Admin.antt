-- ===== src/Authz/Evaluator/Admin.antt =====
-- What a platform administrator may do: everything.
use hquizlet_platform.Prelude.{
  ◌≡◌, refl, ◌⊎◌, Bool, true, false, ◌&&◌, ◌||◌, String, List, [], ◌∷◌, ◌++◌, arith, ap, any, all,
  str_eq, eq_iff, Bool-cases, inl, inr,
}
use hquizlet_platform.Prelude.Text.{split_comma}
use hquizlet_platform.Authz.Actions.{Action}
use hquizlet_platform.Authz.Roles.{Statement, platform_admin}
use hquizlet_platform.Authz.Resource.{Target, match_resource, match_action}
use hquizlet_platform.Authz.Principal.{
  Actor, contains, contains-append, class_keys, org_role_keys, resolved_platform_roles,
  effective_role_keys,
}
use hquizlet_platform.Authz.Policies.{managed_policies, find_policy}
use hquizlet_platform.Authz.Evaluator.{lacks_roles, eval_condition, eval_conditions, applies, can}
use hquizlet_platform.Authz.Evaluator.Decision.{is_allow, granted, allows, denies, can_iam_rule}
use hquizlet_platform.Authz.Evaluator.Tables.{granted-check, granted-contains, any-false}

-- An entry withoutPlatformRole that names PlatformAdmin.
abbrev exempts_admin : String × String → Bool
exempts_admin (k, v) = str_eq k "withoutPlatformRole" && contains (split_comma v) platform_admin

-- The statement is no Deny, or spares platform administrators.
abbrev spares_admin : Statement → Bool
spares_admin s = is_allow s.effect || any exempts_admin s.condition

all-true : (keys : List String) → all (λ _. true) keys ≡ true
all-true [] = refl
all-true (_ ∷ keys) = all-true keys

module _ (p : Actor) (is_admin : contains (resolved_platform_roles p) platform_admin ≡ true) where
  lacks_roles-admin :
      (roles : List String) → contains roles platform_admin ≡ true → lacks_roles p roles ≡ false
  lacks_roles-admin [] h = cc
  lacks_roles-admin (role ∷ roles) h = elim (Bool-cases (str_eq role platform_admin)) [
    | inl same ↦ ground (
      arith,
      is_admin,
      ap (λ x. contains (resolved_platform_roles p) x) ((eq_iff role platform_admin).0 same),
    )
    | inr other ↦ ground (arith, lacks_roles-admin roles)
  ]

  exempt_entry :
      (e : String × String) (r : Target) → exempts_admin e ≡ true → eval_condition e p r ≡ false
  exempt_entry (k, v) r h = ground (arith, lacks_roles-admin (split_comma v))

  exempt_conditions :
      (cond : List (String × String)) (r : Target)
      → any exempts_admin cond ≡ true
      → eval_conditions cond p r ≡ false
  unfolding eval_conditions
  exempt_conditions [] r h = cc
  exempt_conditions (e ∷ cond) r h = ground (arith, exempt_entry e r, exempt_conditions cond r)

  spared :
      (a : Action) (r : Target) (s : Statement) → spares_admin s ≡ true → denies p a r s ≡ false
  unfolding applies
  spared a r s h = ground (arith, exempt_conditions s.condition r)

  -- No Deny statement of the managed policies applies to a platform administrator.
  admin_not_denied :
      (a : Action) (r : Target) (keys : List String) → any (denies p a r) (granted keys) ≡ false
  admin_not_denied a r keys = any-false spares_admin (denies p a r) (granted keys) (spared a r) (
      granted-check (λ _. true) spares_admin keys (unfold managed_policies in refl) (all-true keys))

  granted_admin_policy :
      (a : Action) (r : Target) → any (allows p a r) (granted (platform_admin ∷ [])) ≡ true
  unfolding applies match_action match_resource eval_conditions granted find_policy managed_policies
  granted_admin_policy a r = refl

  effective-contains : (r : Target) → contains (effective_role_keys p r) platform_admin ≡ true
  unfolding effective_role_keys
  effective-contains r = ground (
    arith,
    is_admin,
    contains-append (resolved_platform_roles p ++ class_keys p r) (org_role_keys p r.org_id)
        platform_admin,
    contains-append (resolved_platform_roles p) (class_keys p r) platform_admin,
  )

  resolved_admin_permitted : (a : Action) (r : Target) → can p a r ≡ true
  resolved_admin_permitted a r =
      let keys = effective_role_keys p r in
      ground (
        arith,
        can_iam_rule p a r,
        granted-contains (allows p a r) platform_admin keys (granted_admin_policy a r)
            (effective-contains r),
        admin_not_denied a r keys,
      )

-- The actor has the platform role PlatformAdmin, or the old role admin that stands for it.
abbrev pub IsPlatformAdmin : Actor → Type 0
IsPlatformAdmin p =
    (contains p.platform_roles platform_admin ≡ true) ⊎ (str_eq p.legacy_role "admin" ≡ true)

resolved-IsPlatformAdmin :
    (p : Actor) → IsPlatformAdmin p → contains (resolved_platform_roles p) platform_admin ≡ true
unfolding resolved_platform_roles
resolved-IsPlatformAdmin p h =
    ground (arith, contains-append p.platform_roles (platform_admin ∷ []) platform_admin)

-- A platform administrator may do any action on any resource: no Deny statement of any role that
-- the actor holds besides stands in the way.
pub admin_permitted : (p : Actor) (a : Action) (r : Target) → IsPlatformAdmin p → can p a r ≡ true
admin_permitted p a r h = resolved_admin_permitted p (resolved-IsPlatformAdmin p h) a r

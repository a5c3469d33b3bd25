-- ===== src/Auth/Escalation.antt =====
-- No way to the role of a platform administrator but through one.
use hquizlet_platform.Prelude.{
  ◌≡◌, refl, Bool, true, false, not, ◌&&◌, String, List, [], ◌∷◌, ◌++◌, all, arith, str_eq,
}
use hquizlet_platform.Authz.Actions.{Action, iam_assign_role}
use hquizlet_platform.Authz.Roles.{Statement, platform_admin}
use hquizlet_platform.Authz.Resource.{match_action}
use hquizlet_platform.Authz.Principal.{
  Actor, contains, contains-append, org_role_keys, resolved_platform_roles, effective_role_keys,
}
use hquizlet_platform.Authz.Policies.{managed_policies}
use hquizlet_platform.Authz.Evaluator.{applies, can}
use hquizlet_platform.Authz.Evaluator.Decision.{is_allow, granted, allows, can_iam_rule}
use hquizlet_platform.Authz.Evaluator.Tables.{granted-check, any-false}
use hquizlet_platform.Auth.Model.{Identity}
use hquizlet_platform.Auth.Sessions.{actor_of}
use hquizlet_platform.Auth.Iam.{platform}

abbrev is_not_admin : String → Bool
is_not_admin key = not (str_eq key platform_admin)

-- No Allow of the action stands in the statement.
abbrev withholds : Action → Statement → Bool
withholds a s = not (is_allow s.effect && match_action s.actions a)

none_admin :
    (keys : List String) → contains keys platform_admin ≡ false → all is_not_admin keys ≡ true
none_admin [] h = refl
none_admin (key ∷ keys) h = ground (arith, none_admin keys)

-- An actor of an identity without the role: no platform role PlatformAdmin, no legacy role admin.
pub record IsPlain (i : Identity) : Type 0 where
  pub no_legacy : str_eq i.role "admin" ≡ false
  pub no_role : contains i.platform_roles platform_admin ≡ false

pub plain_keys :
    (i : Identity)
    → IsPlain i
    → contains (effective_role_keys (actor_of i) platform) platform_admin ≡ false
unfolding effective_role_keys resolved_platform_roles org_role_keys
plain_keys i h =
    let roles = resolved_platform_roles (actor_of i) in
    ground (
      arith,
      h.no_legacy,
      h.no_role,
      contains-append (roles ++ []) [] platform_admin,
      contains-append roles [] platform_admin,
    )

withholds-allows :
    (p : Actor) (a : Action) (s : Statement) → withholds a s ≡ true → allows p a platform s ≡ false
unfolding applies
withholds-allows p a s h = ground arith

pub plain_never_assigns :
    (i : Identity) → IsPlain i → can (actor_of i) iam_assign_role platform ≡ false
plain_never_assigns i h =
    let keys = effective_role_keys (actor_of i) platform in
    let checked : all (withholds iam_assign_role) (granted keys) ≡ true =
      granted-check is_not_admin (withholds iam_assign_role) keys
        (unfold managed_policies match_action in refl) (none_admin keys (plain_keys i h)) in
    ground (
      arith,
      can_iam_rule (actor_of i) iam_assign_role platform,
      any-false (withholds iam_assign_role) (allows (actor_of i) iam_assign_role platform)
          (granted keys) (withholds-allows (actor_of i) iam_assign_role) checked,
    )

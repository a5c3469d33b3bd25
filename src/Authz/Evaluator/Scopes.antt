-- ===== src/Authz/Evaluator/Scopes.antt =====
-- The scopes of the actions on classes and organizations, and what a class teacher may not do.
use hquizlet_platform.Prelude.{
  ◌≡◌, refl, Bool, true, false, not, ◌&&◌, ◌||◌, String, List, [], ◌∷◌, ◌++◌, arith, ap, any, all,
  str_eq, eq_iff, Bool-cases, inl, inr, if◌then◌else◌,
}
use hquizlet_platform.Prelude.Int.{is_positive, pos_part}
use hquizlet_platform.Prelude.Text.{append}
use hquizlet_platform.Prelude.Decimal.{format_int}
use hquizlet_platform.Authz.Actions
use hquizlet_platform.Authz.Actions.{Action}
use hquizlet_platform.Authz.Roles
use hquizlet_platform.Authz.Roles.{Statement, class_member_role}
use hquizlet_platform.Authz.Resource.{Target, arn, resource_pattern, match_action, match_resource}
use hquizlet_platform.Authz.Principal.{
  Actor, contains, contains-append, class_keys, org_role_keys, resolved_platform_roles,
  effective_role_keys,
}
use hquizlet_platform.Authz.Policies.{managed_policies, find_policy}
use hquizlet_platform.Authz.Evaluator.{
  in_class, in_org, eval_condition, eval_conditions, applies, can,
}
use hquizlet_platform.Authz.Evaluator.Decision.{is_allow, granted, allows, denies, can_iam_rule}
use hquizlet_platform.Authz.Evaluator.Ownership.{any-contains}
use hquizlet_platform.Authz.Evaluator.Tables.{granted-check, granted-contains, any-false}

-- The actions on a class but class:Create and class:Join, on its members and its content, and those on
-- an organization.
abbrev pub scoped_actions : List Action
scoped_actions =
    Actions.class_read ∷ Actions.class_update ∷ Actions.class_delete ∷ Actions.class_reset_invite
    ∷ Actions.class_view_dashboard ∷ Actions.class_member_list ∷ Actions.class_member_add
    ∷ Actions.class_member_remove ∷ Actions.class_member_update_role
    ∷ Actions.class_member_view_progress ∷ Actions.class_content_assign
    ∷ Actions.class_content_unassign ∷ Actions.class_content_upload ∷ Actions.class_content_view
    ∷ Actions.org_create ∷ Actions.org_read ∷ Actions.org_update ∷ Actions.org_invite_member
    ∷ Actions.org_view_dashboard ∷ []

abbrev is_unscoped_role : String → Bool
is_unscoped_role key = str_eq key Roles.platform_admin || str_eq key Roles.platform_support

abbrev is_member_role : String → Bool
is_member_role key = not (is_unscoped_role key)

abbrev scope_entry : String × String → Bool
scope_entry (k, v) = str_eq k "inScope" && (str_eq v "class" || str_eq v "org")

-- An Allow of one of these actions asks for a scope.
abbrev asks_for_scope : Statement → Bool
asks_for_scope s =
    not (is_allow s.effect)
    || not (any (match_action s.actions) scoped_actions)
    || any scope_entry s.condition

member_roles :
    (keys : List String) → any is_unscoped_role keys ≡ false → all is_member_role keys ≡ true
member_roles [] h = refl
member_roles (key ∷ keys) h = ground (arith, member_roles keys)

module _ (p : Actor) (r : Target) (outside : (in_class p r || in_org p r) ≡ false) where
  scope_entry_fails : (e : String × String) → scope_entry e ≡ true → eval_condition e p r ≡ false
  scope_entry_fails (k, v) h = ground (
    arith,
    λ (same : str_eq k "inScope" ≡ true).
        ap (λ x. eval_condition (x, v) p r) ((eq_iff k "inScope").0 same),
  )

  scope_conditions_fail :
      (cond : List (String × String))
      → any scope_entry cond ≡ true
      → eval_conditions cond p r ≡ false
  unfolding eval_conditions
  scope_conditions_fail [] h = cc
  scope_conditions_fail (e ∷ cond) h =
      ground (arith, scope_entry_fails e, scope_conditions_fail cond)

  module _ (a : Action) (scoped : contains scoped_actions a ≡ true) where
    not_allowed : (s : Statement) → asks_for_scope s ≡ true → allows p a r s ≡ false
    unfolding applies
    not_allowed s h = ground (
      arith,
      any-contains (match_action s.actions) a scoped_actions scoped,
      scope_conditions_fail s.condition,
    )

-- An actor who is neither a platform administrator nor platform support, whatever its other roles
-- are, is permitted an action on a class other than class:Create and class:Join, on its members or its
-- content, or on an organization, only inside a scope of its own: the resource belongs to the actor's
-- class, or to an organization in which the actor has a role.
pub scoped_actions_stay_in_scope :
    (p : Actor) (a : Action) (r : Target)
    → contains scoped_actions a ≡ true
    → any is_unscoped_role (effective_role_keys p r) ≡ false
    → can p a r ≡ true
    → (in_class p r || in_org p r) ≡ true
scoped_actions_stay_in_scope p a r scoped members permitted =
    let keys = effective_role_keys p r in
    let checked : all asks_for_scope (granted keys) ≡ true =
      granted-check is_member_role asks_for_scope keys
        (unfold managed_policies match_action in refl) (member_roles keys members) in
    elim (Bool-cases (in_class p r || in_org p r)) [
      | inl inside ↦ inside
      | inr outside ↦ ground (
        arith,
        can_iam_rule p a r,
        any-false asks_for_scope (allows p a r) (granted keys) (not_allowed p r outside a scoped)
            checked,
      )
    ]

-- The actions on a class that no class teacher may do.
abbrev pub owner_only : List Action
owner_only = Actions.class_delete ∷ Actions.class_reset_invite ∷ []

class_name_matches :
    (b : Bool) (n : String)
    → any
        (λ p. resource_pattern p (
          if b
          then append "hq:" (append "class" (append "/" n))
          else append "hq:" (append "class" "/*")))
        ("hq:class/*" ∷ [])
      ≡ true
class_name_matches true n = refl
class_name_matches false n = refl

module _ (p : Actor) (r : Target) (is_class : r.kind ≡ "class") where
  class_pattern : match_resource ("hq:class/*" ∷ []) r ≡ true
  unfolding match_resource arn
  class_pattern = rw is_class (class_name_matches (is_positive r.id) (format_int (pos_part r.id)))

  class_action : (a : Action) → contains owner_only a ≡ true → match_action owner_only a ≡ true
  unfolding match_action
  class_action a h = ground arith

  module _ (a : Action) (owners : contains owner_only a ≡ true)
      (plain : contains (resolved_platform_roles p) Roles.platform_admin ≡ false)
      (inside : in_class p r ≡ true) where
    teacher_policy : any (denies p a r) (granted (Roles.class_teacher ∷ [])) ≡ true
    unfolding granted find_policy managed_policies applies eval_conditions
    teacher_policy = ground (arith, plain, inside, class_action a owners, class_pattern)

    teacher_key : p.class_role ≡ "teacher" → contains (class_keys p r) Roles.class_teacher ≡ true
    unfolding class_keys
    teacher_key e = rw e (ground (arith, inside))

    teacher_effective :
        p.class_role ≡ "teacher" → contains (effective_role_keys p r) Roles.class_teacher ≡ true
    unfolding effective_role_keys
    teacher_effective e = ground (
      arith,
      teacher_key e,
      contains-append (resolved_platform_roles p ++ class_keys p r) (org_role_keys p r.org_id)
          Roles.class_teacher,
      contains-append (resolved_platform_roles p) (class_keys p r) Roles.class_teacher,
    )

-- A teacher of a class who is no platform administrator can neither delete the class nor reset its
-- invite code, not even as an administrator of the class's organization: the Deny wins.
pub class_teacher_never_owner :
    (p : Actor) (a : Action) (r : Target)
    → r.kind ≡ "class"
    → p.class_role ≡ "teacher"
    → in_class p r ≡ true
    → contains (resolved_platform_roles p) Roles.platform_admin ≡ false
    → contains owner_only a ≡ true
    → can p a r ≡ false
class_teacher_never_owner p a r is_class is_teacher inside plain owners = ground (
  arith,
  can_iam_rule p a r,
  granted-contains (denies p a r) Roles.class_teacher (effective_role_keys p r)
      (teacher_policy p r is_class a owners plain inside)
      (teacher_effective p r is_class a owners plain inside is_teacher),
)

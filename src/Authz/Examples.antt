-- ===== src/Authz/Examples.antt =====
-- The authorization of some actors: tests of the evaluation, and its theorems at work.
use hquizlet_platform.Prelude.{
  ◌≡◌, refl, true, false, not, ◌&&◌, ◌||◌, String, List, [], ◌∷◌, any, inr,
}
use hquizlet_platform.Prelude.Int.{pos}
use hquizlet_platform.Prelude.Decimal.{format_int}
use hquizlet_platform.Authz.Actions
use hquizlet_platform.Authz.Roles
use hquizlet_platform.Authz.Resource.{Target, match_action, match_resource, arn}
use hquizlet_platform.Authz.Principal.{
  Actor, effective_role_keys, resolved_platform_roles, org_role_keys, class_keys,
}
use hquizlet_platform.Authz.Policies.{managed_policies, find_policy}
use hquizlet_platform.Authz.Evaluator.{
  eval_conditions, can, applies, scan_statements, scan_roles, in_class, in_org,
}
use hquizlet_platform.Authz.Evaluator.Decision.{granted, allows, denies, can_iam_rule}
use hquizlet_platform.Authz.Evaluator.Admin.{admin_permitted}
use hquizlet_platform.Authz.Evaluator.Ownership.{study_own_needs_owner}
use hquizlet_platform.Authz.Evaluator.Scopes.{scoped_actions_stay_in_scope}

abbrev nobody : Actor
nobody = record {
  user_id = pos 1;
  legacy_role = "";
  platform_roles = [];
  class_role = "";
  class_id = pos 0;
  org_roles = [];
}

abbrev admin : Actor
admin = record nobody { legacy_role = "admin"; platform_roles = Roles.student ∷ [] }

abbrev plain_teacher : Actor
plain_teacher = record nobody { platform_roles = Roles.teacher ∷ [] }

abbrev class_helper : Actor
class_helper = record nobody {
  class_role = "teacher";
  class_id = pos 5;
  org_roles = (pos 8, Roles.org_admin ∷ []) ∷ [];
}

abbrev own_set : Target
own_set = record {
  kind = "study-set";
  id = pos 12;
  owner_user_id = pos 1;
  class_id = pos 0;
  org_id = pos 0;
}

abbrev other_set : Target
other_set = record own_set { owner_user_id = pos 2 }

abbrev the_class : Target
the_class = record {
  kind = "class";
  id = pos 5;
  owner_user_id = pos 2;
  class_id = pos 5;
  org_id = pos 8;
}

own_name : arn own_set ≡ "hq:study-set/12"
unfolding arn format_int
own_name = refl

teacher_updates_own : can plain_teacher Actions.study_set_update own_set ≡ true
unfolding can scan_roles scan_statements applies effective_role_keys resolved_platform_roles
    class_keys org_role_keys find_policy managed_policies match_action match_resource arn
    eval_conditions
teacher_updates_own = refl

teacher_updates_other : can plain_teacher Actions.study_set_update other_set ≡ false
unfolding can scan_roles scan_statements applies effective_role_keys resolved_platform_roles
    class_keys org_role_keys find_policy managed_policies match_action match_resource arn
    eval_conditions
teacher_updates_other = refl

helper_reads_class : can class_helper Actions.class_read the_class ≡ true
unfolding can scan_roles scan_statements applies effective_role_keys resolved_platform_roles
    class_keys org_role_keys find_policy managed_policies match_action match_resource arn
    eval_conditions
helper_reads_class = refl

-- An organization administrator may delete the class where the role in the class allows it.
org_admin_deletes_class :
    can (record class_helper { class_role = "" }) Actions.class_delete the_class ≡ true
unfolding can scan_roles scan_statements applies effective_role_keys resolved_platform_roles
    class_keys org_role_keys find_policy managed_policies match_action match_resource arn
    eval_conditions
org_admin_deletes_class = refl

can_iam_rule_example : can plain_teacher Actions.study_set_update other_set ≡ (
    any
      (allows plain_teacher Actions.study_set_update other_set)
      (granted (effective_role_keys plain_teacher other_set))
    && not (
        any
          (denies plain_teacher Actions.study_set_update other_set)
          (granted (effective_role_keys plain_teacher other_set))))
can_iam_rule_example = can_iam_rule plain_teacher Actions.study_set_update other_set

admin_permitted_example : can admin Actions.study_set_delete other_set ≡ true
admin_permitted_example = admin_permitted admin Actions.study_set_delete other_set (inr refl)

study_own_needs_owner_example : can plain_teacher Actions.study_set_update other_set ≡ false
unfolding effective_role_keys resolved_platform_roles org_role_keys
study_own_needs_owner_example =
    study_own_needs_owner plain_teacher Actions.study_set_update other_set refl refl refl

abbrev student_helper : Actor
student_helper = record class_helper { legacy_role = "user"; platform_roles = Roles.student ∷ [] }

scoped_actions_stay_in_scope_example :
    (in_class student_helper the_class || in_org student_helper the_class) ≡ true
unfolding can scan_roles scan_statements applies effective_role_keys resolved_platform_roles
    class_keys org_role_keys find_policy managed_policies match_action match_resource arn
    eval_conditions
scoped_actions_stay_in_scope_example =
    scoped_actions_stay_in_scope student_helper Actions.class_member_add the_class refl refl refl

abbrev scope_first : List (String × String)
scope_first = ("inScope", "class") ∷ ("resourceOwner", "self") ∷ []

abbrev owner_first : List (String × String)
owner_first = ("resourceOwner", "self") ∷ ("inScope", "class") ∷ []

-- ===== src/Authz/Policies.antt =====
-- packages/authz/roles.go: the managed policies.
use hquizlet_platform.Prelude.{String, List, [], ◌∷◌, Option, none, some, str_eq, if◌then◌else◌}
use hquizlet_platform.Authz.Actions
use hquizlet_platform.Authz.Roles
use hquizlet_platform.Authz.Roles.{allow, deny, Statement, Policy}

abbrev pub all_study_own : List String
all_study_own =
    Actions.study_set_create ∷ Actions.study_set_read ∷ Actions.study_set_update
    ∷ Actions.study_set_delete ∷ Actions.study_set_publish ∷ Actions.study_set_import
    ∷ Actions.study_set_export ∷ []

abbrev study_own_allow : Statement
study_own_allow = record {
  effect = allow;
  actions = all_study_own;
  resources = "hq:study-set/*" ∷ [];
  condition = ("resourceOwner", "self") ∷ [];
}

abbrev study_own_deny_others : Statement
study_own_deny_others = record {
  effect = deny;
  actions = all_study_own;
  resources = "hq:study-set/*" ∷ [];
  condition = ("resourceOwner", "notSelf") ∷ ("withoutPlatformRole", Roles.platform_admin) ∷ [];
}

-- The value is RoleTeacher + "," + RolePlatformAdmin.
abbrev deny_set_price : Statement
deny_set_price = record {
  effect = deny;
  actions = Actions.study_set_set_price ∷ [];
  resources = "hq:study-set/*" ∷ [];
  condition = ("withoutPlatformRole", "Teacher,PlatformAdmin") ∷ [];
}

abbrev policy : List Statement → Policy
policy ss = record { version = "2026-10-01"; statements = ss }

abbrev platform_admin : List Statement
platform_admin =
    record { effect = allow; actions = "*" ∷ []; resources = "hq:*" ∷ []; condition = [] } ∷ []

abbrev platform_support : List Statement
platform_support =
    record {
      effect = allow;
      actions =
          Actions.user_list ∷ Actions.class_read ∷ Actions.order_list_all ∷ Actions.audit_read ∷ [];
      resources = "hq:*" ∷ [];
      condition = [];
    }
    ∷ []

abbrev teacher : List Statement
teacher =
    study_own_allow
    ∷ study_own_deny_others
    ∷ record {
      effect = allow;
      actions = Actions.study_set_set_price ∷ [];
      resources = "hq:study-set/*" ∷ [];
      condition = ("resourceOwner", "self") ∷ [];
    }
    ∷ record {
      effect = allow;
      actions =
          Actions.class_create ∷ Actions.class_join ∷ Actions.live_host
          ∷ Actions.dashboard_view_self ∷ [];
      resources = "hq:*" ∷ [];
      condition = [];
    }
    ∷ record {
      effect = allow;
      actions = Actions.wallet_read ∷ Actions.order_create ∷ [];
      resources = "hq:*" ∷ [];
      condition = [];
    }
    ∷ []

abbrev student : List Statement
student =
    study_own_allow
    ∷ study_own_deny_others
    ∷ deny_set_price
    ∷ record {
      effect = allow;
      actions =
          Actions.class_join ∷ Actions.live_join ∷ Actions.dashboard_view_self
          ∷ Actions.quiz_attempt ∷ [];
      resources = "hq:*" ∷ [];
      condition = [];
    }
    ∷ record {
      effect = allow;
      actions = Actions.wallet_read ∷ Actions.order_create ∷ [];
      resources = "hq:*" ∷ [];
      condition = [];
    }
    ∷ []

abbrev class_owner : List Statement
class_owner =
    record {
      effect = allow;
      actions =
          Actions.class_read ∷ Actions.class_update ∷ Actions.class_delete
          ∷ Actions.class_reset_invite ∷ Actions.class_view_dashboard ∷ Actions.class_member_list
          ∷ Actions.class_member_add ∷ Actions.class_member_remove
          ∷ Actions.class_member_update_role ∷ Actions.class_member_view_progress
          ∷ Actions.class_content_assign ∷ Actions.class_content_unassign
          ∷ Actions.class_content_upload ∷ Actions.class_content_view ∷ Actions.live_host ∷ [];
      resources = "hq:class/*" ∷ [];
      condition = ("inScope", "class") ∷ [];
    }
    ∷ []

abbrev class_teacher : List Statement
class_teacher =
    record {
      effect = allow;
      actions =
          Actions.class_read ∷ Actions.class_view_dashboard ∷ Actions.class_member_list
          ∷ Actions.class_member_add ∷ Actions.class_member_remove
          ∷ Actions.class_member_update_role ∷ Actions.class_member_view_progress
          ∷ Actions.class_content_assign ∷ Actions.class_content_unassign
          ∷ Actions.class_content_upload ∷ Actions.class_content_view ∷ Actions.live_host ∷ [];
      resources = "hq:class/*" ∷ [];
      condition = ("inScope", "class") ∷ [];
    }
    ∷ record {
      effect = deny;
      actions = Actions.class_delete ∷ Actions.class_reset_invite ∷ [];
      resources = "hq:class/*" ∷ [];
      condition = ("withoutPlatformRole", Roles.platform_admin) ∷ ("inScope", "class") ∷ [];
    }
    ∷ []

abbrev class_student : List Statement
class_student =
    record {
      effect = allow;
      actions =
          Actions.class_read ∷ Actions.class_view_dashboard ∷ Actions.class_member_list
          ∷ Actions.class_content_view ∷ Actions.live_join ∷ Actions.quiz_attempt ∷ [];
      resources = "hq:class/*" ∷ [];
      condition = ("inScope", "class") ∷ [];
    }
    ∷ record {
      effect = allow;
      actions = Actions.class_member_view_progress ∷ [];
      resources = "hq:class/*" ∷ [];
      condition = ("inScope", "class") ∷ ("resourceOwner", "self") ∷ [];
    }
    ∷ record {
      effect = deny;
      actions = Actions.class_member_view_progress ∷ [];
      resources = "hq:class/*" ∷ [];
      condition =
          ("withoutPlatformRole", Roles.platform_admin)
          ∷ ("inScope", "class")
          ∷ ("resourceOwner", "notSelf")
          ∷ [];
    }
    ∷ []

abbrev org_admin : List Statement
org_admin =
    record {
      effect = allow;
      actions =
          Actions.org_read ∷ Actions.org_update ∷ Actions.org_invite_member
          ∷ Actions.org_view_dashboard ∷ [];
      resources = "hq:org/*" ∷ [];
      condition = ("inScope", "org") ∷ [];
    }
    ∷ record {
      effect = allow;
      actions =
          Actions.class_create ∷ Actions.class_read ∷ Actions.class_update ∷ Actions.class_delete
          ∷ Actions.class_reset_invite ∷ Actions.class_view_dashboard ∷ Actions.class_member_list
          ∷ Actions.class_member_add ∷ Actions.class_member_remove
          ∷ Actions.class_member_update_role ∷ Actions.class_member_view_progress
          ∷ Actions.class_content_assign ∷ Actions.class_content_unassign
          ∷ Actions.class_content_upload ∷ Actions.class_content_view ∷ Actions.live_host ∷ [];
      resources = "hq:class/*" ∷ [];
      condition = ("inScope", "org") ∷ [];
    }
    ∷ []

abbrev org_teacher : List Statement
org_teacher =
    record {
      effect = allow;
      actions = Actions.org_read ∷ Actions.org_view_dashboard ∷ [];
      resources = "hq:org/*" ∷ [];
      condition = ("inScope", "org") ∷ [];
    }
    ∷ record {
      effect = allow;
      actions =
          Actions.class_read ∷ Actions.class_view_dashboard ∷ Actions.class_member_list
          ∷ Actions.class_member_add ∷ Actions.class_member_remove
          ∷ Actions.class_member_update_role ∷ Actions.class_member_view_progress
          ∷ Actions.class_content_assign ∷ Actions.class_content_unassign
          ∷ Actions.class_content_upload ∷ Actions.class_content_view ∷ Actions.live_host ∷ [];
      resources = "hq:class/*" ∷ [];
      condition = ("inScope", "org") ∷ [];
    }
    ∷ record {
      effect = deny;
      actions = Actions.class_delete ∷ Actions.class_reset_invite ∷ [];
      resources = "hq:class/*" ∷ [];
      condition = ("withoutPlatformRole", Roles.platform_admin) ∷ ("inScope", "org") ∷ [];
    }
    ∷ []

abbrev org_student : List Statement
org_student =
    record {
      effect = allow;
      actions =
          Actions.class_read ∷ Actions.class_view_dashboard ∷ Actions.class_member_list
          ∷ Actions.class_content_view ∷ Actions.live_join ∷ Actions.quiz_attempt ∷ [];
      resources = "hq:class/*" ∷ [];
      condition = ("inScope", "org") ∷ [];
    }
    ∷ record {
      effect = allow;
      actions = Actions.class_member_view_progress ∷ [];
      resources = "hq:class/*" ∷ [];
      condition = ("inScope", "org") ∷ ("resourceOwner", "self") ∷ [];
    }
    ∷ record {
      effect = deny;
      actions = Actions.class_member_view_progress ∷ [];
      resources = "hq:class/*" ∷ [];
      condition =
          ("withoutPlatformRole", Roles.platform_admin)
          ∷ ("inScope", "org")
          ∷ ("resourceOwner", "notSelf")
          ∷ [];
    }
    ∷ []

-- managedPolicies
unfoldable pub managed_policies : List (String × Policy)
managed_policies =
    (Roles.platform_admin, policy platform_admin)
    ∷ (Roles.platform_support, policy platform_support)
    ∷ (Roles.teacher, policy teacher)
    ∷ (Roles.student, policy student)
    ∷ (Roles.class_owner, policy class_owner)
    ∷ (Roles.class_teacher, policy class_teacher)
    ∷ (Roles.class_student, policy class_student)
    ∷ (Roles.org_admin, policy org_admin)
    ∷ (Roles.org_teacher, policy org_teacher)
    ∷ (Roles.org_student, policy org_student)
    ∷ []

-- The read of the Go map.
unfoldable pub find_policy : String → List (String × Policy) → Option Policy
find_policy key [] = none
find_policy key ((k, pol) ∷ m) = if str_eq k key then some pol else find_policy key m

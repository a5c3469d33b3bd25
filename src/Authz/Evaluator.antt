-- ===== src/Authz/Evaluator.antt =====
-- packages/authz/evaluator.go: the evaluation of the policies.
pub mod Decision
pub mod Tables
pub mod Admin
pub mod Ownership
pub mod Scopes
pub mod Conditions
use hquizlet_platform.Prelude.{
  Bool, true, false, not, ◌&&◌, String, List, [], ◌∷◌, Option, none, some, str_eq, if◌then◌else◌,
}
use hquizlet_platform.Prelude.Int.{eq_ℤ, is_positive}
use hquizlet_platform.Prelude.Text.{split_comma}
use hquizlet_platform.Authz.Actions
use hquizlet_platform.Authz.Actions.{Action}
use hquizlet_platform.Authz.Roles.{Effect, allow, deny, Statement, Policy}
use hquizlet_platform.Authz.Resource.{Target, match_resource, match_action}
use hquizlet_platform.Authz.Principal.{
  Actor, contains, org_role_keys, resolved_platform_roles, effective_role_keys,
}
use hquizlet_platform.Authz.Policies.{managed_policies, find_policy}

-- The inner loop of the case withoutPlatformRole: false where the actor has one of the roles.
abbrev pub lacks_roles : Actor → List String → Bool
lacks_roles p [] = true
lacks_roles p (role ∷ roles) =
    if contains (resolved_platform_roles p) role then false else lacks_roles p roles

abbrev pub is_self : Actor → Target → Bool
is_self p res = is_positive res.owner_user_id && eq_ℤ res.owner_user_id p.user_id

-- `p.ClassID <= 0 || res.ClassID <= 0 || p.ClassID != res.ClassID`, negated
abbrev pub in_class : Actor → Target → Bool
in_class p res = is_positive p.class_id && is_positive res.class_id && eq_ℤ p.class_id res.class_id

abbrev is_nil : List String → Bool
is_nil [] = true
is_nil (_ ∷ _) = false

abbrev pub in_org : Actor → Target → Bool
in_org p res = is_positive res.org_id && not (is_nil (org_role_keys p res.org_id))

-- One turn of the loop of evalConditions: whether the entry lets the loop go on.
abbrev pub eval_condition : String × String → Actor → Target → Bool
eval_condition (k, v) p res =
    if str_eq k "withoutPlatformRole"
    then lacks_roles p (split_comma v)
    else if str_eq k "resourceOwner"
    then if str_eq v "self"
      then is_self p res
      else if str_eq v "notSelf"
      then not (is_self p res)
      else false
    else if str_eq k "inScope"
    then if str_eq v "class" then in_class p res else if str_eq v "org" then in_org p res else false
    else false

-- evalConditions
unfoldable pub eval_conditions : List (String × String) → Actor → Target → Bool
eval_conditions [] p res = true
eval_conditions (entry ∷ cond) p res =
    if eval_condition entry p res then eval_conditions cond p res else false

-- The three tests of the inner loop of Can.
unfoldable pub applies : Actor → Action → Target → Statement → Bool
applies p action res stmt =
    match_action stmt.actions action
    && match_resource stmt.resources res
    && eval_conditions stmt.condition p res

-- The variables `allowed` and `denied` of Can.
pub record Verdict : Type 0 where
  pub allowed : Bool
  pub denied : Bool

abbrev pub note_effect : Effect → Verdict → Verdict
note_effect deny v = record v { denied = true }
note_effect allow v = record v { allowed = true }

unfoldable pub scan_statements : Actor → Action → Target → List Statement → Verdict → Verdict
scan_statements p action res [] v = v
scan_statements p action res (stmt ∷ ss) v =
    scan_statements p action res ss
      (if applies p action res stmt then note_effect stmt.effect v else v)

-- A role key with no managed policy is skipped.
abbrev pub statements_of : Option Policy → List Statement
statements_of none = []
statements_of (some pol) = pol.statements

unfoldable pub scan_roles : Actor → Action → Target → List String → Verdict → Verdict
scan_roles p action res [] v = v
scan_roles p action res (key ∷ keys) v =
    scan_roles p action res keys
      (scan_statements p action res (statements_of (find_policy key managed_policies)) v)

-- Can
unfoldable pub can : Actor → Action → Target → Bool
can p action res =
    let v =
      scan_roles p action res (effective_role_keys p res)
        (record { allowed = false; denied = false }) in
    if v.denied then false else v.allowed

-- The list in EffectiveActions.
abbrev pub all_actions : List Action
all_actions =
    Actions.study_set_create ∷ Actions.study_set_read ∷ Actions.study_set_update
    ∷ Actions.study_set_delete ∷ Actions.study_set_publish ∷ Actions.study_set_import
    ∷ Actions.study_set_export ∷ Actions.study_set_set_price ∷ Actions.quiz_attempt
    ∷ Actions.quiz_view_answers ∷ Actions.quiz_view_results ∷ Actions.class_create
    ∷ Actions.class_read ∷ Actions.class_update ∷ Actions.class_delete ∷ Actions.class_reset_invite
    ∷ Actions.class_join ∷ Actions.class_view_dashboard ∷ Actions.class_member_list
    ∷ Actions.class_member_add ∷ Actions.class_member_remove ∷ Actions.class_member_update_role
    ∷ Actions.class_member_view_progress ∷ Actions.class_content_assign
    ∷ Actions.class_content_unassign ∷ Actions.class_content_upload ∷ Actions.class_content_view
    ∷ Actions.live_host ∷ Actions.live_join ∷ Actions.wallet_read ∷ Actions.order_create
    ∷ Actions.order_list_all ∷ Actions.wallet_credit ∷ Actions.user_read_self
    ∷ Actions.user_update_self ∷ Actions.user_list ∷ Actions.user_disable ∷ Actions.iam_list_roles
    ∷ Actions.iam_list_assignments ∷ Actions.iam_assign_role ∷ Actions.iam_revoke_role
    ∷ Actions.dashboard_view_self ∷ Actions.dashboard_view_admin ∷ Actions.audit_read
    ∷ Actions.org_create ∷ Actions.org_read ∷ Actions.org_update ∷ Actions.org_invite_member
    ∷ Actions.org_view_dashboard ∷ []

-- The loop of EffectiveActions.
unfoldable pub allowed_actions : Actor → Target → List Action → List Action
allowed_actions p res [] = []
allowed_actions p res (a ∷ rest_actions) =
    let rest = allowed_actions p res rest_actions in if can p a res then a ∷ rest else rest

unfoldable pub effective_actions : Actor → Target → List Action
unfolding allowed_actions
effective_actions p res = allowed_actions p res all_actions

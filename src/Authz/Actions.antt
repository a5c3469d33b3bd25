-- ===== src/Authz/Actions.antt =====
-- packages/authz/actions.go: an action is the text service:Verb. The managed policies write the
-- Action constants below; a caller may pass any text.
use hquizlet_platform.Prelude.{String}

abbrev pub Action : Type 0
Action = String

abbrev pub study_set_create : Action
study_set_create = "study-set:Create"

abbrev pub study_set_read : Action
study_set_read = "study-set:Read"

abbrev pub study_set_update : Action
study_set_update = "study-set:Update"

abbrev pub study_set_delete : Action
study_set_delete = "study-set:Delete"

abbrev pub study_set_publish : Action
study_set_publish = "study-set:Publish"

abbrev pub study_set_import : Action
study_set_import = "study-set:Import"

abbrev pub study_set_export : Action
study_set_export = "study-set:Export"

abbrev pub study_set_set_price : Action
study_set_set_price = "study-set:SetPrice"

abbrev pub quiz_attempt : Action
quiz_attempt = "quiz:Attempt"

abbrev pub quiz_view_answers : Action
quiz_view_answers = "quiz:ViewAnswers"

abbrev pub quiz_view_results : Action
quiz_view_results = "quiz:ViewResults"

abbrev pub class_create : Action
class_create = "class:Create"

abbrev pub class_read : Action
class_read = "class:Read"

abbrev pub class_update : Action
class_update = "class:Update"

abbrev pub class_delete : Action
class_delete = "class:Delete"

abbrev pub class_reset_invite : Action
class_reset_invite = "class:ResetInvite"

abbrev pub class_join : Action
class_join = "class:Join"

abbrev pub class_view_dashboard : Action
class_view_dashboard = "class:ViewDashboard"

abbrev pub class_member_list : Action
class_member_list = "class-member:List"

abbrev pub class_member_add : Action
class_member_add = "class-member:Add"

abbrev pub class_member_remove : Action
class_member_remove = "class-member:Remove"

abbrev pub class_member_update_role : Action
class_member_update_role = "class-member:UpdateRole"

abbrev pub class_member_view_progress : Action
class_member_view_progress = "class-member:ViewProgress"

abbrev pub class_content_assign : Action
class_content_assign = "class-content:AssignStudySet"

abbrev pub class_content_unassign : Action
class_content_unassign = "class-content:UnassignStudySet"

abbrev pub class_content_upload : Action
class_content_upload = "class-content:UploadVideo"

abbrev pub class_content_view : Action
class_content_view = "class-content:ViewVideo"

abbrev pub live_host : Action
live_host = "live:Host"

abbrev pub live_join : Action
live_join = "live:Join"

abbrev pub wallet_read : Action
wallet_read = "wallet:Read"

abbrev pub order_create : Action
order_create = "order:Create"

abbrev pub order_list_all : Action
order_list_all = "order:ListAll"

abbrev pub wallet_credit : Action
wallet_credit = "wallet:Credit"

abbrev pub user_read_self : Action
user_read_self = "user:ReadSelf"

abbrev pub user_update_self : Action
user_update_self = "user:UpdateSelf"

abbrev pub user_list : Action
user_list = "user:List"

abbrev pub user_disable : Action
user_disable = "user:Disable"

abbrev pub iam_list_roles : Action
iam_list_roles = "iam:ListRoles"

abbrev pub iam_list_assignments : Action
iam_list_assignments = "iam:ListAssignments"

abbrev pub iam_assign_role : Action
iam_assign_role = "iam:AssignRole"

abbrev pub iam_revoke_role : Action
iam_revoke_role = "iam:RevokeRole"

abbrev pub dashboard_view_self : Action
dashboard_view_self = "dashboard:ViewSelf"

abbrev pub dashboard_view_admin : Action
dashboard_view_admin = "dashboard:ViewAdmin"

abbrev pub audit_read : Action
audit_read = "audit:Read"

abbrev pub org_create : Action
org_create = "org:Create"

abbrev pub org_read : Action
org_read = "org:Read"

abbrev pub org_update : Action
org_update = "org:Update"

abbrev pub org_invite_member : Action
org_invite_member = "org:InviteMember"

abbrev pub org_view_dashboard : Action
org_view_dashboard = "org:ViewDashboard"

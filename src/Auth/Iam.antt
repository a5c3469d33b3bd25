-- ===== src/Auth/Iam.antt =====
-- services/auth/internal/service/iam.go and validateOrgScopeAssignment of organizations.go, with
-- repository/iam_mutations.go: what administrators do. Each change of IAM is one transaction with its entry of the audit
-- log; a call `admin_tx` that fails rolls it back.
pub mod Removals
use hquizlet_platform.Prelude.{
  ℕ, ◌+◌, Bool, true, false, not, ◌&&◌, ◌||◌, String, List, [], ◌∷◌, Option, none, some, any, ◌==◌,
  str_eq, if◌then◌else◌,
}
use hquizlet_platform.Prelude.Int.{ℤ, pos, pos_part, is_positive}
use hquizlet_platform.Prelude.Text.{has_prefix}
use hquizlet_platform.Authz.Actions.{Action, iam_assign_role}
use hquizlet_platform.Authz.Roles.{
  platform_admin, platform_support, teacher, student, class_owner, class_teacher, class_student,
  org_admin, org_teacher, org_student,
}
use hquizlet_platform.Authz.Resource.{Target}
use hquizlet_platform.Authz.Principal.{Actor, contains}
use hquizlet_platform.Authz.Evaluator.{can}
use hquizlet_platform.Auth.Model.{
  Assignment, allowed, refused, AuditEntry, AuthDb, forbidden, unauthorized, not_found, internal,
  validation, Reply, ok, err, org_exists, admin_tx, Faults,
}
use hquizlet_platform.Auth.Sessions.{user_by_id, audit}
use hquizlet_platform.Auth.Accounts.{same_grant}

-- authz.Resource{Type: "platform"}
abbrev pub platform : Target
platform = record {
  kind = "platform";
  id = pos 0;
  owner_user_id = pos 0;
  class_id = pos 0;
  org_id = pos 0;
}

-- requirePlatform
unfoldable pub require_platform : Actor → Action → Reply {0} Unit
require_platform actor action =
    if not (is_positive actor.user_id)
    then err unauthorized
    else if not (can actor action platform)
    then err forbidden
    else ok tt

abbrev pub entry : Actor → Action → ℤ → Bool → AuditEntry
entry actor action subject granted = record {
  actor_id = actor.user_id;
  action = action;
  subject = subject;
  result = if granted then allowed else refused;
}

-- auditDenied
unfoldable pub audit_denied : Faults → Actor → Action → ℤ → AuthDb → AuthDb
unfolding audit
audit_denied fault actor action subject db =
    if is_positive actor.user_id then audit fault (entry actor action subject false) db else db

-- ManagedRoleKeys and OrgScopedRoleKeys
abbrev pub managed_role_keys : List String
managed_role_keys =
    platform_admin ∷ platform_support ∷ teacher ∷ student ∷ class_owner ∷ class_teacher
    ∷ class_student ∷ org_admin ∷ org_teacher ∷ org_student ∷ []

abbrev pub org_scoped_role_keys : List String
org_scoped_role_keys = org_admin ∷ org_teacher ∷ org_student ∷ []

-- normalizeScope
abbrev pub normalize_scope : String → String
normalize_scope s =
    if str_eq s "" then "platform" else if str_eq s "platform" || str_eq s "org" then s else ""

-- A scope id that is missing or not positive is no scope.
abbrev pub scope_of : Option ℤ → Option ℕ
scope_of none = none
scope_of (some n) = if is_positive n then some (pos_part n) else none

abbrev pub is_missing : Option ℕ → Bool
is_missing none = true
is_missing (some _) = false

-- validateOrgScopeAssignment, of the normalised scope.
unfoldable pub validate_org_scope : Faults → AuthDb → String → String → Option ℕ → Reply {0} Unit
validate_org_scope fault db role_key scope_type scope_id =
    let org_role = contains org_scoped_role_keys role_key in
    if org_role && not (str_eq scope_type "org")
    then err (validation "scopeType")
    else if not (str_eq scope_type "org")
    then ok tt
    else if not org_role
    then err (validation "roleKey")
    else elim scope_id [
      | none ↦ err (validation "scopeId")
      | some org ↦
          if fault org_exists
          then err internal
          else if any (λ o. o.id == org) db.organizations
          then ok tt
          else err (validation "scopeId")
    ]

-- ON CONFLICT DO UPDATE SET expires_at, without an expiry.
unfoldable pub keep_grant : Assignment → List Assignment → List Assignment
keep_grant row [] = []
keep_grant row (a ∷ rows) =
    (if same_grant row a then record a { expires_at = row.expires_at } else a) ∷ keep_grant row rows

-- CreateAssignmentAudited
unfoldable pub create_assignment_audited :
    Faults → Actor → Assignment → AuthDb → AuthDb × Reply {0} Unit
unfolding user_by_id keep_grant
create_assignment_audited fault actor row db =
    if fault admin_tx then (db, err internal) else elim (user_by_id row.principal_id db.users) [
      | none ↦ (db, err not_found)
      | some _ ↦
          let logged = entry actor iam_assign_role (pos row.principal_id) true ∷ db.audit_log in
          if any (same_grant row) db.assignments
          then (
            record db { assignments = keep_grant row db.assignments; audit_log = logged },
            ok tt,
          )
          else (
            record db {
              assignments = row ∷ db.assignments;
              next_assignment = db.next_assignment + 1;
              audit_log = logged;
            },
            ok tt,
          )
    ]

-- The checks of AssignRole behind that of the actor, of the normalised scope.
unfoldable pub check_grant : Faults → AuthDb → ℤ → String → String → Option ℕ → Reply {0} Unit
unfolding validate_org_scope
check_grant fault db target role_key scope_type scoped =
    if not (is_positive target)
    then err (validation "userId")
    else if has_prefix role_key "Class"
    then err (validation "roleKey")
    else if not (contains managed_role_keys role_key)
    then err (validation "roleKey")
    else if str_eq scope_type ""
    then err (validation "scopeType")
    else if str_eq scope_type "org" && is_missing scoped
    then err (validation "scopeId")
    else validate_org_scope fault db role_key scope_type scoped

-- AssignRole behind the check of the actor.
unfoldable pub grant_role :
    Faults → Actor → ℤ → String → String → Option ℤ → AuthDb → AuthDb × Reply {0} Unit
grant_role fault actor target role_key scope scope_id db =
    let scope_type = normalize_scope scope in
    let scoped = if str_eq scope_type "platform" then none else scope_of scope_id in
    elim (check_grant fault db target role_key scope_type scoped) [
      | err e ↦ (db, err e)
      | ok _ ↦
          create_assignment_audited fault actor
            (record {
              id = db.next_assignment;
              principal_id = pos_part target;
              role_key = role_key;
              scope_type = scope_type;
              scope_id = scoped;
              created_by = actor.user_id;
              expires_at = none;
            })
            db
    ]

-- AssignRole
unfoldable pub assign_role :
    Faults → Actor → ℤ → String → String → Option ℤ → AuthDb → AuthDb × Reply {0} Unit
unfolding audit_denied
assign_role fault actor target role_key scope scope_id db =
    elim (require_platform actor iam_assign_role) [
      | err e ↦ (audit_denied fault actor iam_assign_role target db, err e)
      | ok _ ↦ grant_role fault actor target role_key scope scope_id db
    ]

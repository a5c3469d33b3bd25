-- ===== src/Auth/Iam/Removals.antt =====
-- services/auth/internal/service/iam.go, RevokeRole and SetUserDisabled, with their transactions in
-- repository/iam_mutations.go.
use hquizlet_platform.Prelude.{
  ℕ, Bool, true, not, ◌&&◌, List, [], ◌∷◌, Option, none, some, any, ◌==◌, str_eq, if◌then◌else◌,
}
use hquizlet_platform.Prelude.Int.{ℤ, pos, pos_part, eq_ℤ, is_positive}
use hquizlet_platform.Authz.Actions.{iam_revoke_role, user_disable}
use hquizlet_platform.Authz.Roles.{platform_admin}
use hquizlet_platform.Authz.Principal.{Actor}
use hquizlet_platform.Auth.Model.{
  User, Assignment, AuthDb, not_found, internal, validation, Reply, ok, err, admin_tx, Faults,
}
use hquizlet_platform.Auth.Sessions.{is_platform_of, is_current, revoke_user, user_by_id}
use hquizlet_platform.Auth.Iam.{require_platform, entry, audit_denied}

unfoldable pub assignment_by_id : ℕ → List Assignment → Option Assignment
assignment_by_id id [] = none
assignment_by_id id (a ∷ rows) = if a.id == id then some a else assignment_by_id id rows

unfoldable pub delete_assignment : ℕ → List Assignment → List Assignment
delete_assignment id [] = []
delete_assignment id (a ∷ rows) =
    let rest = delete_assignment id rows in if a.id == id then rest else a ∷ rest

-- UPDATE users SET role='user' WHERE id=$1 AND role='admin'
unfoldable pub drop_legacy_admin : ℕ → List User → List User
drop_legacy_admin u [] = []
drop_legacy_admin u (x ∷ us) =
    (if (x.id == u) && str_eq x.role "admin" then record x { role = "user" } else x)
    ∷ drop_legacy_admin u us

-- A grant of PlatformAdmin that has not expired.
abbrev pub is_admin_grant : ℕ → ℕ → Assignment → Bool
is_admin_grant now u a = is_platform_of u a && str_eq a.role_key platform_admin && is_current now a

-- The legacy role after a grant is deleted.
unfoldable pub users_after_revoke : ℕ → Assignment → List Assignment → List User → List User
unfolding drop_legacy_admin
users_after_revoke now a rows us =
    if str_eq a.role_key platform_admin
      && str_eq a.scope_type "platform"
      && not (any (is_admin_grant now a.principal_id) rows)
    then drop_legacy_admin a.principal_id us
    else us

-- RevokeRole with DeleteAssignmentAudited
unfoldable pub revoke_role : Faults → ℕ → Actor → ℕ → AuthDb → AuthDb × Reply {0} Unit
unfolding audit_denied assignment_by_id delete_assignment users_after_revoke
revoke_role fault now actor id db = elim (require_platform actor iam_revoke_role) [
  | err e ↦ (audit_denied fault actor iam_revoke_role (pos id) db, err e)
  | ok _ ↦
      if fault admin_tx then (db, err internal) else elim (assignment_by_id id db.assignments) [
        | none ↦ (db, err not_found)
        | some a ↦
            let rows = delete_assignment id db.assignments in
            (
              record db {
                assignments = rows;
                users = users_after_revoke now a rows db.users;
                audit_log = entry actor iam_revoke_role (pos a.principal_id) true ∷ db.audit_log;
              },
              ok tt,
            )
      ]
]

unfoldable pub set_disabled : ℕ → Bool → List User → List User
set_disabled u disabled [] = []
set_disabled u disabled (x ∷ us) =
    (if x.id == u then record x { disabled = disabled } else x) ∷ set_disabled u disabled us

-- SetUserDisabled with SetUserDisabledAudited
unfoldable pub set_user_disabled : Faults → ℕ → Actor → ℤ → Bool → AuthDb → AuthDb × Reply {0} Unit
unfolding audit_denied user_by_id set_disabled
set_user_disabled fault now actor target disabled db = elim (require_platform actor user_disable) [
  | err e ↦ (audit_denied fault actor user_disable target db, err e)
  | ok _ ↦
      let u = pos_part target in
      if eq_ℤ target actor.user_id
      then (db, err (validation "userId"))
      else if fault admin_tx
      then (db, err internal)
      else if not (is_positive target)
      then (db, err not_found)
      else elim (user_by_id u db.users) [
        | none ↦ (db, err not_found)
        | some _ ↦ (
          record db {
            users = set_disabled u disabled db.users;
            sessions = if disabled then revoke_user now u db.sessions else db.sessions;
            audit_log = entry actor user_disable target true ∷ db.audit_log;
          },
          ok tt,
        )
      ]
]

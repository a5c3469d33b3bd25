-- ===== src/Auth/Sessions.antt =====
-- services/auth/internal/service/service.go and permissions.go, with repository/repository.go: users,
-- sessions and the identity behind a token. A token is drawn at random: `none` where that fails.
use hquizlet_platform.Prelude.{
  ℕ, ◌+◌, Bool, true, false, not, ◌&&◌, ◌||◌, String, List, [], ◌∷◌, Option, none, some, any, ltb,
  ◌==◌, str_eq, if◌then◌else◌,
}
use hquizlet_platform.Prelude.Int.{pos}
use hquizlet_platform.Prelude.Text.{append}
use hquizlet_platform.Prelude.Decimal.{format_int}
use hquizlet_platform.Authz.Roles.{platform_admin, teacher, student}
use hquizlet_platform.Authz.Principal.{Actor, contains}
use hquizlet_platform.Auth.Model.{
  User, Session, Assignment, AuditEntry, AuthDb, invalid_session, expired_session, revoked_session,
  disabled_user, internal, Reply, ok, err, insert_audit, create_session, get_session, list_roles,
  has_assignment, list_org_roles, Faults, AuthFns, Identity,
}

-- GetUserByEmail
unfoldable pub user_by_email : String → List User → Option User
user_by_email email [] = none
user_by_email email (u ∷ us) = if str_eq u.email email then some u else user_by_email email us

unfoldable pub user_by_id : ℕ → List User → Option User
user_by_id id [] = none
user_by_id id (u ∷ us) = if u.id == id then some u else user_by_id id us

unfoldable pub session_of : String → List Session → Option Session
session_of h [] = none
session_of h (s ∷ ss) = if str_eq s.token_hash h then some s else session_of h ss

-- COALESCE(revoked_at, now())
abbrev pub or_now : ℕ → Option ℕ → Option ℕ
or_now now none = some now
or_now now (some t) = some t

abbrev pub revoke : ℕ → Session → Session
revoke now s = record s { revoked_at = or_now now s.revoked_at }

-- DeleteSession
unfoldable pub revoke_token : ℕ → String → List Session → List Session
revoke_token now h [] = []
revoke_token now h (s ∷ ss) =
    (if str_eq s.token_hash h then revoke now s else s) ∷ revoke_token now h ss

-- DeleteAllSessions, and the second statement of SetUserDisabledAudited.
unfoldable pub revoke_user : ℕ → ℕ → List Session → List Session
revoke_user now u [] = []
revoke_user now u (s ∷ ss) = (if s.user_id == u then revoke now s else s) ∷ revoke_user now u ss

-- PruneExpiredSessions
unfoldable pub prune_expired : ℕ → List Session → List Session
prune_expired now [] = []
prune_expired now (s ∷ ss) =
    let rest = prune_expired now ss in if ltb now s.expires_at then s ∷ rest else rest

-- `expires_at IS NULL OR expires_at > now()`
abbrev pub is_current : ℕ → Assignment → Bool
is_current now a = elim a.expires_at [ none ↦ true | some t ↦ ltb now t ]

abbrev pub is_platform_of : ℕ → Assignment → Bool
is_platform_of u a = (a.principal_id == u) && str_eq a.scope_type "platform"

-- ListPlatformRoleKeys
unfoldable pub platform_role_keys : ℕ → ℕ → List Assignment → List String
platform_role_keys now u [] = []
platform_role_keys now u (a ∷ rows) =
    let rest = platform_role_keys now u rows in
    if is_platform_of u a && is_current now a then a.role_key ∷ rest else rest

-- FormatOrgRole of the rows that ListOrgRoleEntries selects.
unfoldable pub org_role_entries : ℕ → ℕ → List Assignment → List String
org_role_entries now u [] = []
org_role_entries now u (a ∷ rows) =
    let rest = org_role_entries now u rows in
    if (a.principal_id == u) && str_eq a.scope_type "org" && is_current now a
    then elim a.scope_id [
      | none ↦ rest
      | some org ↦ append (format_int org) (append ":" a.role_key) ∷ rest
    ]
    else rest

abbrev is_empty : List String → Bool
is_empty [] = true
is_empty (_ ∷ _) = false

-- loadPlatformRoles
unfoldable pub load_platform_roles : Faults → ℕ → AuthDb → User → Reply (List String)
unfolding platform_role_keys
load_platform_roles fault now db u =
    let roles = platform_role_keys now u.id db.assignments in
    if fault list_roles
    then err internal
    else if not (is_empty roles)
    then ok roles
    else if fault has_assignment
    then err internal
    else if any (is_platform_of u.id) db.assignments
    then ok []
    else if str_eq u.role "admin"
    then ok (platform_admin ∷ [])
    else ok (student ∷ [])

-- legacyRoleFromPlatformRoles
unfoldable pub legacy_role : List String → String
legacy_role roles = if contains roles platform_admin then "admin" else "user"

-- platformRoleForRegistration of the account type in small letters.
abbrev pub role_for_registration : String → String
role_for_registration t =
    if str_eq t "teacher" || str_eq t "giaovien" || str_eq t "giáo viên" then teacher else student

-- principalFromRequest, of the headers that the gateway fills from an identity.
abbrev pub actor_of : Identity → Actor
actor_of i = record {
  user_id = pos i.user_id;
  legacy_role = i.role;
  platform_roles = i.platform_roles;
  class_role = "";
  class_id = pos 0;
  org_roles = [];
}

-- The first statement of InsertAuditLog's callers; its own failure is ignored.
unfoldable pub audit : Faults → AuditEntry → AuthDb → AuthDb
audit fault e db = if fault insert_audit then db else record db { audit_log = e ∷ db.audit_log }

module _ (t : AuthFns) where
  -- verifiedIdentity
  unfoldable pub verified_identity : Faults → ℕ → AuthDb → String → Reply (Identity × User)
  verified_identity fault now db token =
      if str_eq (t.trim token) ""
      then err invalid_session
      else elim (session_of (t.hash_token token) db.sessions) [
        | none ↦ err invalid_session
        | some s ↦ elim (user_by_id s.user_id db.users) [
          | none ↦ err invalid_session
          | some u ↦
              if fault get_session
              then err invalid_session
              else if u.disabled
              then err disabled_user
              else elim s.revoked_at [
                | some _ ↦ err revoked_session
                | none ↦
                    if not (ltb now s.expires_at)
                    then err expired_session
                    else elim (load_platform_roles fault now db u) [
                      | err e ↦ err e
                      | ok roles ↦
                          if fault list_org_roles
                          then err internal
                          else ok (
                            record {
                              user_id = u.id;
                              email = u.email;
                              name = u.name;
                              role = legacy_role roles;
                              platform_roles = roles;
                              org_roles =
                                  org_role_entries now u.id (t.by_scope_and_role db.assignments);
                              expires_at = s.expires_at;
                            },
                            u,
                          )
                    ]
              ]
        ]
      ]

  -- newSession: the token of the session.
  unfoldable pub new_session :
      Faults → ℕ → ℕ → Option String → User → AuthDb → AuthDb × Reply String
  new_session fault now ttl none u db = (db, err internal)
  new_session fault now ttl (some token) u db =
      let h = t.hash_token token in
      if fault create_session || any (λ s. str_eq s.token_hash h) db.sessions
      then (db, err internal)
      else (
        record db {
          sessions =
              record { user_id = u.id; token_hash = h; expires_at = now + ttl; revoked_at = none }
              ∷ db.sessions;
        },
        ok token,
      )

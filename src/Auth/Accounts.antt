-- ===== src/Auth/Accounts.antt =====
-- services/auth/internal/service/service.go and reauth.go: registration, login, and what users do
-- with their own sessions and profile.
use hquizlet_platform.Prelude.{
  ℕ, ◌+◌, Bool, true, false, not, ◌&&◌, ◌||◌, String, List, [], ◌∷◌, Option, none, some, any, ltb,
  ◌==◌, str_eq, if◌then◌else◌,
}
use hquizlet_platform.Prelude.Int.{pos}
use hquizlet_platform.Prelude.Text.{byte_length}
use hquizlet_platform.Authz.Actions.{iam_assign_role}
use hquizlet_platform.Auth.Model.{
  User, Assignment, allowed, AuthDb, AuthError, email_taken, invalid_credential, invalid_session,
  disabled_user, not_found, internal, validation, Reply, ok, err, get_user, create_user,
  create_assignment, update_session, update_user, Faults, AuthFns,
}
use hquizlet_platform.Auth.Sessions.{
  user_by_email, revoke_token, revoke_user, role_for_registration, audit, verified_identity,
  new_session,
}

pub record RegisterInput : Type 0 where
  pub name : String
  pub email : String
  pub password : String
  pub account_type : String

-- UNIQUE (principal_type, principal_id, role_key, scope_type, scope_id), where NULL equals NULL.
abbrev pub same_scope : Option ℕ → Option ℕ → Bool
same_scope none none = true
same_scope (some a) (some b) = a == b
same_scope _ _ = false

abbrev pub same_grant : Assignment → Assignment → Bool
same_grant a b =
    (a.principal_id == b.principal_id)
    && str_eq a.role_key b.role_key
    && str_eq a.scope_type b.scope_type
    && same_scope a.scope_id b.scope_id

-- CreatePlatformAssignment: ON CONFLICT DO NOTHING.
unfoldable pub create_platform_assignment : ℕ → String → AuthDb → AuthDb
create_platform_assignment u role_key db =
    let row : Assignment = record {
      id = db.next_assignment;
      principal_id = u;
      role_key = role_key;
      scope_type = "platform";
      scope_id = none;
      created_by = pos u;
      expires_at = none;
    } in
    if any (same_grant row) db.assignments
    then db
    else record db { assignments = row ∷ db.assignments; next_assignment = db.next_assignment + 1 }

unfoldable pub set_profile : ℕ → String → List User → List User
set_profile u name [] = []
set_profile u name (x ∷ us) =
    (if x.id == u then record x { name = name } else x) ∷ set_profile u name us

module _ (t : AuthFns) where
  -- validateRegister, of an input whose name and address are trimmed.
  unfoldable pub validate_register : RegisterInput → Option AuthError
  validate_register i =
      if str_eq i.name ""
      then some (validation "name")
      else if not (t.valid_email i.email)
      then some (validation "email")
      else if ltb (byte_length i.password) 6
      then some (validation "password")
      else none

  -- The row that CreateUser inserts.
  abbrev pub new_user : ℕ → String → String → String → User
  new_user id name email hash = record {
    id = id;
    name = name;
    email = email;
    password_hash = hash;
    role = "user";
    disabled = false;
  }

  -- What Register does once the row of the user is stored.
  unfoldable pub enrol :
      Faults → ℕ → ℕ → Option String → User → String → AuthDb → AuthDb × Reply String
  enrol fault now ttl token u role_key db =
      if fault create_assignment
      then (db, err internal)
      else new_session t fault now ttl token u (
          audit fault
            (record {
              actor_id = pos u.id;
              action = iam_assign_role;
              subject = pos u.id;
              result = allowed;
            })
            (create_platform_assignment u.id role_key db))

  -- Register
  unfoldable pub register :
      Faults → ℕ → ℕ → Option String → RegisterInput → AuthDb → AuthDb × Reply String
  register fault now ttl token input db =
      let i : RegisterInput = record input {
        name = t.trim input.name;
        email = t.lower (t.trim input.email);
      } in
      elim (validate_register i) [
        | some e ↦ (db, err e)
        | none ↦ elim (t.hash_password i.password) [
          | none ↦ (db, err internal)
          | some hash ↦
              let u = new_user db.next_user i.name i.email hash in
              if any (λ x. str_eq x.email i.email) db.users
              then (db, err email_taken)
              else if fault create_user
              then (db, err internal)
              else enrol fault now ttl token u
                  (role_for_registration (t.lower (t.trim i.account_type)))
                  (record db { users = u ∷ db.users; next_user = db.next_user + 1 })
        ]
      ]

  -- Login
  unfoldable pub login :
      Faults → ℕ → ℕ → Option String → String → String → AuthDb → AuthDb × Reply String
  login fault now ttl token email password db =
      if fault get_user
      then (db, err invalid_credential)
      else elim (user_by_email (t.lower (t.trim email)) db.users) [
        | none ↦ (db, err invalid_credential)
        | some u ↦
            if not (t.matches u.password_hash password)
            then (db, err invalid_credential)
            else if u.disabled
            then (db, err disabled_user)
            else new_session t fault now ttl token u db
      ]

  -- Logout: the failure of the call is ignored.
  unfoldable pub logout : Faults → ℕ → String → AuthDb → AuthDb
  logout fault now token db =
      if str_eq token "" || fault update_session
      then db
      else record db { sessions = revoke_token now (t.hash_token token) db.sessions }

  -- LogoutAll
  unfoldable pub logout_all : Faults → ℕ → String → AuthDb → AuthDb × Reply {0} Unit
  logout_all fault now token db = elim (verified_identity t fault now db token) [
    | err _ ↦ (db, err invalid_session)
    | ok (_, u) ↦
        if fault update_session
        then (db, err internal)
        else (record db { sessions = revoke_user now u.id db.sessions }, ok tt)
  ]

  -- Refresh
  unfoldable pub refresh : Faults → ℕ → ℕ → Option String → String → AuthDb → AuthDb × Reply String
  unfolding logout
  refresh fault now ttl drawn token db = elim (verified_identity t fault now db token) [
    | err _ ↦ (db, err invalid_session)
    | ok (_, u) ↦ new_session t fault now ttl drawn u (
        if fault update_session
        then db
        else record db { sessions = revoke_token now (t.hash_token token) db.sessions })
  ]

  -- UpdateProfile; the image is left out.
  unfoldable pub update_profile : Faults → ℕ → String → String → AuthDb → AuthDb × Reply {0} Unit
  update_profile fault now token name db = elim (verified_identity t fault now db token) [
    | err _ ↦ (db, err invalid_session)
    | ok (_, u) ↦
        if str_eq (t.trim name) ""
        then (db, err (validation "name"))
        else if fault update_user
        then (db, err not_found)
        else (record db { users = set_profile u.id (t.trim name) db.users }, ok tt)
  ]

  -- ConfirmPassword
  unfoldable pub confirm_password : Faults → ℕ → String → String → AuthDb → Reply User
  confirm_password fault now token password db = elim (verified_identity t fault now db token) [
    | err e ↦ err e
    | ok (_, u) ↦
        if fault get_user then err invalid_credential else elim (user_by_email u.email db.users) [
          | none ↦ err invalid_credential
          | some v ↦ if t.matches v.password_hash password then ok u else err invalid_credential
        ]
  ]

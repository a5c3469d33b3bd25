-- ===== src/Auth/Calm.antt =====
-- The requests of the auth service at a time when nobody is a platform administrator.
use hquizlet_platform.Prelude.{
  ℕ, ◌≡◌, refl, Bool, true, false, ◌||◌, if◌then◌else◌, String, List, [], ◌∷◌, Option, none, some,
  any, arith, str_eq,
}
use hquizlet_platform.Prelude.Int.{ℤ}
use hquizlet_platform.Authz.Roles.{platform_admin, teacher, student}
use hquizlet_platform.Authz.Principal.{contains}
use hquizlet_platform.Auth.Model.{User, Assignment, AuthDb, ok, Faults, AuthFns, Identity}
use hquizlet_platform.Auth.Sessions.{
  user_by_id, platform_role_keys, load_platform_roles, legacy_role, role_for_registration, actor_of,
  audit, verified_identity, new_session,
}
use hquizlet_platform.Auth.Accounts.{
  RegisterInput, create_platform_assignment, set_profile, enrol, register, login, logout,
  logout_all, refresh, update_profile,
}
use hquizlet_platform.Auth.Iam.{require_platform, audit_denied, assign_role}
use hquizlet_platform.Auth.Iam.Removals.{
  delete_assignment, drop_legacy_admin, users_after_revoke, revoke_role, set_disabled,
  set_user_disabled,
}
use hquizlet_platform.Auth.Escalation.{IsPlain, plain_never_assigns}
use hquizlet_platform.Auth.Verified.{verified_inv}

abbrev pub is_admin_user : User → Bool
is_admin_user u = str_eq u.role "admin"

abbrev pub is_admin_row : Assignment → Bool
is_admin_row a = str_eq a.role_key platform_admin

-- No user is an administrator, by role or by grant.
pub record IsCalm (db : AuthDb) : Type 0 where
  pub users : any is_admin_user db.users ≡ false
  pub rows : any is_admin_row db.assignments ≡ false

module _ (t : AuthFns) (fault : Faults) (now : ℕ) where
  new_session-IsCalm :
      (ttl : ℕ) (drawn : Option String) (u : User) (db : AuthDb)
      → IsCalm db
      → IsCalm (new_session t fault now ttl drawn u db).0
  unfolding new_session
  new_session-IsCalm ttl none u db c = c
  new_session-IsCalm ttl (some token) u db c = ground arith

  pub login-IsCalm :
      (ttl : ℕ) (drawn : Option String) (email pw : String) (db : AuthDb)
      → IsCalm db
      → IsCalm (login t fault now ttl drawn email pw db).0
  unfolding login
  login-IsCalm ttl drawn email pw db c = grind (arith, new_session-IsCalm)

  create_platform-IsCalm :
      (u : ℕ) (role : String) (db : AuthDb)
      → str_eq role platform_admin ≡ false
      → IsCalm db
      → IsCalm (create_platform_assignment u role db)
  unfolding create_platform_assignment
  create_platform-IsCalm u role db e c = ground arith

  role_for_registration-plain :
      (s : String) → str_eq (role_for_registration s) platform_admin ≡ false
  role_for_registration-plain s =
      elim (str_eq s "teacher" || str_eq s "giaovien" || str_eq s "giáo viên")
        as (λ b. str_eq (if b then teacher else student) platform_admin ≡ false) [
          | true ↦ refl
          | false ↦ refl
        ]

  enrol-IsCalm :
      (ttl : ℕ) (drawn : Option String) (u : User) (role : String) (db : AuthDb)
      → str_eq role platform_admin ≡ false
      → IsCalm db
      → IsCalm (enrol t fault now ttl drawn u role db).0
  unfolding enrol audit
  enrol-IsCalm ttl drawn u role db e c =
      let d = create_platform-IsCalm u.id role db e c in grind (arith, new_session-IsCalm)

  pub register-IsCalm :
      (ttl : ℕ) (drawn : Option String) (i : RegisterInput) (db : AuthDb)
      → IsCalm db
      → IsCalm (register t fault now ttl drawn i db).0
  unfolding register
  register-IsCalm ttl drawn i db c = grind (arith, enrol-IsCalm, role_for_registration-plain)

  pub logout-IsCalm :
      (token : String) (db : AuthDb) → IsCalm db → IsCalm (logout t fault now token db)
  unfolding logout
  logout-IsCalm token db c = ground arith

  pub logout_all-IsCalm :
      (token : String) (db : AuthDb) → IsCalm db → IsCalm (logout_all t fault now token db).0
  unfolding logout_all
  logout_all-IsCalm token db c = ground arith

  pub refresh-IsCalm :
      (ttl : ℕ) (drawn : Option String) (token : String) (db : AuthDb)
      → IsCalm db
      → IsCalm (refresh t fault now ttl drawn token db).0
  unfolding refresh
  refresh-IsCalm ttl drawn token db c = grind (arith, new_session-IsCalm)

  set_profile-plain :
      (u : ℕ) (name : String) (us : List User)
      → any is_admin_user (set_profile u name us) ≡ any is_admin_user us
  unfolding set_profile
  set_profile-plain u name [] = refl
  set_profile-plain u name (x ∷ us) = ground (arith, set_profile-plain u name us)

  pub update_profile-IsCalm :
      (token name : String) (db : AuthDb)
      → IsCalm db
      → IsCalm (update_profile t fault now token name db).0
  unfolding update_profile
  update_profile-IsCalm token name db c = grind (arith, set_profile-plain)

  drop_legacy-plain :
      (u : ℕ) (us : List User)
      → any is_admin_user us ≡ false
      → any is_admin_user (drop_legacy_admin u us) ≡ false
  unfolding drop_legacy_admin
  drop_legacy-plain u [] h = refl
  drop_legacy-plain u (x ∷ us) h = ground (arith, drop_legacy-plain u us)

  delete-plain :
      (id : ℕ) (rows : List Assignment)
      → any is_admin_row rows ≡ false
      → any is_admin_row (delete_assignment id rows) ≡ false
  unfolding delete_assignment
  delete-plain id [] h = refl
  delete-plain id (a ∷ rows) h = ground (arith, delete-plain id rows)

  users_after_revoke-plain :
      (a : Assignment) (rows : List Assignment) (us : List User)
      → any is_admin_user us ≡ false
      → any is_admin_user (users_after_revoke now a rows us) ≡ false
  unfolding users_after_revoke
  users_after_revoke-plain a rows us h = grind (arith, drop_legacy-plain)

  pub revoke_role-IsCalm :
      (i : Identity) (id : ℕ) (db : AuthDb)
      → IsCalm db
      → IsCalm (revoke_role fault now (actor_of i) id db).0
  unfolding revoke_role audit_denied audit
  revoke_role-IsCalm i id db c = grind (arith, delete-plain, users_after_revoke-plain)

  set_disabled-plain :
      (u : ℕ) (flag : Bool) (us : List User)
      → any is_admin_user (set_disabled u flag us) ≡ any is_admin_user us
  unfolding set_disabled
  set_disabled-plain u flag [] = refl
  set_disabled-plain u flag (x ∷ us) = ground (arith, set_disabled-plain u flag us)

  pub set_user_disabled-IsCalm :
      (i : Identity) (target : ℤ) (flag : Bool) (db : AuthDb)
      → IsCalm db
      → IsCalm (set_user_disabled fault now (actor_of i) target flag db).0
  unfolding set_user_disabled audit_denied audit
  set_user_disabled-IsCalm i target flag db c = grind (arith, set_disabled-plain)

  pub assign_role-IsCalm :
      (i : Identity) (target : ℤ) (role scope : String) (org : Option ℤ) (db : AuthDb)
      → IsPlain i
      → IsCalm db
      → IsCalm (assign_role fault (actor_of i) target role scope org db).0
  unfolding assign_role require_platform audit_denied audit
  assign_role-IsCalm i target role scope org db p c = ground (arith, plain_never_assigns i p)

  role_keys-plain :
      (u : ℕ) (rows : List Assignment)
      → any is_admin_row rows ≡ false
      → contains (platform_role_keys now u rows) platform_admin ≡ false
  unfolding platform_role_keys
  role_keys-plain u [] h = refl
  role_keys-plain u (a ∷ rows) h = ground (arith, role_keys-plain u rows)

  user_by_id-plain :
      (id : ℕ) (us : List User) (u : User)
      → any is_admin_user us ≡ false
      → user_by_id id us ≡ some u
      → is_admin_user u ≡ false
  unfolding user_by_id
  user_by_id-plain id [] u h e = cc
  user_by_id-plain id (x ∷ us) u h e = ground (arith, user_by_id-plain id us u)

  load-plain :
      (db : AuthDb) (u : User) (roles : List String)
      → IsCalm db
      → is_admin_user u ≡ false
      → load_platform_roles fault now db u ≡ ok roles
      → contains roles platform_admin ≡ false
  unfolding load_platform_roles
  load-plain db u roles c h e = ground (arith, role_keys-plain u.id db.assignments c.rows)

  pub verified-IsPlain :
      (db : AuthDb) (token : String) (i : Identity) (u : User)
      → IsCalm db
      → verified_identity t fault now db token ≡ ok (i, u)
      → IsPlain i
  unfolding legacy_role
  verified-IsPlain db token i u c e =
      let (s, found, known, enabled, open_, roles, loaded, held, legacy) =
        verified_inv t fault now db token i u e in
      let absent =
        load-plain db u roles c (user_by_id-plain s.user_id db.users u c.users known) loaded in
      record { no_legacy = rw (legacy, legacy_role, absent) refl; no_role = rw held absent }

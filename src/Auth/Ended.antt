-- ===== src/Auth/Ended.antt =====
-- What a request does to the sessions, and that a token that is dead stays dead.
use hquizlet_platform.Prelude.{
  ℕ, ◌≡◌, Bool, false, ◌||◌, String, List, ◌∷◌, Option, none, some, any, arith, Bool-cases, inl,
  inr,
}
use mathlib.Core.Path.{subst, ◌∙◌}
use hquizlet_platform.Prelude.Int.{ℤ, pos}
use hquizlet_platform.Authz.Actions.{iam_assign_role}
use hquizlet_platform.Auth.Model.{
  User, Session, Assignment, AuditEntry, allowed, AuthDb, create_session, create_assignment,
  update_session, Faults, AuthFns, Identity,
}
use hquizlet_platform.Auth.Sessions.{
  revoke_token, revoke_user, prune_expired, actor_of, audit, verified_identity, new_session,
}
use hquizlet_platform.Auth.Accounts.{
  RegisterInput, create_platform_assignment, enrol, register, login, logout, logout_all, refresh,
  update_profile,
}
use hquizlet_platform.Auth.Iam.{audit_denied, create_assignment_audited, grant_role, assign_role}
use hquizlet_platform.Auth.Iam.Removals.{revoke_role, set_user_disabled}
use hquizlet_platform.Auth.Runs.{is_used, Fresh, spend}
use hquizlet_platform.Auth.Verified.{Reply-cases}
use hquizlet_platform.Auth.Revoked.{is_of}

-- The sessions and the hashes drawn, before and after.
pub data Change : List String → List Session → List String → List Session → Type 0 where
  keep : (used : List String) (ss : List Session) → Change used ss used ss
  spent : (used : List String) (ss : List Session) (h : String) → Change used ss (h ∷ used) ss
  one :
      (used : List String) (ss : List Session) (now : ℕ) (h : String)
      → Change used ss used (revoke_token now h ss)
  every :
      (used : List String) (ss : List Session) (now u : ℕ)
      → Change used ss used (revoke_user now u ss)
  prune :
      (used : List String) (ss : List Session) (now : ℕ)
      → Change used ss used (prune_expired now ss)
  opened :
      (used : List String) (ss : List Session) (s : Session)
      → is_used s.token_hash used ≡ false
      → any (is_of s.token_hash) ss ≡ false
      → Change used ss (s.token_hash ∷ used) (s ∷ ss)
  both :
      {a b c : List String} {ss ts us : List Session}
      → Change a ss b ts
      → Change b ts c us
      → Change a ss c us

module _ (t : AuthFns) (fault : Faults) (now : ℕ) (used : List String) where
  idle : (drawn : Option String) (ss : List Session) → Change used ss (spend t drawn used) ss
  idle none ss = keep used ss
  idle (some token) ss = spent used ss (t.hash_token token)

  new_session-Change :
      (ttl : ℕ) (drawn : Option String) (u : User) (db : AuthDb)
      → Fresh t drawn used
      → Change used db.sessions
          (spend t drawn used)
          (new_session t fault now ttl drawn u db).0.sessions
  unfolding new_session
  new_session-Change ttl none u db f = keep used db.sessions
  new_session-Change ttl (some token) u db f =
      let h = t.hash_token token in
      elim (Bool-cases (fault create_session || any (is_of h) db.sessions)) [
        | inl failed ↦ rw failed (spent used db.sessions h)
        | inr stored ↦ rw stored (opened used db.sessions _ f (ground (arith, stored)))
      ]

  pub login-Change :
      (ttl : ℕ) (drawn : Option String) (email pw : String) (db : AuthDb)
      → Fresh t drawn used
      → Change used db.sessions
          (spend t drawn used)
          (login t fault now ttl drawn email pw db).0.sessions
  unfolding login
  login-Change ttl drawn email pw db f = grind (arith, idle, new_session-Change)

  audit-sessions : (e : AuditEntry) (db : AuthDb) → (audit fault e db).sessions ≡ db.sessions
  unfolding audit
  audit-sessions e db = ground arith

  create_platform-sessions :
      (u : ℕ) (role : String) (db : AuthDb)
      → (create_platform_assignment u role db).sessions ≡ db.sessions
  unfolding create_platform_assignment
  create_platform-sessions u role db = ground arith

  enrol-Change :
      (ttl : ℕ) (drawn : Option String) (u : User) (role : String) (db : AuthDb)
      → Fresh t drawn used
      → Change used db.sessions
          (spend t drawn used)
          (enrol t fault now ttl drawn u role db).0.sessions
  unfolding enrol
  enrol-Change ttl drawn u role db f = elim (Bool-cases (fault create_assignment)) [
    | inl failed ↦ rw failed (idle drawn db.sessions)
    | inr stored ↦
        let d = create_platform_assignment u.id role db in
        let e : AuditEntry = record {
          actor_id = pos u.id;
          action = iam_assign_role;
          subject = pos u.id;
          result = allowed;
        } in
        rw stored (
          subst
            (λ ss.
              Change used ss (spend t drawn used)
                (new_session t fault now ttl drawn u (audit fault e d)).0.sessions)
            (audit-sessions e d ∙ create_platform-sessions u.id role db)
            (new_session-Change ttl drawn u (audit fault e d) f))
  ]

  pub register-Change :
      (ttl : ℕ) (drawn : Option String) (i : RegisterInput) (db : AuthDb)
      → Fresh t drawn used
      → Change used db.sessions
          (spend t drawn used)
          (register t fault now ttl drawn i db).0.sessions
  unfolding register
  register-Change ttl drawn i db f = grind (arith, idle, enrol-Change)

  pub logout-Change :
      (token : String) (db : AuthDb)
      → Change used db.sessions used (logout t fault now token db).sessions
  unfolding logout
  logout-Change token db = grind (arith, keep, one)

  pub logout_all-Change :
      (token : String) (db : AuthDb)
      → Change used db.sessions used (logout_all t fault now token db).0.sessions
  unfolding logout_all
  logout_all-Change token db = grind (arith, keep, every)

  pub update_profile-Change :
      (token name : String) (db : AuthDb)
      → Change used db.sessions used (update_profile t fault now token name db).0.sessions
  unfolding update_profile
  update_profile-Change token name db = grind (arith, keep)

  pub revoke_role-Change :
      (i : Identity) (id : ℕ) (db : AuthDb)
      → Change used db.sessions used (revoke_role fault now (actor_of i) id db).0.sessions
  unfolding revoke_role audit_denied audit
  revoke_role-Change i id db = grind (arith, keep)

  create_assignment_audited-sessions :
      (i : Identity) (row : Assignment) (db : AuthDb)
      → (create_assignment_audited fault (actor_of i) row db).0.sessions ≡ db.sessions
  unfolding create_assignment_audited
  create_assignment_audited-sessions i row db = ground arith

  grant_role-sessions :
      (i : Identity) (target : ℤ) (role scope : String) (org : Option ℤ) (db : AuthDb)
      → (grant_role fault (actor_of i) target role scope org db).0.sessions ≡ db.sessions
  unfolding grant_role
  grant_role-sessions i target role scope org db = grind (arith, create_assignment_audited-sessions)

  pub assign_role-Change :
      (i : Identity) (target : ℤ) (role scope : String) (org : Option ℤ) (db : AuthDb)
      → Change used db.sessions used
          (assign_role fault (actor_of i) target role scope org db).0.sessions
  unfolding assign_role audit_denied audit
  assign_role-Change i target role scope org db =
      grind (arith, keep, grant_role-sessions i target role scope org db)

  pub set_user_disabled-Change :
      (i : Identity) (target : ℤ) (flag : Bool) (db : AuthDb)
      → Change used db.sessions used
          (set_user_disabled fault now (actor_of i) target flag db).0.sessions
  unfolding set_user_disabled audit_denied audit
  set_user_disabled-Change i target flag db = grind (arith, keep, every)

  pub refresh-Change :
      (ttl : ℕ) (drawn : Option String) (token : String) (db : AuthDb)
      → Fresh t drawn used
      → Change used db.sessions
          (spend t drawn used)
          (refresh t fault now ttl drawn token db).0.sessions
  unfolding refresh
  refresh-Change ttl drawn token db f =
      elim (Reply-cases (verified_identity t fault now db token)) [
        | inl (e, failed) ↦ rw (failed, refresh) (idle drawn db.sessions)
        | inr (iu, found) ↦ elim (Bool-cases (fault update_session)) [
          | inl kept ↦ rw (found, refresh) (rw kept (new_session-Change ttl drawn iu.1 db f))
          | inr ended ↦
              let h = t.hash_token token in
              let d : AuthDb = record db { sessions = revoke_token now h db.sessions } in
              rw (found, refresh)
                (rw ended
                  (both (one used db.sessions now h) (new_session-Change ttl drawn iu.1 d f)))
        ]
      ]

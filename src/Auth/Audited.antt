-- ===== src/Auth/Audited.antt =====
-- No privileged change without its entry in the audit log.
use hquizlet_platform.Prelude.{
  ℕ, ◌≡◌, ◌≢◌, inl, inr, refl, Bool, true, String, ◌∷◌, Option, none, arith, Bool-cases,
  Option-cases, if◌then◌else◌, str_eq,
}
use hquizlet_platform.Prelude.Int.{ℤ, pos, pos_part}
use hquizlet_platform.Authz.Actions.{Action, iam_assign_role, iam_revoke_role, user_disable}
use hquizlet_platform.Authz.Principal.{Actor}
use hquizlet_platform.Authz.Evaluator.{can}
use hquizlet_platform.Auth.Model.{Assignment, AuthDb, AuthError, admin_tx, Reply, ok, err, Faults}
use hquizlet_platform.Auth.Sessions.{audit}
use hquizlet_platform.Auth.Verified.{Reply-cases}
use hquizlet_platform.Auth.Iam.{
  platform, require_platform, entry, normalize_scope, scope_of, check_grant, audit_denied,
  create_assignment_audited, grant_role, assign_role,
}
use hquizlet_platform.Auth.Iam.Removals.{assignment_by_id, revoke_role, set_user_disabled}

-- The users, sessions and assignments are as they were.
abbrev pub Unchanged : AuthDb → AuthDb → Type 0
Unchanged d e = (d.users ≡ e.users) × (d.sessions ≡ e.sessions) × (d.assignments ≡ e.assignments)

-- A request that succeeds is one the actor may make, and leaves one entry more, that names it; one
-- that fails changes nothing but the log.
abbrev pub IsLogged : Actor → Action → AuthDb → AuthDb × Reply {0} Unit → Type 0
IsLogged actor action db r =
    (r.1 ≡ ok tt
      → (can actor action platform ≡ true)
        × (subject : ℤ) × (r.0.audit_log ≡ entry actor action subject true ∷ db.audit_log))
    × (r.1 ≢ ok tt → Unchanged r.0 db)

require_platform-can :
    (actor : Actor) (action : Action) (u : Unit {0})
    → require_platform actor action ≡ ok u
    → can actor action platform ≡ true
unfolding require_platform
require_platform-can actor action u e = ground arith

module _ (fault : Faults) (now : ℕ) (actor : Actor) (db : AuthDb) where
  denied-Unchanged :
      (action : Action) (subject : ℤ) → Unchanged (audit_denied fault actor action subject db) db
  unfolding audit_denied audit
  denied-Unchanged action subject = ground arith

  create-lem :
      (row : Assignment)
      → let r = create_assignment_audited fault actor row db in
        (r.1 ≡ ok tt
          → r.0.audit_log ≡ entry actor iam_assign_role (pos row.principal_id) true ∷ db.audit_log)
        × (r.1 ≢ ok tt → Unchanged r.0 db)
  unfolding create_assignment_audited
  create-lem row = (λ e. ground arith, λ e. ground arith)

  denied-IsLogged :
      (action : Action) (subject : ℤ) (e : AuthError)
      → IsLogged actor action db (audit_denied fault actor action subject db, err e)
  denied-IsLogged action subject e = (λ h. cc, λ h. denied-Unchanged action subject)

  grant_role-lem :
      (target : ℤ) (role scope : String) (org : Option ℤ)
      → let r = grant_role fault actor target role scope org db in
        (r.1 ≡ ok tt
          → (subject : ℤ) × (r.0.audit_log
              ≡ entry actor iam_assign_role subject true ∷ db.audit_log))
        × (r.1 ≢ ok tt → Unchanged r.0 db)
  unfolding grant_role
  grant_role-lem target role scope org =
      let kind = normalize_scope scope in
      let scoped = if str_eq kind "platform" then none else scope_of org in
      elim (Reply-cases (check_grant fault db target role kind scoped)) [
        | inl (e, refused_) ↦ rw (refused_, grant_role) ((λ h. cc), (λ h. (refl, refl, refl)))
        | inr (_, passed) ↦
            let row : Assignment = record {
              id = db.next_assignment;
              principal_id = pos_part target;
              role_key = role;
              scope_type = kind;
              scope_id = scoped;
              created_by = actor.user_id;
              expires_at = none;
            } in
            rw (passed, grant_role)
              ((λ h. (pos row.principal_id, (create-lem row).0 h)), (create-lem row).1)
      ]

  assign_role-IsLogged :
      (target : ℤ) (role scope : String) (org : Option ℤ)
      → IsLogged actor iam_assign_role db (assign_role fault actor target role scope org db)
  unfolding assign_role
  assign_role-IsLogged target role scope org =
      elim (Reply-cases (require_platform actor iam_assign_role)) [
        | inl (e, no_) ↦ rw (no_, assign_role) (denied-IsLogged iam_assign_role target e)
        | inr (u, passed) ↦
            rw (passed, assign_role)
              (
                (λ h.
                    let g = (grant_role-lem target role scope org).0 h in
                    (require_platform-can actor iam_assign_role u passed, g.0, g.1)),
                (grant_role-lem target role scope org).1,
              )
      ]

  revoke_role-IsLogged :
      (id : ℕ) → IsLogged actor iam_revoke_role db (revoke_role fault now actor id db)
  unfolding revoke_role
  revoke_role-IsLogged id = elim (Reply-cases (require_platform actor iam_revoke_role)) [
    | inl (e, no_) ↦ rw (no_, revoke_role) (denied-IsLogged iam_revoke_role (pos id) e)
    | inr (u, passed) ↦ elim (Bool-cases (fault admin_tx)) [
      | inl failed ↦ rw (passed, revoke_role) (rw failed ((λ h. cc), (λ h. (refl, refl, refl))))
      | inr runs ↦ elim (Option-cases (assignment_by_id id db.assignments)) [
        | inl absent ↦
            rw (passed, revoke_role) (rw (runs, absent) ((λ h. cc), (λ h. (refl, refl, refl))))
        | inr (a, found) ↦
            rw (passed, revoke_role)
              (rw (runs, found)
                (
                  (λ h. (
                    require_platform-can actor iam_revoke_role u passed,
                    pos a.principal_id,
                    refl,
                  )),
                  (λ h. absurd (h refl)),
                ))
      ]
    ]
  ]

  disable-lem :
      (target : ℤ) (flag : Bool)
      → let r = set_user_disabled fault now actor target flag db in
        (r.1 ≡ ok tt
          → (can actor user_disable platform ≡ true)
            × (r.0.audit_log ≡ entry actor user_disable target true ∷ db.audit_log))
        × (r.1 ≢ ok tt → Unchanged r.0 db)
  unfolding set_user_disabled require_platform audit_denied audit
  disable-lem target flag = (λ e. ground arith, λ e. ground arith)

  -- Every privileged request, to assign or revoke a role or to disable or enable a user, succeeds only
  -- for an actor whom the policies permit its action on the platform, and then leaves exactly one
  -- entry more in the audit log, which names the actor and the action; where it fails, the users,
  -- the sessions and the assignments are as they were.
  pub privileged_changes_audited :
      (target : ℤ) (role scope : String) (org : Option ℤ) (id : ℕ) (flag : Bool)
      → IsLogged actor iam_assign_role db (assign_role fault actor target role scope org db)
        × IsLogged actor iam_revoke_role db (revoke_role fault now actor id db)
        × IsLogged actor user_disable db (set_user_disabled fault now actor target flag db)
  privileged_changes_audited target role scope org id flag = (
    assign_role-IsLogged target role scope org,
    revoke_role-IsLogged id,
    (
      (λ h. let d = (disable-lem target flag).0 h in (d.0, target, d.1)),
      (disable-lem target flag).1,
    ),
  )

-- ===== src/Auth/Organizations/Kept.antt =====
-- services/auth/internal/service/organizations.go: a new organization touches neither the users nor
-- the sessions nor the assignments.
use hquizlet_platform.Prelude.{arith, ◌≡◌, String, List, any}
use hquizlet_platform.Prelude.Int.{ℤ}
use hquizlet_platform.Auth.Model.{AuthDb, Faults, AuthFns, Identity}
use hquizlet_platform.Auth.Sessions.{actor_of, audit}
use hquizlet_platform.Auth.Iam.{audit_denied}
use hquizlet_platform.Auth.Organizations.{insert_organization, create_organization}
use mathlib.Core.Path.{ap, ◌∙◌}
use hquizlet_platform.Auth.Calm.{is_admin_user, is_admin_row, IsCalm}
use hquizlet_platform.Auth.Ended.{Change}

module _ (t : AuthFns) (fault : Faults) where
  insert_organization-sessions :
      (i : Identity) (name slug kind : String) (owner : ℤ) (db : AuthDb)
      → (insert_organization t fault (actor_of i) name slug kind owner db).0.sessions ≡ db.sessions
  unfolding insert_organization audit
  insert_organization-sessions i name slug kind owner db = ground arith

  create_organization-sessions :
      (i : Identity) (name slug kind : String) (owner : ℤ) (db : AuthDb)
      → (create_organization t fault (actor_of i) name slug kind owner db).0.sessions ≡ db.sessions
  unfolding create_organization audit_denied audit
  create_organization-sessions i name slug kind owner db =
      grind (arith, insert_organization-sessions)

  pub create_organization-Change :
      (used : List String) (i : Identity) (name slug kind : String) (owner : ℤ) (db : AuthDb)
      → Change used db.sessions used
          (create_organization t fault (actor_of i) name slug kind owner db).0.sessions
  create_organization-Change used i name slug kind owner db =
      rw (create_organization-sessions i name slug kind owner db) (Change.keep used db.sessions)

  insert_organization-users :
      (i : Identity) (name slug kind : String) (owner : ℤ) (db : AuthDb)
      → (insert_organization t fault (actor_of i) name slug kind owner db).0.users ≡ db.users
  unfolding insert_organization audit
  insert_organization-users i name slug kind owner db = ground arith

  create_organization-users :
      (i : Identity) (name slug kind : String) (owner : ℤ) (db : AuthDb)
      → (create_organization t fault (actor_of i) name slug kind owner db).0.users ≡ db.users
  unfolding create_organization audit_denied audit
  create_organization-users i name slug kind owner db = grind (arith, insert_organization-users)

  insert_organization-assignments :
      (i : Identity) (name slug kind : String) (owner : ℤ) (db : AuthDb)
      → (insert_organization t fault (actor_of i) name slug kind owner db).0.assignments
        ≡ db.assignments
  unfolding insert_organization audit
  insert_organization-assignments i name slug kind owner db = ground arith

  create_organization-assignments :
      (i : Identity) (name slug kind : String) (owner : ℤ) (db : AuthDb)
      → (create_organization t fault (actor_of i) name slug kind owner db).0.assignments
        ≡ db.assignments
  unfolding create_organization audit_denied audit
  create_organization-assignments i name slug kind owner db =
      grind (arith, insert_organization-assignments)

  pub create_organization-IsCalm :
      (i : Identity) (name slug kind : String) (owner : ℤ) (db : AuthDb)
      → IsCalm db
      → IsCalm (create_organization t fault (actor_of i) name slug kind owner db).0
  create_organization-IsCalm i name slug kind owner db c = record {
    users = ap (any is_admin_user) (create_organization-users i name slug kind owner db) ∙ c.users;
    rows =
        ap (any is_admin_row) (create_organization-assignments i name slug kind owner db) ∙ c.rows;
  }

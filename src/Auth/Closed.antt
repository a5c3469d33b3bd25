-- ===== src/Auth/Closed.antt =====
-- A service without administrators stays without.
use hquizlet_platform.Prelude.{
  ◌≡◌, sym, ◌≢◌, inl, inr, false, String, List, [], ◌∷◌, Option, any, All, arith,
}
use mathlib.Core.Path.{subst}
use hquizlet_platform.Prelude.Int.{ℤ}
use hquizlet_platform.Auth.Model.{User, ok, Faults, AuthFns, Identity}
use hquizlet_platform.Auth.Sessions.{actor_of, verified_identity, audit}
use hquizlet_platform.Auth.Iam.{assign_role, require_platform, audit_denied}
use hquizlet_platform.Auth.Escalation.{IsPlain, plain_never_assigns}
use hquizlet_platform.Auth.Calm.{
  is_admin_user, is_admin_row, IsCalm, register-IsCalm, login-IsCalm, logout-IsCalm,
  logout_all-IsCalm, refresh-IsCalm, update_profile-IsCalm, revoke_role-IsCalm,
  set_user_disabled-IsCalm, assign_role-IsCalm, verified-IsPlain,
}
use hquizlet_platform.Auth.Organizations.Kept.{create_organization-IsCalm}
use hquizlet_platform.Auth.Runs.{
  founding, Request, registering, logging_in, logging_out, logging_out_all, refreshing, updating,
  assigning, revoking, disabling, pruning, World, IsIssued, serve, Admitted, Step, Reach,
}

issued-IsPlain : (i : Identity) (is : List Identity) → All IsPlain is → IsIssued i is → IsPlain i
issued-IsPlain i [] h e = elim e [ ]
issued-IsPlain i (j ∷ is) h (inl e) = subst IsPlain (sym e) h.0
issued-IsPlain i (j ∷ is) h (inr e) = issued-IsPlain i is h.1 e

-- Nobody is an administrator, and no identity that was issued is one's.
pub record IsClosed (m : World) : Type 0 where
  pub calm : IsCalm m.db
  pub issued : All IsPlain m.issued

module _ (t : AuthFns) where
  serve-IsCalm :
      (fault : Faults) (m : World) (r : Request)
      → Admitted t r m
      → IsClosed m
      → IsCalm (serve t fault m.clock r m.db)
  unfolding serve
  serve-IsCalm fault m (registering ttl drawn i) a c =
      register-IsCalm t fault m.clock ttl drawn i m.db c.calm
  serve-IsCalm fault m (logging_in ttl drawn email pw) a c =
      login-IsCalm t fault m.clock ttl drawn email pw m.db c.calm
  serve-IsCalm fault m (logging_out token) a c = logout-IsCalm t fault m.clock token m.db c.calm
  serve-IsCalm fault m (logging_out_all token) a c =
      logout_all-IsCalm t fault m.clock token m.db c.calm
  serve-IsCalm fault m (refreshing ttl drawn token) a c =
      refresh-IsCalm t fault m.clock ttl drawn token m.db c.calm
  serve-IsCalm fault m (updating token name) a c =
      update_profile-IsCalm t fault m.clock token name m.db c.calm
  serve-IsCalm fault m (assigning i target role scope org) a c =
      assign_role-IsCalm t fault m.clock i target role scope org m.db
        (issued-IsPlain i m.issued c.issued a) c.calm
  serve-IsCalm fault m (revoking i id) a c = revoke_role-IsCalm t fault m.clock i id m.db c.calm
  serve-IsCalm fault m (disabling i target flag) a c =
      set_user_disabled-IsCalm t fault m.clock i target flag m.db c.calm
  serve-IsCalm fault m (founding i name slug kind owner) a c =
      create_organization-IsCalm t fault i name slug kind owner m.db c.calm
  serve-IsCalm fault m pruning a c = record { users = c.calm.users; rows = c.calm.rows }

  Step-IsClosed : {m n : World} → Step t m n → IsClosed m → IsClosed n
  Step-IsClosed (Step.tick m later h) c = record { calm = c.calm; issued = c.issued }
  Step-IsClosed (Step.verify m fault token i u e) c = record {
    calm = c.calm;
    issued = (verified-IsPlain t fault m.clock m.db token i u c.calm e, c.issued);
  }
  Step-IsClosed (Step.request m fault r a) c = record {
    calm = serve-IsCalm fault m r a c;
    issued = c.issued;
  }

  Reach-IsClosed : {m n : World} → IsClosed m → Reach t m n → IsClosed n
  Reach-IsClosed c Reach.here = c
  Reach-IsClosed c (Reach.next r s) = Step-IsClosed s (Reach-IsClosed c r)

  -- From a time when no user is an administrator, by the legacy role or by a grant of PlatformAdmin,
  -- and no identity that was issued is an administrator's, nobody ever becomes one: whatever requests
  -- the service then handles, no user has the role and no grant of it exists, and a request to assign
  -- a role under any identity that is verified is refused and leaves the assignments as they are.
  pub no_escalation :
      {m n : World} (fault : Faults) (token : String) (i : Identity) (u : User) (target : ℤ)
      (role scope : String) (org : Option ℤ)
      → IsClosed m
      → Reach t m n
      → verified_identity t fault n.clock n.db token ≡ ok (i, u)
      → let (db, reply) = assign_role fault (actor_of i) target role scope org n.db in
        (any is_admin_user n.db.users ≡ false)
        × (any is_admin_row n.db.assignments ≡ false)
        × (reply ≢ ok tt)
        × (db.assignments ≡ n.db.assignments)
  unfolding assign_role require_platform audit_denied audit
  no_escalation {m} {n} fault token i u target role scope org c r e =
      let d = Reach-IsClosed c r in
      let plain = verified-IsPlain t fault n.clock n.db token i u d.calm e in
      let never = plain_never_assigns i plain in
      (d.calm.users, d.calm.rows, ground (arith, never), ground (arith, never))

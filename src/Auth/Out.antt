-- ===== src/Auth/Out.antt =====
-- Whoever is disabled is out.
use hquizlet_platform.Prelude.{
  ℕ, ◌≡◌, ◌≢◌, ap, true, false, String, List, [], some, any, arith, str_eq, eq_iff, Bool-cases, inl,
  inr,
}
use hquizlet_platform.Prelude.Int.{ℤ, pos_part}
use hquizlet_platform.Auth.Model.{User, Session, AuthDb, ok, Faults, AuthFns, Identity}
use hquizlet_platform.Auth.Sessions.{session_of, actor_of, revoke_user, verified_identity}
use hquizlet_platform.Auth.Iam.Removals.{set_user_disabled}
use hquizlet_platform.Auth.Verified.{verified_inv}
use hquizlet_platform.Auth.Revoked.{
  is_open, is_of, IsDistinct, open-revoke_token, open-revoke_user, open-prune, of-revoke_token,
  of-revoke_user, of-prune_true, session_of-of, IsDistinct-revoke_token, IsDistinct-revoke_user,
  IsDistinct-prune, revoke_user-closes, session_of-open,
}
use hquizlet_platform.Auth.Ended.{
  Change, register-Change, login-Change, logout-Change, logout_all-Change, refresh-Change,
  update_profile-Change, assign_role-Change, revoke_role-Change, set_user_disabled-Change,
}
use hquizlet_platform.Auth.Organizations.Kept.{create_organization-Change}
use hquizlet_platform.Auth.Runs.{
  founding, Request, registering, logging_in, logging_out, logging_out_all, refreshing, updating,
  assigning, revoking, disabling, pruning, World, is_used, serve, Admitted, used_after, Step, Reach,
}

pub record IsTidy (used : List String) (ss : List Session) : Type 0 where
  pub distinct : IsDistinct ss
  pub drawn : (h : String) → any (is_of h) ss ≡ true → is_used h used ≡ true

-- The token was drawn and has no open session.
pub record IsDead (h : String) (used : List String) (ss : List Session) : Type 0 where
  pub closed : any (is_open h) ss ≡ false
  pub drawn : is_used h used ≡ true

Change-IsTidy :
    {used later : List String} {ss ts : List Session}
    → Change used ss later ts
    → IsTidy used ss
    → IsTidy later ts
Change-IsTidy (Change.keep used ss) t = t
Change-IsTidy (Change.spent used ss h) t = record {
  distinct = t.distinct;
  drawn = λ k e. ground (arith, t.drawn k);
}
Change-IsTidy (Change.one used ss now h) t = record {
  distinct = IsDistinct-revoke_token h now ss t.distinct;
  drawn = λ k e. ground (arith, t.drawn k, of-revoke_token k h now ss);
}
Change-IsTidy (Change.every used ss now u) t = record {
  distinct = IsDistinct-revoke_user u now ss t.distinct;
  drawn = λ k e. ground (arith, t.drawn k, of-revoke_user k u now ss);
}
Change-IsTidy (Change.prune used ss now) t = record {
  distinct = IsDistinct-prune now ss t.distinct;
  drawn = λ k e. t.drawn k (of-prune_true k now ss e);
}
Change-IsTidy (Change.opened used ss s f n) t = record {
  distinct = (n, t.distinct);
  drawn = λ k e. ground (arith, t.drawn k);
}
Change-IsTidy (Change.both c d) t = Change-IsTidy d (Change-IsTidy c t)

Change-IsDead :
    {h : String} {used later : List String} {ss ts : List Session}
    → Change used ss later ts
    → IsDead h used ss
    → IsDead h later ts
Change-IsDead (Change.keep used ss) d = d
Change-IsDead {h} (Change.spent used ss k) d = record { closed = d.closed; drawn = ground arith }
Change-IsDead {h} (Change.one used ss now k) d = record {
  closed = open-revoke_token h k now ss d.closed;
  drawn = d.drawn;
}
Change-IsDead {h} (Change.every used ss now u) d = record {
  closed = open-revoke_user h u now ss d.closed;
  drawn = d.drawn;
}
Change-IsDead {h} (Change.prune used ss now) d = record {
  closed = open-prune h now ss d.closed;
  drawn = d.drawn;
}
Change-IsDead {h} (Change.opened used ss s f n) d = elim (Bool-cases (str_eq s.token_hash h)) [
  | inl same ↦ ground (arith, ap (λ k. is_used k used) ((eq_iff s.token_hash h).0 same))
  | inr other ↦ record { closed = ground (arith, other); drawn = ground arith }
]
Change-IsDead (Change.both c e) d = Change-IsDead e (Change-IsDead c d)

module _ (t : AuthFns) where
  serve-Change :
      (fault : Faults) (m : World) (r : Request)
      → Admitted t r m
      → Change m.used m.db.sessions (used_after t r m.used) (serve t fault m.clock r m.db).sessions
  unfolding serve
  serve-Change fault m (registering ttl drawn i) a =
      register-Change t fault m.clock m.used ttl drawn i m.db a
  serve-Change fault m (logging_in ttl drawn email pw) a =
      login-Change t fault m.clock m.used ttl drawn email pw m.db a
  serve-Change fault m (logging_out token) a = logout-Change t fault m.clock m.used token m.db
  serve-Change fault m (logging_out_all token) a =
      logout_all-Change t fault m.clock m.used token m.db
  serve-Change fault m (refreshing ttl drawn token) a =
      refresh-Change t fault m.clock m.used ttl drawn token m.db a
  serve-Change fault m (updating token name) a =
      update_profile-Change t fault m.clock m.used token name m.db
  serve-Change fault m (assigning i target role scope org) a =
      assign_role-Change t fault m.clock m.used i target role scope org m.db
  serve-Change fault m (revoking i id) a = revoke_role-Change t fault m.clock m.used i id m.db
  serve-Change fault m (disabling i target flag) a =
      set_user_disabled-Change t fault m.clock m.used i target flag m.db
  serve-Change fault m (founding i name slug kind owner) a =
      create_organization-Change t fault m.used i name slug kind owner m.db
  serve-Change fault m pruning a = Change.prune m.used m.db.sessions m.clock

  Step-Change : {m n : World} → Step t m n → Change m.used m.db.sessions n.used n.db.sessions
  Step-Change (Step.tick m later h) = Change.keep m.used m.db.sessions
  Step-Change (Step.verify m fault token i u e) = Change.keep m.used m.db.sessions
  Step-Change (Step.request m fault r a) = serve-Change fault m r a

  Reach-Change : {m n : World} → Reach t m n → Change m.used m.db.sessions n.used n.db.sessions
  Reach-Change {m} Reach.here = Change.keep m.used m.db.sessions
  Reach-Change (Reach.next r s) = Change.both (Reach-Change r) (Step-Change s)

  dead-unverified :
      (fault : Faults) (now : ℕ) (db : AuthDb) (token : String) (used : List String)
      (r : Identity × User)
      → IsDead (t.hash_token token) used db.sessions
      → verified_identity t fault now db token ≢ ok r
  dead-unverified fault now db token used (i, u) d e =
      let v = verified_inv t fault now db token i u e in
      ground (arith, d.closed, session_of-open (t.hash_token token) db.sessions v.0 v.1 v.4)

  disabled_sessions :
      (fault : Faults) (now : ℕ) (i : Identity) (target : ℤ) (db : AuthDb)
      → (set_user_disabled fault now (actor_of i) target true db).1 ≡ ok tt
      → (set_user_disabled fault now (actor_of i) target true db).0.sessions
        ≡ revoke_user now (pos_part target) db.sessions
  unfolding set_user_disabled
  disabled_sessions fault now i target db e = ground arith

  -- In any run that starts with no sessions: once an administrator has disabled a user, a token that
  -- had a session of the user at that time never verifies again, whatever requests the service then
  -- handles, also where the user is enabled again.
  pub disabled_user_is_out :
      {m n p : World} (fault later : Faults) (i : Identity) (target : ℤ) (token : String)
      (s : Session) (r : Identity × User)
      → m.db.sessions ≡ []
      → Reach t m n
      → (set_user_disabled fault n.clock (actor_of i) target true n.db).1 ≡ ok tt
      → session_of (t.hash_token token) n.db.sessions ≡ some s
      → s.user_id ≡ pos_part target
      → Reach t
          (record n { db = (set_user_disabled fault n.clock (actor_of i) target true n.db).0 })
          p
      → verified_identity t later p.clock p.db token ≢ ok r
  disabled_user_is_out {m} {n} {p} fault later i target token s r start before done_ found owned
        after =
      let h = t.hash_token token in
      let u = pos_part target in
      let none_yet : IsTidy m.used m.db.sessions =
        rw start (record { distinct = tt; drawn = λ k e. ground arith }) in
      let tidy = Change-IsTidy (Reach-Change before) none_yet in
      let out : IsDead h n.used
          (set_user_disabled fault n.clock (actor_of i) target true n.db).0.sessions =
        rw (disabled_sessions fault n.clock i target n.db done_) (record {
          closed = revoke_user-closes h u n.clock n.db.sessions s tidy.distinct found owned;
          drawn = tidy.drawn h (session_of-of h n.db.sessions s found);
        }) in
      dead-unverified later p.clock p.db token p.used r (Change-IsDead (Reach-Change after) out)

-- ===== src/Auth/Verified.antt =====
-- What a verified identity says of the tables.
use hquizlet_platform.Prelude.{
  ℕ, ◌≡◌, refl, false, String, List, none, some, arith, Option-cases, inl, inr, ◌⊎◌,
}
use hquizlet_platform.Auth.Model.{
  User, Session, AuthDb, AuthError, Reply, ok, err, Faults, AuthFns, Identity,
}
use hquizlet_platform.Auth.Sessions.{
  session_of, user_by_id, load_platform_roles, legacy_role, verified_identity,
}

pub Reply-cases {ℓ} :
    {A : Type ℓ} (r : Reply A) → ((e : AuthError) × (r ≡ err e)) ⊎ ((a : A) × (r ≡ ok a))
Reply-cases (ok a) = inr (a, refl)
Reply-cases (err e) = inl (e, refl)

-- The session behind the token is open and its user is not disabled.
pub verified_inv :
    (t : AuthFns) (fault : Faults) (now : ℕ) (db : AuthDb) (token : String) (i : Identity)
    (u : User)
    → verified_identity t fault now db token ≡ ok (i, u)
    → (s : Session) × (session_of (t.hash_token token) db.sessions ≡ some s)
      × (user_by_id s.user_id db.users ≡ some u)
      × (u.disabled ≡ false)
      × (s.revoked_at ≡ none)
      × (roles : List String) × (load_platform_roles fault now db u ≡ ok roles)
      × (i.platform_roles ≡ roles)
      × (i.role ≡ legacy_role roles)
unfolding verified_identity
verified_inv t fault now db token i u e =
    elim (Option-cases (session_of (t.hash_token token) db.sessions)) [
      | inl absent ↦ ground (arith, absent)
      | inr (s, found) ↦ elim (Option-cases (user_by_id s.user_id db.users)) [
        | inl absent ↦ ground (arith, found, absent)
        | inr (v, known) ↦ elim (Reply-cases (load_platform_roles fault now db v)) [
          | inl (x, failed) ↦ ground (arith, found, known, failed)
          | inr (roles, loaded) ↦
              let same : v ≡ u = ground (arith, found, known, loaded) in
              (
                s,
                found,
                rw known (rw same refl),
                ground (arith, found, known, loaded),
                ground (arith, found, known, loaded),
                roles,
                rw (← same) loaded,
                ground (arith, found, known, loaded),
                ground (arith, found, known, loaded),
              )
        ]
      ]
    ]

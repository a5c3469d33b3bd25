-- ===== src/Auth/Runs.antt =====
-- The auth service as its requests run, in any order and with any failures.
use hquizlet_platform.Prelude.{
  ℕ, ◌≤◌, ◌≡◌, Bool, false, String, List, [], ◌∷◌, ◌⊎◌, Option, none, some, any, str_eq,
}
use hquizlet_platform.Prelude.Int.{ℤ}
use hquizlet_platform.Auth.Model.{User, AuthDb, ok, Faults, AuthFns, Identity}
use hquizlet_platform.Auth.Sessions.{prune_expired, actor_of, verified_identity}
use hquizlet_platform.Auth.Accounts.{
  RegisterInput, register, login, logout, logout_all, refresh, update_profile,
}
use hquizlet_platform.Auth.Iam.{assign_role}
use hquizlet_platform.Auth.Iam.Removals.{revoke_role, set_user_disabled}
use hquizlet_platform.Auth.Organizations.{create_organization}

-- A request. Those of administrators carry the identity that the gateway has verified before; those
-- that open a session the lifetime of the session and the token drawn for it.
pub data Request : Type 0 where
  registering : ℕ → Option String → RegisterInput → Request
  logging_in : ℕ → Option String → String → String → Request
  logging_out : String → Request
  logging_out_all : String → Request
  refreshing : ℕ → Option String → String → Request
  updating : String → String → Request
  assigning : Identity → ℤ → String → String → Option ℤ → Request
  revoking : Identity → ℕ → Request
  disabling : Identity → ℤ → Bool → Request
  founding : Identity → String → String → String → ℤ → Request
  pruning : Request

-- `issued` are the identities that were verified, `used` the hashes of the tokens that were drawn:
-- 256 random bits, which do not repeat.
pub record World : Type 0 where
  pub db : AuthDb
  pub clock : ℕ
  pub issued : List Identity
  pub used : List String

abbrev pub is_used : String → List String → Bool
is_used h = any (λ x. str_eq x h)

abbrev pub IsIssued : Identity → List Identity → Type 0
IsIssued i [] = ⊥
IsIssued i (j ∷ is) = (i ≡ j) ⊎ IsIssued i is

module _ (t : AuthFns) where
  unfoldable pub serve : Faults → ℕ → Request → AuthDb → AuthDb
  serve fault now (registering ttl drawn i) db = (register t fault now ttl drawn i db).0
  serve fault now (logging_in ttl drawn email pw) db = (login t fault now ttl drawn email pw db).0
  serve fault now (logging_out token) db = logout t fault now token db
  serve fault now (logging_out_all token) db = (logout_all t fault now token db).0
  serve fault now (refreshing ttl drawn token) db = (refresh t fault now ttl drawn token db).0
  serve fault now (updating token name) db = (update_profile t fault now token name db).0
  serve fault now (assigning i target role scope org) db =
      (assign_role fault (actor_of i) target role scope org db).0
  serve fault now (revoking i id) db = (revoke_role fault now (actor_of i) id db).0
  serve fault now (disabling i target flag) db =
      (set_user_disabled fault now (actor_of i) target flag db).0
  serve fault now (founding i name slug kind owner) db =
      (create_organization t fault (actor_of i) name slug kind owner db).0
  serve fault now pruning db = record db { sessions = prune_expired now db.sessions }

  -- A token is drawn at random, and an administrator's identity was verified at some time.
  abbrev pub Fresh : Option String → List String → Type 0
  Fresh none used = Unit
  Fresh (some token) used = is_used (t.hash_token token) used ≡ false

  abbrev pub Admitted : Request → World → Type 0
  Admitted (registering _ drawn _) m = Fresh drawn m.used
  Admitted (logging_in _ drawn _ _) m = Fresh drawn m.used
  Admitted (refreshing _ drawn _) m = Fresh drawn m.used
  Admitted (assigning i _ _ _ _) m = IsIssued i m.issued
  Admitted (revoking i _) m = IsIssued i m.issued
  Admitted (disabling i _ _) m = IsIssued i m.issued
  Admitted (founding i _ _ _ _) m = IsIssued i m.issued
  Admitted _ m = Unit

  abbrev pub spend : Option String → List String → List String
  spend none used = used
  spend (some token) used = t.hash_token token ∷ used

  abbrev pub used_after : Request → List String → List String
  used_after (registering _ drawn _) used = spend drawn used
  used_after (logging_in _ drawn _ _) used = spend drawn used
  used_after (refreshing _ drawn _) used = spend drawn used
  used_after _ used = used

  pub data Step : World → World → Type 0 where
    tick : (m : World) (later : ℕ) → m.clock ≤ later → Step m (record m { clock = later })
    verify :
        (m : World) (fault : Faults) (token : String) (i : Identity) (u : User)
        → verified_identity t fault m.clock m.db token ≡ ok (i, u)
        → Step m (record m { issued = i ∷ m.issued })
    request :
        (m : World) (fault : Faults) (r : Request)
        → Admitted r m
        → Step m (record m { db = serve fault m.clock r m.db; used = used_after r m.used })

  pub data Reach (m : World) : World → Type 0 where
    here : Reach m m
    next : {n p : World} → Reach m n → Step n p → Reach m p

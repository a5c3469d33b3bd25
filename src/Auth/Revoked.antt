-- ===== src/Auth/Revoked.antt =====
-- The rows of the sessions: tokens that are dead, and rows whose tokens differ.
use hquizlet_platform.Prelude.{
  ℕ, ◌≡◌, refl, ap, Bool, true, false, ◌&&◌, String, List, [], ◌∷◌, none, some, any, arith, str_eq,
  eq_iff, Bool-cases, inl, inr,
}
use hquizlet_platform.Auth.Model.{Session}
use hquizlet_platform.Auth.Sessions.{session_of, revoke_token, revoke_user, prune_expired}

-- A session of the token that is not revoked.
abbrev pub is_open : String → Session → Bool
is_open h s = str_eq s.token_hash h && elim s.revoked_at [ none ↦ true | some _ ↦ false ]

abbrev pub is_of : String → Session → Bool
is_of h s = str_eq s.token_hash h

-- No two rows have one token.
abbrev pub IsDistinct : List Session → Type 0
IsDistinct [] = Unit
IsDistinct (s ∷ ss) = (any (is_of s.token_hash) ss ≡ false) × IsDistinct ss

pub open-revoke_token :
    (h k : String) (now : ℕ) (ss : List Session)
    → any (is_open h) ss ≡ false
    → any (is_open h) (revoke_token now k ss) ≡ false
unfolding revoke_token
open-revoke_token h k now [] e = refl
open-revoke_token h k now (s ∷ ss) e = ground (arith, open-revoke_token h k now ss)

pub open-revoke_user :
    (h : String) (u now : ℕ) (ss : List Session)
    → any (is_open h) ss ≡ false
    → any (is_open h) (revoke_user now u ss) ≡ false
unfolding revoke_user
open-revoke_user h u now [] e = refl
open-revoke_user h u now (s ∷ ss) e = ground (arith, open-revoke_user h u now ss)

pub open-prune :
    (h : String) (now : ℕ) (ss : List Session)
    → any (is_open h) ss ≡ false
    → any (is_open h) (prune_expired now ss) ≡ false
unfolding prune_expired
open-prune h now [] e = refl
open-prune h now (s ∷ ss) e = ground (arith, open-prune h now ss)

pub of-revoke_token :
    (h k : String) (now : ℕ) (ss : List Session)
    → any (is_of h) (revoke_token now k ss) ≡ any (is_of h) ss
unfolding revoke_token
of-revoke_token h k now [] = refl
of-revoke_token h k now (s ∷ ss) = ground (arith, of-revoke_token h k now ss)

pub of-revoke_user :
    (h : String) (u now : ℕ) (ss : List Session)
    → any (is_of h) (revoke_user now u ss) ≡ any (is_of h) ss
unfolding revoke_user
of-revoke_user h u now [] = refl
of-revoke_user h u now (s ∷ ss) = ground (arith, of-revoke_user h u now ss)

pub of-prune :
    (h : String) (now : ℕ) (ss : List Session)
    → any (is_of h) ss ≡ false
    → any (is_of h) (prune_expired now ss) ≡ false
unfolding prune_expired
of-prune h now [] e = refl
of-prune h now (s ∷ ss) e = ground (arith, of-prune h now ss)

pub IsDistinct-revoke_token :
    (k : String) (now : ℕ) (ss : List Session) → IsDistinct ss → IsDistinct (revoke_token now k ss)
unfolding revoke_token
IsDistinct-revoke_token k now [] d = tt
IsDistinct-revoke_token k now (s ∷ ss) d =
    ground (arith, of-revoke_token s.token_hash k now ss, IsDistinct-revoke_token k now ss)

pub IsDistinct-revoke_user :
    (u now : ℕ) (ss : List Session) → IsDistinct ss → IsDistinct (revoke_user now u ss)
unfolding revoke_user
IsDistinct-revoke_user u now [] d = tt
IsDistinct-revoke_user u now (s ∷ ss) d =
    ground (arith, of-revoke_user s.token_hash u now ss, IsDistinct-revoke_user u now ss)

pub IsDistinct-prune :
    (now : ℕ) (ss : List Session) → IsDistinct ss → IsDistinct (prune_expired now ss)
unfolding prune_expired
IsDistinct-prune now [] d = tt
IsDistinct-prune now (s ∷ ss) d =
    ground (arith, of-prune s.token_hash now ss, IsDistinct-prune now ss)

pub of-prune_true :
    (h : String) (now : ℕ) (ss : List Session)
    → any (is_of h) (prune_expired now ss) ≡ true
    → any (is_of h) ss ≡ true
unfolding prune_expired
of-prune_true h now [] e = e
of-prune_true h now (s ∷ ss) e = ground (arith, of-prune_true h now ss)

pub session_of-of :
    (h : String) (ss : List Session) (s : Session)
    → session_of h ss ≡ some s
    → any (is_of h) ss ≡ true
unfolding session_of
session_of-of h [] s e = cc
session_of-of h (x ∷ ss) s e = ground (arith, session_of-of h ss s)

not_of-open :
    (h : String) (ss : List Session) → any (is_of h) ss ≡ false → any (is_open h) ss ≡ false
not_of-open h [] e = refl
not_of-open h (s ∷ ss) e = ground (arith, not_of-open h ss)

-- The session of a user is not open once all sessions of the user are revoked.
pub revoke_user-closes :
    (h : String) (u now : ℕ) (ss : List Session) (s : Session)
    → IsDistinct ss
    → session_of h ss ≡ some s
    → s.user_id ≡ u
    → any (is_open h) (revoke_user now u ss) ≡ false
unfolding session_of revoke_user
revoke_user-closes h u now [] s d e o = refl
revoke_user-closes h u now (x ∷ ss) s d e o = elim (Bool-cases (str_eq x.token_hash h)) [
  | inl same ↦ ground (
    arith,
    same,
    ap (λ k. any (is_of k) ss) ((eq_iff x.token_hash h).0 same),
    open-revoke_user h u now ss,
    not_of-open h ss,
  )
  | inr other ↦ ground (arith, other, revoke_user-closes h u now ss s)
]

-- The session that a lookup finds is open or revoked.
pub session_of-open :
    (h : String) (ss : List Session) (s : Session)
    → session_of h ss ≡ some s
    → s.revoked_at ≡ none
    → any (is_open h) ss ≡ true
unfolding session_of
session_of-open h [] s e r = cc
session_of-open h (x ∷ ss) s e r = ground (arith, session_of-open h ss s)

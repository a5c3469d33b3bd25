-- ===== src/Auth/LoginGuard/Locks.antt =====
-- How long an account that was guessed wrong stays locked.
use hquizlet_platform.Prelude.{
  ℕ, ◌+◌, ◌-◌, ◌≤◌, ◌<◌, ◌≡◌, ◌≢◌, refl, sym, ap, ◌∙◌, false, String, List, [], ◌∷◌, ◌++◌, none,
  some, length, All, arith, ltb, str_eq, eq_iff, eq_refl, Bool-cases, Option-cases, inl, inr,
}
use hquizlet_platform.Prelude.Text.{append, has_prefix, has_prefix-append}
use hquizlet_platform.Auth.LoginGuard.{
  LoginEntry, Guard, guard_window, lock_bits, lock_until, is_over, current, failed, entry_of, put,
  drop_stale, prune_locked, record_locked, account_ip_key, account_key, account_limit,
  account_ip_limit, lock_base, account_lock_base, wait_of, blocked, record_failure,
}

-- A failure never shortens the lock of its entry, whatever the product wraps around to.
failed-le :
    (now limit base : ℕ) (e : LoginEntry) → e.locked_until ≤ (failed now limit base e).locked_until
unfolding failed
failed-le now limit base e = ground arith

lock_until_first : (now : ℕ) → lock_until now account_lock_base 0 ≡ now + account_lock_base
unfolding lock_until lock_bits
lock_until_first now = refl

-- The failure that spends the budget locks for five minutes.
failed_last :
    (now : ℕ) (e : LoginEntry)
    → e.failures + 1 ≡ account_limit
    → now + account_lock_base ≤ (failed now account_limit account_lock_base e).locked_until
unfolding failed
failed_last now e h =
    let z : e.failures + 1 - account_limit ≡ 0 = omega arith in
    rw z (ground (arith, lock_until_first now))

entry_of-put : (key : String) (e : LoginEntry) (g : Guard) → entry_of key (put key e g) ≡ some e
unfolding entry_of put
entry_of-put key e [] = ground (arith, eq_refl key)
entry_of-put key e ((k, f) ∷ g) = ground (arith, entry_of-put key e g)

entry_of-put_ne :
    (key other : String) (e : LoginEntry) (g : Guard)
    → str_eq other key ≡ false
    → entry_of key (put other e g) ≡ entry_of key g
unfolding entry_of put
entry_of-put_ne key other e [] h = ground arith
entry_of-put_ne key other e ((k, f) ∷ g) h = elim (Bool-cases (str_eq k other)) [
  | inl same ↦ ground (arith, same, ap (λ x. str_eq x key) ((eq_iff k other).0 same))
  | inr differs ↦ ground (arith, differs, entry_of-put_ne key other e g h)
]

entry_of-drop :
    (key : String) (now : ℕ) (e : LoginEntry) (g : Guard)
    → entry_of key g ≡ some e
    → is_over now e ≡ false
    → entry_of key (drop_stale now g) ≡ some e
unfolding entry_of drop_stale
entry_of-drop key now e [] h live = h
entry_of-drop key now e ((k, f) ∷ g) h live = ground (arith, live, entry_of-drop key now e g)

entry_of-prune :
    (key : String) (now : ℕ) (e : LoginEntry) (g : Guard)
    → entry_of key g ≡ some e
    → is_over now e ≡ false
    → entry_of key (prune_locked now g) ≡ some e
unfolding prune_locked
entry_of-prune key now e g h live = elim (Bool-cases (ltb (length g) 10000)) [
  | inl small ↦ rw small h
  | inr big ↦ rw big (entry_of-drop key now e g h live)
]

-- The keys of addresses are none of accounts.
keys_differ : (a ip b : String) → str_eq (account_ip_key a ip) (account_key b) ≡ false
keys_differ a ip b = elim (Bool-cases (str_eq (account_ip_key a ip) (account_key b))) [
  | inl same ↦
      let e =
        ap (λ x. has_prefix x "acct-ip|") ((eq_iff (account_ip_key a ip) (account_key b)).0 same) in
      absurd (cc (e, has_prefix-append "acct-ip|" (append a (append "|" ip))))
  | inr differs ↦ differs
]

-- The failures of an entry, one after the other.
fail_all : List (String × ℕ) → LoginEntry → LoginEntry
fail_all [] e = e
fail_all ((ip, now) ∷ tries) e = fail_all tries (failed now account_limit account_lock_base e)

abbrev pub InWindow : LoginEntry → String × ℕ → Type 0
InWindow e (ip, now) = now < e.window_start + guard_window

module _ (normalize : String → String) (email : String) where
  -- Wrong passwords for one account, from any addresses.
  unfoldable pub fail_from : List (String × ℕ) → Guard → Guard
  fail_from [] g = g
  fail_from ((ip, now) ∷ tries) g = fail_from tries (record_failure normalize email ip now g)

  module _ (known : str_eq (normalize email) "" ≡ false) where
    record_failure-entry :
        (ip : String) (now : ℕ) (e : LoginEntry) (g : Guard)
        → entry_of (account_key (normalize email)) g ≡ some e
        → now < e.window_start + guard_window
        → entry_of (account_key (normalize email)) (record_failure normalize email ip now g)
          ≡ some (failed now account_limit account_lock_base e)
    unfolding record_failure record_locked
    record_failure-entry ip now e g h w =
        let key = account_key (normalize email) in
        let other = account_ip_key (normalize email) ip in
        let live : is_over now e ≡ false = ground arith in
        let kept = prune_locked now g in
        let first = failed now account_ip_limit lock_base (current now (entry_of other kept)) in
        let g' = put other first kept in
        let found : entry_of key g' ≡ some e =
          entry_of-put_ne key other first kept (keys_differ (normalize email) ip (normalize email))
          ∙ entry_of-prune key now e g h live in
        rw (known, record_failure)
          (entry_of-put key
              (failed now account_limit account_lock_base (current now (entry_of key g'))) g'
            ∙ rw (found, live) refl)

    fail_from-entry :
        (tries : List (String × ℕ)) (e : LoginEntry) (g : Guard)
        → entry_of (account_key (normalize email)) g ≡ some e
        → All (InWindow e) tries
        → entry_of (account_key (normalize email)) (fail_from tries g) ≡ some (fail_all tries e)
    unfolding fail_from fail_all failed
    fail_from-entry [] e g h w = h
    fail_from-entry ((ip, now) ∷ tries) e g h w =
        fail_from-entry tries (failed now account_limit account_lock_base e)
          (record_failure normalize email ip now g) (record_failure-entry ip now e g h w.0) w.1

fail_all-le :
    (tries : List (String × ℕ)) (e : LoginEntry) → e.locked_until ≤ (fail_all tries e).locked_until
unfolding fail_all
fail_all-le [] e = omega arith
fail_all-le ((ip, now) ∷ tries) e = omega (
  arith,
  failed-le now account_limit account_lock_base e,
  fail_all-le tries (failed now account_limit account_lock_base e),
)

-- The failure in the middle of the list spends the budget.
fail_all-locks :
    (before : List (String × ℕ)) (ip : String) (t : ℕ) (after : List (String × ℕ)) (e : LoginEntry)
    → e.failures + length before + 1 ≡ account_limit
    → t + account_lock_base ≤ (fail_all (before ++ (ip, t) ∷ after) e).locked_until
unfolding fail_all failed
fail_all-locks [] ip t after e h =
    let f = failed t account_limit account_lock_base e in
    omega (arith, failed_last t e (omega arith), fail_all-le after f)
fail_all-locks ((ip', now) ∷ before) ip t after e h =
    fail_all-locks before ip t after (failed now account_limit account_lock_base e) (omega arith)

wait_of-locked : (now : ℕ) (e : LoginEntry) → now < e.locked_until → wait_of now (some e) ≢ none
wait_of-locked now e h = ground arith

blocked-account :
    (normalize : String → String) (email here : String) (now : ℕ) (g : Guard)
    → str_eq (normalize email) "" ≡ false
    → wait_of now (entry_of (account_key (normalize email)) g) ≢ none
    → blocked normalize email here now g ≢ none
unfolding blocked
blocked-account normalize email here now g known waits b =
    elim (Option-cases (wait_of now (entry_of (account_ip_key (normalize email) here) g))) [
      | inl free ↦ waits (sym (rw (known, blocked) (rw free refl)) ∙ b)
      | inr (w, held) ↦ cc (b, blocked_held w held)
    ]
  where
    blocked_held :
        (w : ℕ)
        → wait_of now (entry_of (account_ip_key (normalize email) here) g) ≡ some w
        → blocked normalize email here now g ≡ some w
    blocked_held w held = rw (known, blocked) (rw held refl)

-- Changing the address does not help to guess: from an entry of the account with some failures, once
-- wrong passwords from any addresses have brought the failures of its window to twenty, the account
-- is blocked from every address for five minutes from the twentieth on, whatever further failures
-- are recorded in the window and whatever other entries the guard drops.
pub rotating_addresses_locked :
    (normalize : String → String) (email : String) (before after : List (String × ℕ))
    (ip here : String) (t now : ℕ) (e : LoginEntry) (g : Guard)
    → str_eq (normalize email) "" ≡ false
    → entry_of (account_key (normalize email)) g ≡ some e
    → e.failures + length before + 1 ≡ account_limit
    → All (InWindow e) (before ++ (ip, t) ∷ after)
    → now < t + account_lock_base
    → blocked normalize email here now (fail_from normalize email (before ++ (ip, t) ∷ after) g)
      ≢ none
unfolding blocked
rotating_addresses_locked normalize email before after ip here t now e g known found budget w soon =
    let tries = before ++ (ip, t) ∷ after in
    let later = fail_from-entry normalize email known tries e g found w in
    let locked = fail_all-locks before ip t after e budget in
    blocked-account normalize email here now (fail_from normalize email tries g) known
      (rw later (wait_of-locked now (fail_all tries e) (omega (arith, locked, soon))))

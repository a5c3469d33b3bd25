-- ===== src/Auth/LoginGuard.antt =====
-- services/auth/internal/http/login_guard.go: failed logins of an account. The Go map is the list of
-- its entries. Times are nanoseconds since the zero of time.Time, which stands for no lock, and a
-- duration is an int64 whose product wraps around.
pub mod Locks
use hquizlet_platform.Prelude.{
  ℕ, ◌+◌, ◌-◌, ◌*◌, ◌%◌, ◌^◌, Bool, true, false, not, ◌&&◌, ◌||◌, String, List, [], ◌∷◌, Option,
  none, some, length, ltb, leb, ◌==◌, str_eq, if◌then◌else◌,
}
use hquizlet_platform.Prelude.Text.{append}

-- loginEntry
pub record LoginEntry : Type 0 where
  pub failures : ℕ
  pub window_start : ℕ
  pub locked_until : ℕ

abbrev pub Guard : Type 0
Guard = List (String × LoginEntry)

abbrev pub second : ℕ
second = 1000000000

-- loginAccountIPLimit, loginAccountLimit, the windows, loginLockBase, loginLockMax and the base of
-- the lock of an account.
abbrev pub account_ip_limit : ℕ
account_ip_limit = 5

abbrev pub account_limit : ℕ
account_limit = 20

abbrev pub guard_window : ℕ
guard_window = 900 * second

abbrev pub lock_base : ℕ
lock_base = 30 * second

abbrev pub account_lock_base : ℕ
account_lock_base = 300 * second

abbrev pub lock_max : ℕ
lock_max = 900 * second

abbrev pub guard_max_keys : ℕ
guard_max_keys = 10000

-- accountIPKey and accountKey
abbrev pub account_ip_key : String → String → String
account_ip_key email ip = append "acct-ip|" (append email (append "|" ip))

abbrev pub account_key : String → String
account_key email = append "acct|" email

unfoldable pub entry_of : String → Guard → Option LoginEntry
entry_of key [] = none
entry_of key ((k, e) ∷ es) = if str_eq k key then some e else entry_of key es

unfoldable pub put : String → LoginEntry → Guard → Guard
put key entry [] = (key, entry) ∷ []
put key entry ((k, e) ∷ es) = if str_eq k key then (k, entry) ∷ es else (k, e) ∷ put key entry es

unfoldable pub remove : String → Guard → Guard
remove key [] = []
remove key ((k, e) ∷ es) = let rest = remove key es in if str_eq k key then rest else (k, e) ∷ rest

abbrev pub is_over : ℕ → LoginEntry → Bool
is_over now e = leb guard_window (now - e.window_start)

-- pruneLocked
unfoldable pub drop_stale : ℕ → Guard → Guard
drop_stale now [] = []
drop_stale now ((k, e) ∷ es) =
    let rest = drop_stale now es in
    if is_over now e && not (ltb now e.locked_until) then rest else (k, e) ∷ rest

unfoldable pub prune_locked : ℕ → Guard → Guard
unfolding drop_stale
prune_locked now g = if ltb (length g) guard_max_keys then g else drop_stale now g

-- `lockBase * time.Duration(math.Pow(2, over))` as the 64 bits of an int64: a power from 2^63 on
-- converts to the least int64.
unfoldable pub lock_bits : ℕ → ℕ → ℕ
lock_bits base over = base * (if ltb over 63 then 2 ^ over else 2 ^ 63) % 2 ^ 64

-- now.Add of the lock: a negative product lies behind, a product above loginLockMax is cut.
unfoldable pub lock_until : ℕ → ℕ → ℕ → ℕ
unfolding lock_bits
lock_until now base over =
    let b = lock_bits base over in
    if ltb b (2 ^ 63) then now + (if ltb lock_max b then lock_max else b) else now - (2 ^ 64 - b)

-- The entry that recordLocked counts on.
abbrev pub current : ℕ → Option LoginEntry → LoginEntry
current now none = record { failures = 0; window_start = now; locked_until = 0 }
current now (some e) =
    if is_over now e then record { failures = 0; window_start = now; locked_until = 0 } else e

-- The entry that recordLocked stores.
unfoldable pub failed : ℕ → ℕ → ℕ → LoginEntry → LoginEntry
failed now limit base e =
    let n = e.failures + 1 in
    let until = lock_until now base (n - limit) in
    record e {
      failures = n;
      locked_until =
          if leb limit n
          then if ltb e.locked_until until then until else e.locked_until
          else e.locked_until;
    }

-- recordLocked; both windows are loginAccountWindow.
unfoldable pub record_locked : String → ℕ → ℕ → ℕ → Guard → Guard
unfolding failed
record_locked key now limit base g =
    put key (failed now limit base (current now (entry_of key g))) g

-- The wait that a key asks for.
abbrev pub wait_of : ℕ → Option LoginEntry → Option ℕ
wait_of now none = none
wait_of now (some e) =
    if (e.locked_until == 0) || not (ltb now e.locked_until)
    then none
    else some (if ltb (e.locked_until - now) second then second else e.locked_until - now)

module _ (normalize : String → String) where
  -- Blocked
  unfoldable pub blocked : String → String → ℕ → Guard → Option ℕ
  unfolding entry_of
  blocked email ip now g =
      let account = normalize email in
      if str_eq account ""
      then none
      else elim (wait_of now (entry_of (account_ip_key account ip) g)) [
        | some w ↦ some w
        | none ↦ wait_of now (entry_of (account_key account) g)
      ]

  -- RecordFailure
  unfoldable pub record_failure : String → String → ℕ → Guard → Guard
  unfolding prune_locked record_locked
  record_failure email ip now g =
      let account = normalize email in
      if str_eq account ""
      then g
      else record_locked (account_key account) now account_limit account_lock_base (
          record_locked (account_ip_key account ip) now account_ip_limit lock_base
            (prune_locked now g))

  -- RecordSuccess
  unfoldable pub record_success : String → String → Guard → Guard
  unfolding remove
  record_success email ip g =
      let account = normalize email in
      if str_eq account ""
      then g
      else remove (account_key account) (remove (account_ip_key account ip) g)

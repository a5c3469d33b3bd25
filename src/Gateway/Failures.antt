-- ===== src/Gateway/Failures.antt =====
-- The failureTracker of services/gateway/ratelimit.go: how many wrong guesses a key has made in its
-- window. The Go map is the list of its entries; times are nanoseconds of a clock that does not go
-- back, and a limit or window of 0 stands for any that is not positive.
pub mod Counting
use hquizlet_platform.Prelude.{
  ℕ, ◌+◌, ◌-◌, Bool, true, false, ◌||◌, String, List, [], ◌∷◌, Option, none, some, length, ltb, leb,
  ◌==◌, str_eq, if◌then◌else◌,
}

pub record FailureEntry : Type 0 where
  pub window_start : ℕ
  pub count : ℕ

abbrev pub Entries : Type 0
Entries = List (String × FailureEntry)

-- entries[key]
unfoldable pub entry_of : String → Entries → Option FailureEntry
entry_of key [] = none
entry_of key ((k, e) ∷ es) = if str_eq k key then some e else entry_of key es

-- entries[key] = entry
unfoldable pub put : String → FailureEntry → Entries → Entries
put key entry [] = (key, entry) ∷ []
put key entry ((k, e) ∷ es) = if str_eq k key then (k, entry) ∷ es else (k, e) ∷ put key entry es

abbrev pub is_over : ℕ → ℕ → FailureEntry → Bool
is_over window now e = leb window (now - e.window_start)

-- The loop that deletes the entries whose window is over.
unfoldable pub purge : ℕ → ℕ → Entries → Entries
purge window now [] = []
purge window now ((k, e) ∷ es) =
    let rest = purge window now es in if is_over window now e then rest else (k, e) ∷ rest

-- Blocked; `some wait` where the key is blocked.
unfoldable pub blocked : Entries → String → ℕ → ℕ → ℕ → Option ℕ
blocked es key limit window now =
    if (limit == 0) || (window == 0) then none else elim (entry_of key es) [
      | none ↦ none
      | some e ↦
          let wait = window - (now - e.window_start) in
          if is_over window now e
          then none
          else if ltb e.count limit
          then none
          else some (if ltb wait 1000000000 then 1000000000 else wait)
    ]

-- RecordFailure
unfoldable pub record_failure : ℕ → Entries → String → ℕ → ℕ → Entries
record_failure max_keys es key window now = elim (entry_of key es) [
  | some e ↦
      put key
        (if is_over window now e
          then record { window_start = now; count = 1 }
          else record e { count = e.count + 1 })
        es
  | none ↦
      let kept = if leb max_keys (length es) then purge window now es else es in
      if leb max_keys (length kept)
      then kept
      else put key (record { window_start = now; count = 1 }) kept
]

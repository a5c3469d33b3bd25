-- ===== src/Gateway/Tokens.antt =====
-- services/gateway/tokencache.go and verifyIdentity of main.go: the identities that the gateway keeps
-- for a minute. `key_of` is tokenKey, a SHA-256; `auth` is the answer of the auth service to a token at
-- a time, none where it refuses or cannot be reached. Times are nanoseconds.
pub mod Fresh
use hquizlet_platform.Prelude.{
  ℕ, ◌+◌, ◌≤◌, Bool, true, false, String, List, [], ◌∷◌, Option, none, some, ltb, str_eq,
  if◌then◌else◌,
}
use hquizlet_platform.Auth.Model.{Identity}

-- cachedIdentity
pub record Cached : Type 0 where
  pub identity : Identity
  pub expires : ℕ

abbrev pub TokenCache : Type 0
TokenCache = List (String × Cached)

-- The lifetime of an entry, and the time that a call of the auth service may take.
abbrev pub ttl : ℕ
ttl = 60000000000

abbrev pub call_timeout : ℕ
call_timeout = 2000000000

unfoldable pub entry_of : String → TokenCache → Option Cached
entry_of key [] = none
entry_of key ((k, e) ∷ c) = if str_eq k key then some e else entry_of key c

-- tokenCache.Get
unfoldable pub get : String → ℕ → TokenCache → Option Identity
unfolding entry_of
get key now c = elim (entry_of key c) [
  | none ↦ none
  | some e ↦ if ltb e.expires now then none else some e.identity
]

-- tokenCache.Delete
unfoldable pub delete : String → TokenCache → TokenCache
delete key [] = []
delete key ((k, e) ∷ c) = let rest = delete key c in if str_eq k key then rest else (k, e) ∷ rest

-- tokenCache.Set
unfoldable pub set_entry : String → Identity → ℕ → TokenCache → TokenCache
unfolding delete
set_entry key i now c = (key, record { identity = i; expires = now + ttl }) ∷ delete key c

-- One turn of janitor.
unfoldable pub sweep : ℕ → TokenCache → TokenCache
sweep now [] = []
sweep now ((k, e) ∷ c) = let rest = sweep now c in if ltb e.expires now then rest else (k, e) ∷ rest

-- A request of authProxy that logs out or refreshes deletes the entry of its token; a call of the
-- auth service and the storing of its answer end in time.
pub data Event : Type 0 where
  verifies : String → ℕ → ℕ → ℕ → Event
  forgets : String → Event
  sweeps : ℕ → Event

abbrev pub InTime : Event → Type 0
InTime (verifies token looked answered stored) =
    (answered ≤ stored) × (stored ≤ answered + call_timeout)
InTime _ = Unit

module _ (key_of : String → String) (auth : ℕ → String → Option Identity) where
  -- verifyIdentity, of a token that is not empty: it looks into the cache at one time, the auth
  -- service answers at a second, and the answer is stored at a third.
  unfoldable pub verify_identity : String → ℕ → ℕ → ℕ → TokenCache → TokenCache × Option Identity
  unfolding get set_entry
  verify_identity token looked answered stored c = elim (get (key_of token) looked c) [
    | some i ↦ (c, some i)
    | none ↦ elim (auth answered token) [
      | none ↦ (c, none)
      | some i ↦ (set_entry (key_of token) i stored c, some i)
    ]
  ]

  unfoldable pub step : Event → TokenCache → TokenCache
  unfolding verify_identity delete sweep
  step (verifies token looked answered stored) c =
      (verify_identity token looked answered stored c).0
  step (forgets token) c = delete (key_of token) c
  step (sweeps now) c = sweep now c

  unfoldable pub run : List Event → TokenCache → TokenCache
  unfolding step
  run [] c = c
  run (e ∷ es) c = run es (step e c)

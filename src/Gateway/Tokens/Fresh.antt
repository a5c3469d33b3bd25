-- ===== src/Gateway/Tokens/Fresh.antt =====
-- An identity from the cache was verified lately.
use hquizlet_platform.Prelude.{
  leb→le, ℕ, ◌+◌, ◌≤◌, ◌<◌, ◌≡◌, refl, sym, ap, ◌∙◌, Bool, true, not, ◌||◌, all, leb, String, List,
  [], ◌∷◌, Option, none, some, All, arith, str_eq, eq_iff, Bool-cases, Option-cases, inl, inr,
}
use hquizlet_platform.Auth.Model.{Identity}
use hquizlet_platform.Gateway.Tokens.{
  Cached, TokenCache, ttl, call_timeout, entry_of, get, delete, set_entry, sweep, verify_identity,
  Event, verifies, forgets, sweeps, step, run, InTime,
}

-- The entries of one key are over by a time.
abbrev over_by : String → ℕ → String × Cached → Bool
over_by key t (k, e) = not (str_eq k key) || leb e.expires t

abbrev Expires : String → ℕ → TokenCache → Type 0
Expires key t c = all (over_by key t) c ≡ true

delete-Expires :
    (key k : String) (t : ℕ) (c : TokenCache) → Expires key t c → Expires key t (delete k c)
unfolding delete
delete-Expires key k t [] h = refl
delete-Expires key k t ((j, e) ∷ c) h = ground (arith, delete-Expires key k t c)

sweep-Expires :
    (key : String) (t now : ℕ) (c : TokenCache) → Expires key t c → Expires key t (sweep now c)
unfolding sweep
sweep-Expires key t now [] h = refl
sweep-Expires key t now ((j, e) ∷ c) h = ground (arith, sweep-Expires key t now c)

-- An entry that is over is not served.
get-Expires :
    (key : String) (t now : ℕ) (c : TokenCache) → Expires key t c → t < now → get key now c ≡ none
unfolding get entry_of
get-Expires key t now [] h late = refl
get-Expires key t now ((j, e) ∷ c) h late = elim (Bool-cases (str_eq j key)) [
  | inl same ↦ ground (arith, same)
  | inr other ↦ ground (arith, other, get-Expires key t now c)
]

module _ (key_of : String → String) (auth : ℕ → String → Option Identity) (token : String)
    (since : ℕ) (distinct : (a b : String) → key_of a ≡ key_of b → a ≡ b)
    (refused : (t : ℕ) → since ≤ t → auth t token ≡ none) where
  abbrev deadline : ℕ
  deadline = since + call_timeout + ttl

  -- An answer that is stored under the key of the token was given before.
  stored-Expires :
      (other : String) (i : Identity) (answered stored : ℕ)
      → stored ≤ answered + call_timeout
      → auth answered other ≡ some i
      → over_by
          (key_of token)
          deadline
          (key_of other, record { identity = i; expires = stored + ttl })
        ≡ true
  stored-Expires other i answered stored t e =
      elim (Bool-cases (str_eq (key_of other) (key_of token))) [
        | inl same ↦
            let is_token = distinct other token ((eq_iff (key_of other) (key_of token)).0 same) in
            elim (Bool-cases (leb since answered)) [
              | inl late ↦ cc (
                  sym e
                  ∙ ap (auth answered) is_token
                  ∙ refused answered (leb→le since answered late))
              | inr early ↦ ground (arith, same, early, t)
            ]
        | inr differs ↦ ground (arith, differs)
      ]

  step-Expires :
      (e : Event) (c : TokenCache)
      → InTime e
      → Expires (key_of token) deadline c
      → Expires (key_of token) deadline (step key_of auth e c)
  unfolding step verify_identity set_entry
  step-Expires (verifies other looked answered stored) c t h =
      elim (Option-cases (get (key_of other) looked c)) [
        | inr (i, hit) ↦ rw (hit, step, verify_identity) h
        | inl miss ↦ elim (Option-cases (auth answered other)) [
          | inl no_ ↦ rw (miss, step, verify_identity) (rw no_ h)
          | inr (i, yes_) ↦
              rw (miss, step, verify_identity)
                (rw yes_ (
                  ground (
                    arith,
                    stored-Expires other i answered stored t.1 yes_,
                    delete-Expires (key_of token) (key_of other) deadline c h,
                  )))
        ]
      ]
  step-Expires (forgets other) c t h = delete-Expires (key_of token) (key_of other) deadline c h
  step-Expires (sweeps now) c t h = sweep-Expires (key_of token) deadline now c h

  run-Expires :
      (es : List Event) (c : TokenCache)
      → All InTime es
      → Expires (key_of token) deadline c
      → Expires (key_of token) deadline (run key_of auth es c)
  unfolding run
  run-Expires [] c t h = h
  run-Expires (e ∷ es) c t h = run-Expires es (step key_of auth e c) t.1 (step-Expires e c t.0 h)

-- Where the auth service refuses a token from some time on, as it does once the session is revoked or
-- the user disabled, the gateway refuses it at the latest sixty-two seconds later, whatever requests
-- have filled its cache: one minute that an entry lives, and two seconds that a call may take. The
-- hash of tokens is taken to tell tokens apart.
pub refused_token_expires :
    (key_of : String → String) (auth : ℕ → String → Option Identity) (token : String) (since : ℕ)
    (es : List Event) (looked answered stored : ℕ)
    → ((a b : String) → key_of a ≡ key_of b → a ≡ b)
    → ((t : ℕ) → since ≤ t → auth t token ≡ none)
    → All InTime es
    → since + call_timeout + ttl < looked
    → since ≤ answered
    → (verify_identity key_of auth token looked answered stored (run key_of auth es [])).1 ≡ none
unfolding verify_identity
refused_token_expires key_of auth token since es looked answered stored distinct refused t late
      after =
    let c = run key_of auth es [] in
    let over = run-Expires key_of auth token since distinct refused es [] t refl in
    ground (
      arith,
      get-Expires (key_of token) (since + call_timeout + ttl) looked c over late,
      refused answered after,
    )

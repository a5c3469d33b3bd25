-- ===== src/Gateway/Failures/Counting.antt =====
-- What the tracker counts, and how much it keeps.
use hquizlet_platform.Prelude.{
  ℕ, ◌+◌, ◌≤◌, ◌<◌, ◌≡◌, ◌↔◌, refl, ap, ◌∙◌, sym, Bool, true, false, not, String, List, [], ◌∷◌,
  none, some, length, all, arith, and-eq_true, str_eq, eq_iff, eq_refl, Option-cases, Bool-cases,
  inl, inr, if◌then◌else◌,
}
use hquizlet_platform.Gateway.Failures.{
  FailureEntry, Entries, entry_of, put, is_over, purge, blocked, record_failure,
}

not-true : (b : Bool) → not b ≡ true → b ≡ false
not-true true h = sym h
not-true false h = refl

entry_of-put :
    (key : String) (e : FailureEntry) (es : Entries) → entry_of key (put key e es) ≡ some e
unfolding entry_of put
entry_of-put key e [] = ground (arith, eq_refl key)
entry_of-put key e ((k, f) ∷ es) = ground (arith, entry_of-put key e es)

entry_of-put_ne :
    (key other : String) (e : FailureEntry) (es : Entries)
    → str_eq other key ≡ false
    → entry_of key (put other e es) ≡ entry_of key es
unfolding entry_of put
entry_of-put_ne key other e [] h = ground arith
entry_of-put_ne key other e ((k, f) ∷ es) h = elim (Bool-cases (str_eq k other)) [
  | inl same ↦ ground (arith, same, ap (λ x. str_eq x key) ((eq_iff k other).0 same))
  | inr differs ↦ ground (arith, differs, entry_of-put_ne key other e es h)
]

entry_of-purge :
    (key : String) (window now : ℕ) (e : FailureEntry) (es : Entries)
    → entry_of key es ≡ some e
    → is_over window now e ≡ false
    → entry_of key (purge window now es) ≡ some e
unfolding entry_of purge
entry_of-purge key window now e [] h live = h
entry_of-purge key window now e ((k, f) ∷ es) h live =
    ground (arith, live, entry_of-purge key window now e es)

length-put :
    (key : String) (e f : FailureEntry) (es : Entries)
    → entry_of key es ≡ some f
    → length (put key e es) ≡ length es
unfolding entry_of put
length-put key e f [] h = cc
length-put key e f ((k, g) ∷ es) h = ground (arith, length-put key e f es)

length-put_new :
    (key : String) (e : FailureEntry) (es : Entries) → length (put key e es) ≤ length es + 1
unfolding put
length-put_new key e [] = omega arith
length-put_new key e ((k, g) ∷ es) = ground (arith, length-put_new key e es)

length-purge : (window now : ℕ) (es : Entries) → length (purge window now es) ≤ length es
unfolding purge
length-purge window now [] = omega arith
length-purge window now ((k, e) ∷ es) = ground (arith, length-purge window now es)

-- The tracker never keeps more keys than it may.
record_failure_bounded :
    (max_keys : ℕ) (es : Entries) (key : String) (window now : ℕ)
    → length es ≤ max_keys
    → length (record_failure max_keys es key window now) ≤ max_keys
unfolding record_failure
record_failure_bounded max_keys es key window now h = elim (Option-cases (entry_of key es)) [
  | inl absent ↦
      let fresh : FailureEntry = record { window_start = now; count = 1 } in
      ground (
        arith,
        absent,
        length-purge window now es,
        length-put_new key fresh es,
        length-put_new key fresh (purge window now es),
      )
  | inr (e, found) ↦ ground (
    arith,
    found,
    length-put key (record { window_start = now; count = 1 }) e es found,
    length-put key (record e { count = e.count + 1 }) e es found,
  )
]

-- Failures in the order in which they happen, with one window.
abbrev pub record_all : ℕ → ℕ → Entries → List (String × ℕ) → Entries
record_all max_keys window es [] = es
record_all max_keys window es ((key, now) ∷ later) =
    record_all max_keys window (record_failure max_keys es key window now) later

-- One more failure, of this key or another, while the window of this key lasts.
record_failure-counts :
    (max_keys : ℕ) (es : Entries) (key other : String) (window now : ℕ) (e : FailureEntry)
    → entry_of key es ≡ some e
    → is_over window now e ≡ false
    → entry_of key (record_failure max_keys es other window now)
      ≡ some (record e { count = (if str_eq other key then 1 else 0) + e.count })
unfolding record_failure
record_failure-counts max_keys es key other window now e h live =
    elim (Bool-cases (str_eq other key)) [
      | inl same ↦
          let o = (eq_iff other key).0 same in
          rw o (
            ground
              (arith, h, live, eq_refl key, entry_of-put key (record e { count = e.count + 1 }) es))
      | inr differs ↦
          let fresh : FailureEntry = record { window_start = now; count = 1 } in
          elim (Option-cases (entry_of other es)) [
            | inl absent ↦ ground (
              arith,
              absent,
              differs,
              h,
              entry_of-purge key window now e es h live,
              entry_of-put_ne key other fresh es differs,
              entry_of-put_ne key other fresh (purge window now es) differs,
            )
            | inr (f, found) ↦ ground (
              arith,
              found,
              differs,
              h,
              entry_of-put_ne key other fresh es differs,
              entry_of-put_ne key other (record f { count = f.count + 1 }) es differs,
            )
          ]
    ]

-- How many of the failures are of this key.
abbrev pub failures_of : String → List (String × ℕ) → ℕ
failures_of key [] = 0
failures_of key ((other, now) ∷ later) = (if str_eq other key then 1 else 0) + failures_of key later

record_all-counts :
    (max_keys : ℕ) (es : Entries) (key : String) (window : ℕ) (events : List (String × ℕ))
    (e : FailureEntry)
    → entry_of key es ≡ some e
    → all (λ f. not (is_over window f.1 e)) events ≡ true
    → entry_of key (record_all max_keys window es events)
      ≡ some (record e { count = failures_of key events + e.count })
record_all-counts max_keys es key window [] e h live = ground (arith, h)
record_all-counts max_keys es key window ((other, now) ∷ later) e h live =
    let (first, rest) =
      and-eq_true (not (is_over window now e)) (all (λ f. not (is_over window f.1 e)) later) live in
    let one : ℕ = if str_eq other key then 1 else 0 in
    let grown : FailureEntry = record e { count = one + e.count } in
    let sums : failures_of key later + (one + e.count) ≡ one + failures_of key later + e.count =
      omega arith in
    record_all-counts max_keys (record_failure max_keys es other window now) key window later grown
      (record_failure-counts max_keys es key other window now e h (not-true _ first)) rest
    ∙ ap (λ n. some (record e { count = n })) sums

-- Once a key is tracked, every failure of the key within its window is counted, whatever other keys fail
-- in between and whether or not the tracker is full, and for the rest of the window the key is blocked
-- exactly from the moment that the count reaches the limit.
pub limit_blocks :
    (max_keys limit window now : ℕ) (es : Entries) (key : String) (events : List (String × ℕ))
    (e : FailureEntry)
    → 0 < limit
    → 0 < window
    → entry_of key es ≡ some e
    → all (λ f. not (is_over window f.1 e)) events ≡ true
    → is_over window now e ≡ false
    → (blocked (record_all max_keys window es events) key limit window now ≡ none)
      ↔ (failures_of key events + e.count < limit)
unfolding blocked
limit_blocks max_keys limit window now es key events e l w h live still =
    let total : FailureEntry = record e { count = failures_of key events + e.count } in
    let now_there : entry_of key (record_all max_keys window es events) ≡ some total =
      record_all-counts max_keys es key window events e h live in
    rw (blocked, now_there) (ground (arith, l, w, still))

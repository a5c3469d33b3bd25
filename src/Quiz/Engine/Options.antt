-- ===== src/Quiz/Engine/Options.antt =====
-- The choices of a question in the mode test.
use Prim.Native.Nat.{bit_xor}
use hquizlet_platform.Prelude.{
  ℕ, ◌≤◌, ◌<◌, ◌≡◌, refl, ap, false, String, List, [], ◌∷◌, ◌++◌, length, length-append, arith,
  count, count-append, count-perm, length-perm, str_eq, eq_iff, eq_refl, Bool-cases, inl, inr,
}
use hquizlet_platform.Prelude.Int.{ℤ}
use hquizlet_platform.Quiz.Shuffle.{shuffle}
use hquizlet_platform.Quiz.Shuffle.Permutes.{shuffle-perm}
use hquizlet_platform.Quiz.Engine.{Flashcard, seen, gather, choices}

-- How often a text stands in a list.
abbrev pub occurrences : String → List String → ℕ
occurrences v = count (λ s. str_eq s v)

occurrences-seen :
    (v : String) (unique : List String) → seen unique v ≡ false → occurrences v unique ≡ 0
occurrences-seen v [] h = refl
occurrences-seen v (s ∷ unique) h = ground (arith, occurrences-seen v unique)

grow :
    (v d : String) (unique : List String)
    → seen unique d ≡ false
    → occurrences v unique ≤ 1
    → occurrences v (unique ++ d ∷ []) ≤ 1
grow v d unique h once = elim (Bool-cases (str_eq d v)) [
  | inl same ↦ ground (
    arith,
    count-append (λ s. str_eq s v) unique (d ∷ []),
    occurrences-seen d unique h,
    ap (λ x. occurrences x unique) ((eq_iff d v).0 same),
  )
  | inr other ↦ ground (arith, count-append (λ s. str_eq s v) unique (d ∷ []))
]

module _ (target : ℤ) where
  gather-once :
      (v : String) (cs : List Flashcard) (unique : List String)
      → occurrences v unique ≤ 1
      → occurrences v (gather target cs unique) ≤ 1
  unfolding gather
  gather-once v [] unique h = h
  gather-once v (c ∷ cs) unique h = ground (
    arith,
    grow v c.definition unique,
    gather-once v cs unique,
    gather-once v cs (unique ++ c.definition ∷ []),
  )

  gather-keeps :
      (v : String) (cs : List Flashcard) (unique : List String)
      → 1 ≤ occurrences v unique
      → 1 ≤ occurrences v (gather target cs unique)
  unfolding gather
  gather-keeps v [] unique h = h
  gather-keeps v (c ∷ cs) unique h = ground (
    arith,
    count-append (λ s. str_eq s v) unique (c.definition ∷ []),
    gather-keeps v cs unique,
    gather-keeps v cs (unique ++ c.definition ∷ []),
  )

  gather-few :
      (cs : List Flashcard) (unique : List String)
      → length unique < 4
      → length (gather target cs unique) ≤ 4
  unfolding gather
  gather-few [] unique h = omega arith
  gather-few (c ∷ cs) unique h = ground (
    arith,
    length-append unique (c.definition ∷ []),
    gather-few cs unique,
    gather-few cs (unique ++ c.definition ∷ []),
  )

-- The choices of a question have the right definition exactly once, no definition twice, and are
-- four at most, whatever cards share their definitions and whatever the seed is.
pub choices_lem :
    (cards : List Flashcard) (target : Flashcard) (seed : ℕ)
    → (occurrences target.definition (choices cards target seed) ≡ 1)
      × ((v : String) → occurrences v (choices cards target seed) ≤ 1)
      × (length (choices cards target seed) ≤ 4)
unfolding choices
choices_lem cards target seed =
    let texts = gather target.id (shuffle cards seed) (target.definition ∷ []) in
    let d = target.definition in
    let mixed = shuffle-perm texts (bit_xor seed 0xd1b54a32d192ed03) in
    let same : (v : String) → occurrences v (choices cards target seed) ≡ occurrences v texts =
      λ v. count-perm (λ s. str_eq s v) mixed in
    let once : (v : String) → occurrences v texts ≤ 1 =
      λ v. gather-once target.id v (shuffle cards seed) (d ∷ []) (ground arith) in
    let kept = gather-keeps target.id d (shuffle cards seed) (d ∷ []) (ground (arith, eq_refl d)) in
    (
      omega (arith, same d, once d, kept),
      λ v. omega (arith, same v, once v),
      omega (
        arith,
        length-perm mixed,
        gather-few target.id (shuffle cards seed) (d ∷ []) (omega arith),
      ),
    )

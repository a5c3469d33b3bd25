-- ===== src/Quiz/Marking/Correct.antt =====
-- Which answer to a question of the mode test is marked as correct.
use hquizlet_platform.Prelude.{
  ℕ, zero, suc, ◌≤◌, ◌<◌, ◌≡◌, refl, true, false, String, List, [], ◌∷◌, Option, none, some, length,
  arith, str_eq, Bool-cases, inl, inr,
}
use hquizlet_platform.Prelude.Int.{ℤ, pos, negsuc}
use hquizlet_platform.Quiz.Engine.{Flashcard, test, choices}
use hquizlet_platform.Quiz.Engine.Options.{occurrences, choices_lem}
use hquizlet_platform.Quiz.Marking.{Answer, picks, mark}

picks-unseen :
    (cs : List String) (d : String) (i : ℕ) → occurrences d cs ≡ 0 → picks cs d (pos i) ≡ false
picks-unseen [] d i h = refl
picks-unseen (c ∷ cs) d zero h = ground arith
picks-unseen (c ∷ cs) d (suc i) h = ground (arith, picks-unseen cs d i)

picks-one :
    (cs : List String) (d : String) (i j : ℕ)
    → occurrences d cs ≤ 1
    → picks cs d (pos i) ≡ true
    → picks cs d (pos j) ≡ true
    → i ≡ j
picks-one [] d i j h p q = cc
picks-one (c ∷ cs) d zero zero h p q = refl
picks-one (c ∷ cs) d zero (suc j) h p q = ground (arith, picks-unseen cs d j)
picks-one (c ∷ cs) d (suc i) zero h p q = ground (arith, picks-unseen cs d i)
picks-one (c ∷ cs) d (suc i) (suc j) h p q = ground (arith, picks-one cs d i j)

picks-some :
    (cs : List String) (d : String)
    → 1 ≤ occurrences d cs
    → (i : ℕ) × (i < length cs) × (picks cs d (pos i) ≡ true)
picks-some [] d h = absurd (omega arith)
picks-some (c ∷ cs) d h = elim (Bool-cases (str_eq c d)) [
  | inl here ↦ (0, omega arith, here)
  | inr other ↦ let (i, lt, found) = picks-some cs d (ground arith) in (suc i, omega arith, found)
]

selected_only :
    (cs : List String) (d : String) (i : ℕ) (selected : Option ℤ)
    → occurrences d cs ≤ 1
    → picks cs d (pos i) ≡ true
    → elim selected [ none ↦ none | some k ↦ some (picks cs d k) ] ≡ some true
    → selected ≡ some (pos i)
selected_only cs d i none h p q = cc
selected_only cs d i (some (negsuc j)) h p q = cc
selected_only cs d i (some (pos j)) h p q = ground (arith, picks-one cs d j i)

module _ (fields : String → List String) (to_lower : String → String) where
  -- A question of the mode test has one right index among its choices: an answer that selects it is
  -- marked correct, and every answer marked correct selects it.
  pub test_has_one_answer :
      (cards : List Flashcard) (card : Flashcard) (seed : ℕ)
      → (i : ℕ) × (i < length (choices cards card seed))
        × ((a : Answer)
            → a.selected_index ≡ some (pos i)
            → mark fields to_lower test (choices cards card seed) card a ≡ some true)
        × ((a : Answer)
            → mark fields to_lower test (choices cards card seed) card a ≡ some true
            → a.selected_index ≡ some (pos i))
  unfolding mark
  test_has_one_answer cards card seed =
      let cs = choices cards card seed in
      let d = card.definition in
      let (once, most, few) = choices_lem cards card seed in
      let (i, lt, found) = picks-some cs d (omega (arith, once)) in
      (
        i,
        lt,
        λ a h. rw (mark, h, found) refl,
        λ a h. selected_only cs d i a.selected_index (most d) found h,
      )

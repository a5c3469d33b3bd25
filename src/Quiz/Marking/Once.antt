-- ===== src/Quiz/Marking/Once.antt =====
-- What the results of Evaluate are about: every answer, once, in order.
use hquizlet_platform.Prelude.{
  ℕ, ◌≡◌, ◌⊎◌, refl, ap, Bool, true, false, not, ◌&&◌, String, List, [], ◌∷◌, none, some, map, all,
  arith, Option-cases, ==_refl, inl, inr,
}
use hquizlet_platform.Prelude.Int.{ℤ, pos, negsuc, eq_ℤ}
use hquizlet_platform.Quiz.Engine.{
  Flashcard, Item, Mode, EngineError, Outcome, ok, err, parse_mode, generate,
}
use hquizlet_platform.Quiz.Engine.Pages.{card_ids}
use hquizlet_platform.Quiz.Marking.{
  Answer, CardResult, has_id, check_answers, card_by_id, mark_answers, evaluate,
}

-- No id stands twice.
abbrev pub distinct_ids : List ℤ → Bool
distinct_ids [] = true
distinct_ids (k ∷ ids) = not (has_id k ids) && distinct_ids ids

abbrev pub answer_ids : List Answer → List ℤ
answer_ids = map (λ a. a.flashcard_id)

Outcome-cases {ℓ} :
    {A : Type ℓ} (o : Outcome A) → ((e : EngineError) × (o ≡ err e)) ⊎ ((a : A) × (o ≡ ok a))
Outcome-cases (ok a) = inr (a, refl)
Outcome-cases (err e) = inl (e, refl)

eq_ℤ-eq : (a b : ℤ) → eq_ℤ a b ≡ true → a ≡ b
eq_ℤ-eq (pos m) (pos n) h = ground arith
eq_ℤ-eq (pos m) (negsuc n) h = cc
eq_ℤ-eq (negsuc m) (pos n) h = cc
eq_ℤ-eq (negsuc m) (negsuc n) h = ground arith

eq_ℤ-refl : (a : ℤ) → eq_ℤ a a ≡ true
eq_ℤ-refl (pos m) = ==_refl m
eq_ℤ-refl (negsuc m) = ==_refl m

card_by_id-eq :
    (k : ℤ) (cards : List Flashcard) (c : Flashcard) → card_by_id k cards ≡ some c → c.id ≡ k
unfolding card_by_id
card_by_id-eq k [] c h = cc
card_by_id-eq k (d ∷ cards) c h = elim (Option-cases (card_by_id k cards)) [
  | inl absent ↦ ground (arith, eq_ℤ-eq d.id k)
  | inr (later, found) ↦ ground (arith, card_by_id-eq k cards later found)
]

-- An answered card is not answered again.
check_answers-fresh :
    (allowed answered : List ℤ) (k : ℤ) (answers : List Answer)
    → check_answers allowed answered answers ≡ none
    → has_id k answered ≡ true
    → has_id k (answer_ids answers) ≡ false
unfolding check_answers
check_answers-fresh allowed answered k [] h m = refl
check_answers-fresh allowed answered k (a ∷ answers) h m = ground (
  arith,
  check_answers-fresh allowed (a.flashcard_id ∷ answered) k answers,
  λ (same : eq_ℤ a.flashcard_id k ≡ true).
      ap (λ x. has_id x answered) (eq_ℤ-eq a.flashcard_id k same),
)

check_answers-distinct :
    (allowed answered : List ℤ) (answers : List Answer)
    → check_answers allowed answered answers ≡ none
    → (distinct_ids (answer_ids answers) ≡ true)
      × (all (λ k. has_id k allowed) (answer_ids answers) ≡ true)
unfolding check_answers
check_answers-distinct allowed answered [] h = (refl, refl)
check_answers-distinct allowed answered (a ∷ answers) h = ground (
  arith,
  eq_ℤ-refl a.flashcard_id,
  check_answers-fresh allowed (a.flashcard_id ∷ answered) a.flashcard_id answers,
  check_answers-distinct allowed (a.flashcard_id ∷ answered) answers,
)

module _ (fields : String → List String) (to_lower : String → String) where
  mark_answers-ids :
      (mode : Mode) (cards : List Flashcard) (items : List Item) (answers : List Answer)
      (results : List CardResult)
      → mark_answers fields to_lower mode cards items answers ≡ ok results
      → map (λ r. r.flashcard_id) results ≡ answer_ids answers
  unfolding mark_answers
  mark_answers-ids mode cards items [] results h = ground arith
  mark_answers-ids mode cards items (a ∷ answers) results h =
      elim (Option-cases (card_by_id a.flashcard_id cards)) [
        | inl absent ↦ ground arith
        | inr (card, found) ↦
            elim (Outcome-cases (mark_answers fields to_lower mode cards items answers)) [
              | inl (e, failed) ↦ ground arith
              | inr (rest, marked) ↦ ground (
                arith,
                card_by_id-eq a.flashcard_id cards card found,
                mark_answers-ids mode cards items answers rest marked,
              )
            ]
      ]

  -- When Evaluate accepts a set of answers, its results are about the answered cards in the order of
  -- the answers, no card is answered twice, and each is a card of the quiz that Generate makes from
  -- the same seed and limit.
  pub evaluate-once :
      (cards : List Flashcard) (name : String) (seed : ℕ) (limit : ℤ) (answers : List Answer)
      (results : List CardResult)
      → evaluate fields to_lower cards name seed limit answers ≡ ok results
      → (map (λ r. r.flashcard_id) results ≡ answer_ids answers)
        × (distinct_ids (answer_ids answers) ≡ true)
        × (all
              (λ k. has_id k (card_ids (generate cards name seed limit (pos 0))))
              (answer_ids answers)
            ≡ true)
  unfolding evaluate
  evaluate-once cards name seed limit answers results h = elim (Option-cases (parse_mode name)) [
    | inl unknown ↦ ground arith
    | inr (mode, known) ↦ elim (Outcome-cases (generate cards name seed limit (pos 0))) [
      | inl (e, failed) ↦ ground arith
      | inr (items, made) ↦
          let ids = map (λ i. i.flashcard_id) items in
          rw made (
            ground (
              arith,
              made,
              mark_answers-ids mode cards items answers results,
              check_answers-distinct ids [] answers,
            ))
    ]
  ]

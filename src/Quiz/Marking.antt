-- ===== src/Quiz/Marking.antt =====
-- The function Evaluate of services/quiz/internal/engine/engine.go: the marking of a set of answers.
-- strings.Fields and strings.ToLower are arguments.
pub mod Once
pub mod Correct
use hquizlet_platform.Prelude.{
  ℕ, ◌+◌, Bool, true, false, not, ◌&&◌, ◌||◌, String, List, [], ◌∷◌, Option, none, some, map,
  length, get_elem?, any, ltb, ◌==◌, str_eq, if◌then◌else◌,
}
use hquizlet_platform.Prelude.Int.{ℤ, pos, negsuc, eq_ℤ, ltb_ℤ}
use hquizlet_platform.Prelude.Text.{append}
use hquizlet_platform.Quiz.Engine.{
  Flashcard, Item, Mode, flashcards, learn, test, match, EngineError, invalid, duplicate, Outcome,
  ok, err, parse_mode, id_text, generate,
}

pub record Answer : Type 0 where
  pub flashcard_id : ℤ
  pub submitted : String
  pub selected_index : Option ℤ
  pub pair_id : String
  pub matched_flashcard_id : ℤ
  pub attempts : ℤ
  pub response_time_ms : ℤ

pub record CardResult : Type 0 where
  pub flashcard_id : ℤ
  pub correct : Bool
  pub attempts : ℤ
  pub response_time_ms : ℤ

-- The keys of a Go map from ids to true.
abbrev pub has_id : ℤ → List ℤ → Bool
has_id k ids = any (λ x. eq_ℤ x k) ids

-- expectedCards: the ids, each counted once; `known` are the keys of `allowed` so far.
unfoldable pub expected_cards : List ℤ → List ℤ → ℕ
expected_cards known [] = 0
expected_cards known (k ∷ ids) = (if has_id k known then 0 else 1) + expected_cards (k ∷ known) ids

-- The loop over the answers before any is marked; `none` where it finds nothing wrong.
unfoldable pub check_answers : List ℤ → List ℤ → List Answer → Option EngineError
check_answers allowed answered [] = none
check_answers allowed answered (a ∷ answers) =
    let rest = check_answers allowed (a.flashcard_id ∷ answered) answers in
    if has_id a.flashcard_id answered
    then some duplicate
    else if not (has_id a.flashcard_id allowed)
    then some invalid
    else rest

-- byID[k]: the last card with the id.
unfoldable pub card_by_id : ℤ → List Flashcard → Option Flashcard
card_by_id k [] = none
card_by_id k (c ∷ cs) = elim (card_by_id k cs) [
  | some later ↦ some later
  | none ↦ if eq_ℤ c.id k then some c else none
]

-- testChoices[k]: the choices of the last item of the card, or nil.
unfoldable pub test_choices : ℤ → List Item → Option (List String)
test_choices k [] = none
test_choices k (i ∷ items) = elim (test_choices k items) [
  | some later ↦ some later
  | none ↦ if eq_ℤ i.flashcard_id k then some i.choices else none
]

abbrev choices_or_nil : Option (List String) → List String
choices_or_nil none = []
choices_or_nil (some cs) = cs

-- `i >= 0 && i < len(cs) && cs[i] == definition`
abbrev pub picks : List String → String → ℤ → Bool
picks cs definition (negsuc i) = false
picks cs definition (pos i) = elim (get_elem? cs i) [
  | none ↦ false
  | some text ↦ str_eq text definition
]

-- strings.Join(words, " ")
abbrev join_words : List String → String
join_words [] = ""
join_words (w ∷ []) = w
join_words (w ∷ ws) = append w (append " " (join_words ws))

abbrev is_learn : Mode → Bool
is_learn learn = true
is_learn _ = false

module _ (fields : String → List String) (to_lower : String → String) where
  -- normalize
  abbrev pub normalize : String → String
  normalize s = to_lower (join_words (fields s))

  -- The switch of Evaluate; `none` where it refuses the answer.
  unfoldable pub mark : Mode → List String → Flashcard → Answer → Option Bool
  mark flashcards cs card a = some true
  mark learn cs card a = some (str_eq (normalize a.submitted) (normalize card.definition))
  mark test cs card a = elim a.selected_index [
    | none ↦ none
    | some i ↦ some (picks cs card.definition i)
  ]
  mark match cs card a =
      some
        (str_eq a.pair_id (append "card-" (id_text card.id)) && eq_ℤ a.matched_flashcard_id card.id)

  -- The loop that marks the answers.
  unfoldable pub mark_answers :
      Mode → List Flashcard → List Item → List Answer → Outcome (List CardResult)
  unfolding mark
  mark_answers mode cards items [] = ok []
  mark_answers mode cards items (a ∷ answers) =
      let rest = mark_answers mode cards items answers in
      elim (card_by_id a.flashcard_id cards) [
        | none ↦ err invalid
        | some card ↦
            if ltb_ℤ a.attempts (pos 1)
              || ltb_ℤ (pos 100) a.attempts
              || ltb_ℤ a.response_time_ms (pos 0)
            then err invalid
            else elim (mark mode (choices_or_nil (test_choices card.id items)) card a) [
              | none ↦ err invalid
              | some correct ↦
                  let result : CardResult = record {
                    flashcard_id = card.id;
                    correct = correct;
                    attempts = a.attempts;
                    response_time_ms = a.response_time_ms;
                  } in
                  elim rest [ err e ↦ err e | ok results ↦ ok (result ∷ results) ]
            ]
      ]

  -- Evaluate
  unfoldable pub evaluate :
      List Flashcard → String → ℕ → ℤ → List Answer → Outcome (List CardResult)
  unfolding mark_answers
  evaluate cards name seed limit answers = elim (parse_mode name) [
    | none ↦ err invalid
    | some mode ↦
        if ltb_ℤ limit (pos 1) || ltb_ℤ (pos 100) limit || ltb 100 (length answers)
        then err invalid
        else elim (generate cards name seed limit (pos 0)) [
          | err e ↦ err e
          | ok items ↦
              let ids = map (λ i. i.flashcard_id) items in
              if not (is_learn mode) && not (length answers == expected_cards [] ids)
              then err invalid
              else elim (check_answers ids [] answers) [
                | some e ↦ err e
                | none ↦ mark_answers mode cards items answers
              ]
        ]
  ]

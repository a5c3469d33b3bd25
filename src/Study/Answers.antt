-- ===== src/Study/Answers.antt =====
-- Answers and what is shown of a question: validQuizAnswer, quizCorrect and quizPageItem of
-- services/study/internal/service/protected_quiz.go.
use Prim.Native.Char.{code}
use hquizlet_platform.Prelude.{
  ℕ, ◌-◌, Bool, true, false, not, ◌&&◌, ◌||◌, String, List, [], ◌∷◌, Option, none, some, map,
  length, get_elem?, any, ltb, leb, str_eq, if◌then◌else◌,
}
use hquizlet_platform.Study.Model.{QuizOption, QuizQuestion, SessionItem, PageItem, TextFns}
use hquizlet_platform.Study.Items.{is_blank, sanitize_question}

-- The option of a one-letter answer; only the letters from A on that have an option name one.
abbrev letter_option : String → List QuizOption → Option QuizOption
letter_option (String.◌∷◌ c String.[]) os =
    if leb b'A' (code c) && ltb (code c) 128 then get_elem? os (code c - b'A') else none
letter_option _ os = none

-- The first option that is marked as correct.
abbrev first_correct : List QuizOption → Option QuizOption
first_correct [] = none
first_correct (o ∷ os) = if o.is_correct then some o else first_correct os

abbrev text_or_empty : Option String → String
text_or_empty none = ""
text_or_empty (some s) = s

-- An option without its mark.
abbrev pub hide_option : QuizOption → QuizOption
hide_option o = record o { is_correct = false }

-- A question without its solution.
abbrev pub hide_solution : QuizQuestion → QuizQuestion
hide_solution q = record q {
  correct_answer = none;
  answer_explanation = none;
  options = map hide_option q.options;
}

module _ (t : TextFns) where
  -- validQuizAnswer
  unfoldable pub valid_quiz_answer : QuizQuestion → String → Bool
  valid_quiz_answer q answer =
      if str_eq (t.trim_space answer) ""
      then false
      else if str_eq q.question_type "multiple_choice" && ltb 0 (length q.options)
      then any (λ o. str_eq answer o.text) q.options
      else if str_eq q.question_type "true_false"
      then str_eq answer "true" || str_eq answer "false"
      else true

  abbrev pub normal : String → String
  normal s = t.to_lower (t.trim_space s)

  -- The answer that a question expects.
  abbrev pub expected_answer : QuizQuestion → String
  expected_answer q =
      let correct = text_or_empty q.correct_answer in
      let by_letter : String = elim (letter_option (t.to_upper (t.trim_space correct)) q.options) [
        | some o ↦ o.text
        | none ↦ correct
      ] in
      let by_mark : String = elim (first_correct q.options) [
        | some o ↦ o.text
        | none ↦ by_letter
      ] in
      if str_eq q.question_type "multiple_choice" then by_mark else correct

  -- quizCorrect
  unfoldable pub quiz_correct : QuizQuestion → String → Bool
  quiz_correct q answer =
      if str_eq (normal answer) ""
      then false
      else str_eq (normal answer) (normal (expected_answer q))

  -- quizPageItem; whether the question is answered changes nothing.
  unfoldable pub quiz_page_item : SessionItem → ℕ → Bool → Bool → PageItem
  quiz_page_item it i revealed sanitize =
      let q = record it.question { sub_questions = "" } in
      let clean = if sanitize then sanitize_question t q else q in
      let silent = record clean { audio_url = none } in
      record {
        index = i;
        question = if revealed then silent else hide_solution silent;
        has_audio = not (is_blank it.question.audio_url);
        revealed = revealed;
      }

-- ===== src/Quiz/Live/Examples.antt =====
-- A player who joins a live session and answers a question: tests, and the theorems at work.
use mathlib.Core.List.{Memᴰ}
use hquizlet_platform.Prelude.{
  ◌≤◌, ◌≡◌, refl, Bool, true, false, String, [], ◌∷◌, ◌++◌, All, none, some, count, ◌⊎◌,
}
use hquizlet_platform.Prelude.Int.{ℤ, pos, pos_part}
use hquizlet_platform.Prelude.Text.{append}
use hquizlet_platform.Prelude.Decimal.{format_int}
use hquizlet_platform.Quiz.Live.Scores.{score_answer, time_bonus}
use hquizlet_platform.Quiz.Live.Sessions.{question_open, Question, Session}
use hquizlet_platform.Quiz.Live.Answers.{
  Participant, AnswerRow, Store, score_sum, correct_sum, time_sum, conflict, repeated, refused,
  already_answered, judge, ok, written, no_insert, finalize_scores, final, record_answer,
  submit_answer, StoreReach, here, after, join, submit,
}
use hquizlet_platform.Quiz.Live.Answers.Retry.{retry_counts_once}
use hquizlet_platform.Quiz.Live.Answers.Totals.{
  Matches, is_answer, empty_store, totals_match_answers, totals_within_answers,
}

-- The JSON of an answer, and the same with the space that the database puts behind the colon.
abbrev json : ℤ → String
json i = append "{\"selectedIndex\":" (append (format_int (pos_part i)) "}")

abbrev spaced : ℤ → String
spaced i = append "{\"selectedIndex\": " (append (format_int (pos_part i)) "}")

abbrev question : Question
question = record {
  index = 0;
  flashcard_id = pos 1;
  term = "cat";
  definition = "";
  choices = "chó" ∷ "mèo" ∷ [];
  correct_index = 0;
}

abbrev session : Session
session = record {
  host_user_id = pos 4;
  status = question_open;
  question_duration_ms = pos 20000;
  current_question_idx = some 0;
  state_version = 2;
  question_snapshot = question ∷ [];
}

abbrev row : AnswerRow
row = record {
  participant_id = 11;
  question_index = 0;
  flashcard_id = pos 1;
  submitted_answer = pos 0;
  is_correct = true;
  score_awarded = 1250;
  response_time_ms = pos 10000;
  idempotency_key = "k1";
}

abbrev s1 : Store
s1 = record {
  participants =
      record { id = 11; total_score = 0; correct_count = 0; total_response_time_ms = pos 0 } ∷ [];
  answers = [];
}

abbrev s2 : Store
s2 = (record_answer json spaced s1 row false written).0

abbrev player : Participant
player = record {
  id = 11;
  total_score = 1250;
  correct_count = 1;
  total_response_time_ms = pos 10000;
}

-- Half of the 20 seconds are left.
judged : judge session (some 20000000000) 9000000000 10000000000 11 (pos 0) (pos 0) "k1" ≡ ok row
unfolding judge score_answer time_bonus
judged = refl

second_answer :
    (submit_answer json spaced s2 session
      (some 20000000000)
      9000000000
      10000000000
      false
      false
      written
      11
      none
      (pos 0)
      (pos 1)
      "k2"
      2).1
    ≡ refused already_answered
unfolding submit_answer judge record_answer score_answer time_bonus
second_answer = refl

-- The retry of an accepted answer, where the database gives the JSON back as it was written, and
-- where it writes a space behind the colon.
retry_same :
    (submit_answer json json s2 session
      (some 20000000000)
      9000000000
      10000000000
      false
      false
      written
      11
      none
      (pos 0)
      (pos 0)
      "k1"
      2).1
    ≡ repeated row
unfolding submit_answer record_answer format_int
retry_same = refl

retry_spaced :
    (submit_answer json spaced s2 session
      (some 20000000000)
      9000000000
      10000000000
      false
      false
      written
      11
      none
      (pos 0)
      (pos 0)
      "k1"
      2).1
    ≡ refused conflict
unfolding submit_answer record_answer format_int
retry_spaced = refl

run2 : (waits : Bool) → StoreReach json spaced waits empty_store s2
run2 waits = after (after here (join empty_store 11 refl)) (
    submit s1 session (some 20000000000) 9000000000 10000000000 11 (pos 0) (pos 0) "k1" row false
      written judged)

-- The next question, answered wrongly at once.
abbrev next_question : Session
next_question = record session {
  current_question_idx = some 1;
  question_snapshot = question ∷ record question { index = 1; correct_index = 1 } ∷ [];
}

abbrev row3 : AnswerRow
row3 = record row {
  question_index = 1;
  is_correct = false;
  score_awarded = 0;
  idempotency_key = "k3";
}

judged3 :
    judge next_question (some 20000000000) 9000000000 10000000000 11 (pos 1) (pos 0) "k3" ≡ ok row3
unfolding judge score_answer time_bonus
judged3 = refl

abbrev s3 : Store
s3 = (record_answer json spaced s2 row3 false written).0

-- A FinalizeScores that read the answers before the second one was stored writes a response time
-- without it.
abbrev s4 : Store
s4 = finalize_scores (row ∷ []) s3

late_finalize : s3.answers ≡ (row3 ∷ []) ++ (row ∷ [])
unfolding record_answer
late_finalize = refl

run4 : StoreReach json spaced true empty_store s4
run4 =
    after
      (after (run2 true) (
        submit s2 next_question (some 20000000000) 9000000000 10000000000 11 (pos 1) (pos 0) "k3"
          row3 false written judged3))
      (final s3 (row3 ∷ []) (row ∷ []) late_finalize refl)

time_is_lost : s4.participants ≡ player ∷ []
unfolding record_answer finalize_scores
time_is_lost = refl

time_of_answers : time_sum 11 s4.answers ≡ pos 20000
unfolding record_answer finalize_scores
time_of_answers = refl

totals_within_answers_example :
    (player.total_score ≤ score_sum 11 s4.answers)
    × (player.correct_count ≤ correct_sum 11 s4.answers)
    × (count (is_answer 11 1) s4.answers ≤ 1)
    × All (Matches s4.answers) (finalize_scores s4.answers s4).participants
unfolding record_answer finalize_scores
totals_within_answers_example =
    totals_within_answers json spaced true s4 player 1 run4 (Memᴰ.head refl)

totals_match_answers_example : Matches s2.answers player
unfolding record_answer
totals_match_answers_example =
    totals_match_answers json spaced s2 player (run2 false) (Memᴰ.head refl)

-- The second answer has been stored in between, and the lookup by the key fails.
run3 : StoreReach json spaced true s2 s3
run3 = after here (
    submit s2 next_question (some 20000000000) 9000000000 10000000000 11 (pos 1) (pos 0) "k3" row3
      false written judged3)

retry_counts_once_example :
    ((submit_answer json spaced s3 session
        (some 20000000000)
        9000000000
        10000000000
        true
        false
        no_insert
        11
        none
        (pos 0)
        (pos 0)
        "k1"
        2).0
      ≡ s3)
    × ((true ≡ true)
        ⊎ ((submit_answer json spaced s3 session
              (some 20000000000)
              9000000000
              10000000000
              true
              false
              no_insert
              11
              none
              (pos 0)
              (pos 0)
              "k1"
              2).1
            ≡ refused conflict))
unfolding submit_answer judge record_answer score_answer time_bonus format_int
retry_counts_once_example =
    retry_counts_once json spaced 11 none (pos 0) (pos 0) "k1" 2 s1 s3 session session
      (some 20000000000) (some 20000000000) 9000000000 10000000000 9000000000 10000000000 false true
      false false written no_insert row true refl run3

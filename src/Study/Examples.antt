-- ===== src/Study/Examples.antt =====
-- A quiz of one question, taken by one learner: tests, and the theorems at work.
use hquizlet_platform.Prelude.{
  ℕ, ◌≤◌, ◌≡◌, ◌≢◌, refl, true, false, String, List, [], ◌∷◌, Option, none, some, map, arith,
}
use hquizlet_platform.Prelude.Int.{pos, negsuc}
use hquizlet_platform.Study.Model.{
  QuizOption, QuizQuestion, SessionItem, QuizSession, SessionView, StartInput, Outcome, ok, err,
  validation, panic, TextFns,
}
use hquizlet_platform.Study.Html.{
  Node, text_node, element_node, other_node, nil, cons, allowed_tags, blocked_tags, safe_quiz_html,
}
use hquizlet_platform.Study.Items.{Decoder, session_items}
use hquizlet_platform.Study.Items.Numbered.{origins_from, session_items-pages}
use hquizlet_platform.Study.Pages.{indices_from, snapshot_index, pages_from}
use hquizlet_platform.Study.Pages.Groups.{snapshot_index_lem}
use hquizlet_platform.Study.Answers.{valid_quiz_answer, quiz_correct}
use hquizlet_platform.Study.View.{Content, is_submitted, build_view}
use hquizlet_platform.Study.Play.{resolve_index, auto_submit, act_on}
use hquizlet_platform.Study.Play.Total.{content_of, act_never_panics, submit_succeeds}
use hquizlet_platform.Study.Progress.{LearningSession, Learning, SaveInput, save_progress}
use hquizlet_platform.Study.Progress.Forged.{saved_key_drops_quiz_result}
use hquizlet_platform.Study.Store.{record_result}
use hquizlet_platform.Study.Start.{new_session}

abbrev pub plain_text : TextFns
plain_text = record {
  trim_space = λ s. s;
  to_lower = λ s. s;
  to_upper = λ s. s;
  safe_html = λ s. s;
}

abbrev pub no_json : Decoder
no_json = record { text_of = λ s. none; questions_of = λ qs s. none }

abbrev yes_option : QuizOption
yes_option = record { id = 7; question_id = 3; text = "yes"; position = pos 1; is_correct = true }

abbrev no_option : QuizOption
no_option = record { id = 8; question_id = 3; text = "no"; position = pos 0; is_correct = false }

abbrev pub question : QuizQuestion
question = record {
  id = 3;
  study_set_id = 4;
  position = pos 0;
  question_text = "Is it?";
  question_type = "multiple_choice";
  correct_answer = some "A";
  time_in_seconds = none;
  image_url = none;
  audio_url = none;
  answer_explanation = some "It is.";
  paragraph_text = none;
  sub_questions = "";
  tags = "part-2" ∷ [];
  options = yes_option ∷ no_option ∷ [];
}

abbrev pub request : StartInput
request = record {
  mode = "practice";
  instant = true;
  layout = "toeic";
  part = pos 0;
  duration_seconds = pos 60;
}

abbrev items_or_none : Outcome (List SessionItem) → List SessionItem
items_or_none (ok items) = items
items_or_none (err e) = []

abbrev pub quiz : List SessionItem
quiz = items_or_none (session_items plain_text no_json true (question ∷ question ∷ []) [])

session_items-pages_example :
    (map (λ i. i.number) quiz ≡ indices_from 1 2)
    × (true ≡ true)
    × (map (λ i. i.group) quiz ≡ origins_from plain_text no_json 0 (question ∷ question ∷ []))
    × ((snapshot_index quiz).0 ≡ (0 ∷ []) ∷ (1 ∷ []) ∷ [])
unfolding session_items snapshot_index
session_items-pages_example =
    session_items-pages plain_text no_json true (question ∷ question ∷ []) [] quiz refl

snapshot_index_lem_example :
    ((snapshot_index quiz).0 ≡ (0 ∷ []) ∷ (1 ∷ []) ∷ [])
    × (pages_from 9 0 quiz ≡ (snapshot_index quiz).0)
unfolding session_items
snapshot_index_lem_example = snapshot_index_lem quiz 9 refl (omega arith)

-- A session that has seen the first question.
abbrev opened : QuizSession
opened = record (new_session "s1" 5 4 request 2 100 "h") { seen = 0 ∷ [] }

abbrev content : Content
content = content_of quiz false

abbrev shown_or {ℓ} : {A : Type ℓ} → Outcome A → A → A
shown_or (ok a) b = a
shown_or (err e) b = b

abbrev pub no_view : SessionView
no_view = record {
  id = "";
  mode = "";
  instant = false;
  layout = "";
  server_time = 0;
  deadline = none;
  submitted = false;
  current_index = 0;
  total = 0;
  answered = 0;
  manifest = [];
  page = [];
  answers = [];
  results = [];
  score = none;
  time_used = 0;
}

abbrev replied : QuizSession × SessionView
replied =
    shown_or (act_on plain_text content opened "answer" (pos 0) "yes" 200 false) (opened, no_view)

-- The answer is marked at once; the second question is not served, so it cannot be answered.
answer_marked :
    (replied.1.results ≡ (0, true) ∷ [])
    × (act_on plain_text content replied.0 "answer" (pos 1) "yes" 300 false ≡ err validation)
unfolding act_on session_items new_session resolve_index auto_submit valid_quiz_answer build_view
    snapshot_index quiz_correct
answer_marked = (refl, refl)

act_never_panics_example : act_on plain_text content opened "page" (pos 1) "" 300 true ≢ err panic
unfolding session_items
act_never_panics_example =
    act_never_panics plain_text quiz false opened "page" (pos 1) "" 300 true refl

submit_succeeds_example :
    (x : QuizSession) × (v : SessionView) × (n : ℕ) × (act_on plain_text content replied.0 "submit"
        (negsuc 0)
        ""
        300
        false
      ≡ ok (x, v))
    × (is_submitted x ≡ true)
    × (v.score ≡ some n)
    × (n ≤ 2)
unfolding act_on session_items new_session resolve_index auto_submit valid_quiz_answer build_view
    snapshot_index
submit_succeeds_example =
    submit_succeeds plain_text quiz false replied.0 300 false refl (omega arith)

abbrev escape_all : String → String
escape_all s = "."

abbrev parsed : String → Option Node
parsed s = some (
    other_node (
      cons (element_node "p" (("onclick", "x()") ∷ []) (cons (text_node "hi") nil))
        (cons (element_node "script" [] (cons (text_node "x()") nil)) nil)))

filtered : safe_quiz_html escape_all parsed "<p onclick=x()>hi</p><script>x()</script>" ≡ "<p>.</p>"
unfolding safe_quiz_html blocked_tags allowed_tags
filtered = refl

-- A learner saves progress under the key of the session, and then submits it.
abbrev forged : SaveInput
forged = record {
  mode = "test";
  score = pos 100;
  total = pos 100;
  started_at = some 1;
  completed_at = some 2;
  card_results = [];
  idempotency_key = "quiz-s1";
}

abbrev no_learning : Learning
no_learning = record { rows = []; events = []; next_id = 1 }

abbrev forged_row : LearningSession
forged_row = record {
  id = 1;
  user_id = 5;
  study_set_id = 4;
  mode = "test";
  score = pos 100;
  total = pos 100;
  started_at = 1;
  completed_at = some 2;
  idempotency_key = "quiz-s1";
  card_results = [];
}

abbrev finished : QuizSession
finished = record opened { submitted_at = some 400; completed_score = some 0 }

abbrev forged_learning : Learning
forged_learning = (save_progress false no_learning (some true) false none 5 4 forged).0

saved_key_drops_quiz_result_example : forged_learning ≡ forged_learning
unfolding save_progress record_result new_session
saved_key_drops_quiz_result_example =
    saved_key_drops_quiz_result no_learning (some true) false none 5 4 4 forged forged_row opened
      finished forged_learning refl refl refl

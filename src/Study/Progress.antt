-- ===== src/Study/Progress.antt =====
-- The table of learning sessions, which quizzes and the progress of learners share:
-- services/study/internal/service/progress.go, Save of repository/progress.go, and the trigger on the
-- table (migration/migration.go).
pub mod Forged
use hquizlet_platform.Prelude.{
  ℕ, ◌+◌, Bool, true, false, not, ◌&&◌, ◌||◌, String, List, [], ◌∷◌, Option, none, some, length,
  any, all, ltb, ◌==◌, str_eq, if◌then◌else◌,
}
use hquizlet_platform.Prelude.Int.{ℤ, pos, is_positive, ltb_ℤ, eq_ℤ}
use hquizlet_platform.Prelude.Text.{has_prefix}

-- CardResultInput; the id of a card is positive where the request is valid.
pub record CardResult : Type 0 where
  pub flashcard_id : ℤ
  pub correct : Bool
  pub attempts : ℤ
  pub response_time_ms : Option ℤ

-- LearningSession, without the time of its creation.
pub record LearningSession : Type 0 where
  pub id : ℕ
  pub user_id : ℕ
  pub study_set_id : ℕ
  pub mode : String
  pub score : ℤ
  pub total : ℤ
  pub started_at : ℕ
  pub completed_at : Option ℕ
  pub idempotency_key : String
  pub card_results : List CardResult

-- The events that the trigger enqueue_study_completion writes to study_event_outbox.
pub data EventType : Type 0 where
  quiz_completed session_completed : EventType

pub record StudyEvent : Type 0 where
  pub learning_id : ℕ
  pub event_type : EventType
  pub user_id : ℕ
  pub study_set_id : ℕ
  pub score : ℤ
  pub total : ℤ

-- The tables learning_sessions and study_event_outbox.
pub record Learning : Type 0 where
  pub rows : List LearningSession
  pub events : List StudyEvent
  pub next_id : ℕ

abbrev pub has_key : ℕ → String → LearningSession → Bool
has_key u key r = (r.user_id == u) && str_eq r.idempotency_key key

-- The unique constraint on user_id and idempotency_key.
abbrev pub key_taken : ℕ → String → List LearningSession → Bool
key_taken u key = any (has_key u key)

-- `NEW.idempotency_key LIKE 'quiz-%'`
abbrev event_of : LearningSession → StudyEvent
event_of r = record {
  learning_id = r.id;
  event_type = if has_prefix r.idempotency_key "quiz-" then quiz_completed else session_completed;
  user_id = r.user_id;
  study_set_id = r.study_set_id;
  score = r.score;
  total = r.total;
}

-- An insert with its trigger; the row takes the next id.
unfoldable pub insert_learning : Learning → LearningSession → Learning
insert_learning l r =
    let row = record r { id = l.next_id } in
    record {
      rows = row ∷ l.rows;
      events = elim r.completed_at [ none ↦ l.events | some at ↦ event_of row ∷ l.events ];
      next_id = l.next_id + 1;
    }

-- SaveProgressInput; `started_at` is `none` where it is the zero time.
pub record SaveInput : Type 0 where
  pub mode : String
  pub score : ℤ
  pub total : ℤ
  pub started_at : Option ℕ
  pub completed_at : Option ℕ
  pub card_results : List CardResult
  pub idempotency_key : String

pub data ProgressError : Type 0 where
  unauthorized invalid forbidden foreign_card conflict internal : ProgressError

pub data Saved : Type 0 where
  saved : LearningSession → Saved
  refused : ProgressError → Saved

-- LearningMode.Valid
abbrev pub valid_mode : String → Bool
valid_mode m = str_eq m "flashcards" || str_eq m "learn" || str_eq m "test" || str_eq m "match"

abbrev valid_card : CardResult → Bool
valid_card c =
    is_positive c.flashcard_id
    && not (ltb_ℤ c.attempts (pos 1))
    && not (ltb_ℤ (pos 100) c.attempts)
    && (elim c.response_time_ms as (λ _. Bool) [ none ↦ true | some n ↦ not (ltb_ℤ n (pos 0)) ])

abbrev is_given : Option ℕ → Bool
is_given none = false
is_given (some n) = true

-- validateSaveProgressInput: whether it finds nothing wrong.
unfoldable pub valid_save_input : SaveInput → Bool
valid_save_input i =
    valid_mode i.mode
    && not (ltb_ℤ i.score (pos 0))
    && not (ltb_ℤ i.total (pos 0))
    && not (ltb_ℤ (pos 100) i.total)
    && not (ltb_ℤ i.total i.score)
    && not (str_eq i.idempotency_key "")
    && is_given i.started_at
    && not (ltb 100 (length i.card_results))
    && all valid_card i.card_results

abbrev is_card : List ℤ → CardResult → Bool
is_card cards c = any (λ k. eq_ℤ k c.flashcard_id) cards

-- verifyCardsInSet, with the ids of the cards of the set: `none` where they cannot be read.
unfoldable pub verify_cards : Option (List ℤ) → List CardResult → Option ProgressError
verify_cards cards [] = none
verify_cards none (r ∷ rs) = some internal
verify_cards (some ids) (r ∷ rs) = if all (is_card ids) (r ∷ rs) then none else some foreign_card

-- LearningProgressRepository.Save; `fails` is a failure of any statement but the unique constraint.
unfoldable pub save_session : Bool → Learning → ℕ → ℕ → ℕ → SaveInput → Learning × Saved
unfolding insert_learning
save_session fails l u k started i =
    let row : LearningSession = record {
      id = l.next_id;
      user_id = u;
      study_set_id = k;
      mode = i.mode;
      score = i.score;
      total = i.total;
      started_at = started;
      completed_at = i.completed_at;
      idempotency_key = i.idempotency_key;
      card_results = i.card_results;
    } in
    if key_taken u i.idempotency_key l.rows
    then (l, refused conflict)
    else if fails
    then (l, refused internal)
    else (insert_learning l row, saved row)

-- ProgressService.Save, with the answers of the repositories: whether the user owns the set (`none`
-- where that cannot be read), whether a learner may use it, and the cards of the set.
unfoldable pub save_progress :
    Bool → Learning → Option Bool → Bool → Option (List ℤ) → ℕ → ℕ → SaveInput → Learning × Saved
unfolding save_session valid_save_input verify_cards
save_progress fails l owned learner cards u k i =
    if u == 0
    then (l, refused unauthorized)
    else if not (valid_save_input i)
    then (l, refused invalid)
    else elim owned [
      | none ↦ (l, refused internal)
      | some mine ↦
          if not mine && not learner
          then (l, refused forbidden)
          else elim (verify_cards cards i.card_results) [
            | some e ↦ (l, refused e)
            | none ↦ elim i.started_at [
              | none ↦ (l, refused invalid)
              | some at ↦ save_session fails l u k at i
            ]
          ]
    ]

-- ===== src/Study/Model.antt =====
-- services/study/internal/model: the questions of a quiz (model.go) and its sessions
-- (quiz_session.go). Ids of the database and times are numbers; an id of 0 stands for any that is not
-- positive.
use hquizlet_platform.Prelude.{
  ℕ, ◌≡◌, ◌⊎◌, inl, inr, refl, Bool, String, List, [], ◌∷◌, Option, none, some, length, ltb, ◌==◌,
  if◌then◌else◌,
}
use hquizlet_platform.Prelude.Int.{ℤ}

-- QuizQuestionOption
pub record QuizOption : Type 0 where
  pub id : ℕ
  pub question_id : ℕ
  pub text : String
  pub position : ℤ
  pub is_correct : Bool

-- The text of sub_questions is JSON, "" where there is none.
pub record QuizQuestion : Type 0 where
  pub id : ℕ
  pub study_set_id : ℕ
  pub position : ℤ
  pub question_text : String
  pub question_type : String
  pub correct_answer : Option String
  pub time_in_seconds : Option ℤ
  pub image_url : Option String
  pub audio_url : Option String
  pub answer_explanation : Option String
  pub paragraph_text : Option String
  pub sub_questions : String
  pub tags : List String
  pub options : List QuizOption

pub record SessionItem : Type 0 where
  pub number : ℕ
  pub part : ℕ
  pub group : ℕ
  pub question : QuizQuestion

-- QuizManifestItem
pub record ManifestItem : Type 0 where
  pub number : ℕ
  pub part : ℕ
  pub group : ℕ

-- QuizSnapshot
pub record Snapshot : Type 0 where
  pub id : String
  pub study_set_id : ℕ
  pub part : ℕ
  pub created_at : ℕ
  pub items : List SessionItem
  pub manifest : List ManifestItem
  pub pages : List (List ℕ)

-- A Go map from indices to texts: each index once.
abbrev pub AnswerMap : Type 0
AnswerMap = List (ℕ × String)

-- answers[i]
abbrev pub answer_at : ℕ → AnswerMap → Option String
answer_at i [] = none
answer_at i ((j, s) ∷ m) = if j == i then some s else answer_at i m

-- answers[i] = answer
abbrev pub set_answer : ℕ → String → AnswerMap → AnswerMap
set_answer i s [] = (i, s) ∷ []
set_answer i s ((j, t) ∷ m) = if j == i then (j, s) ∷ m else (j, t) ∷ set_answer i s m

-- QuizSession; `seen` are the indices that the map holds, all true.
pub record QuizSession : Type 0 where
  pub id : String
  pub user_id : ℕ
  pub study_set_id : ℕ
  pub mode : String
  pub instant : Bool
  pub layout : String
  pub started_at : ℕ
  pub deadline : Option ℕ
  pub expires_at : ℕ
  pub submitted_at : Option ℕ
  pub completed_score : Option ℕ
  pub items : List SessionItem
  pub answers : AnswerMap
  pub seen : List ℕ
  pub total : ℕ
  pub snapshot_id : String
  pub current_index : ℕ
  pub sanitized : Bool

-- QuizSession.QuestionCount
abbrev pub question_count : QuizSession → ℕ
question_count s = if ltb 0 (length s.items) then length s.items else s.total

-- QuizPageItem
pub record PageItem : Type 0 where
  pub index : ℕ
  pub question : QuizQuestion
  pub has_audio : Bool
  pub revealed : Bool

-- QuizSessionView
pub record SessionView : Type 0 where
  pub id : String
  pub mode : String
  pub instant : Bool
  pub layout : String
  pub server_time : ℕ
  pub deadline : Option ℕ
  pub submitted : Bool
  pub current_index : ℕ
  pub total : ℕ
  pub answered : ℕ
  pub manifest : List ManifestItem
  pub page : List PageItem
  pub answers : AnswerMap
  pub results : List (ℕ × Bool)
  pub score : Option ℕ
  pub time_used : ℕ

-- QuizPeekView
pub record PeekView : Type 0 where
  pub id : String
  pub server_time : ℕ
  pub current_index : ℕ
  pub page : List PageItem

-- StartQuizInput
pub record StartInput : Type 0 where
  pub mode : String
  pub instant : Bool
  pub layout : String
  pub part : ℤ
  pub duration_seconds : ℤ

-- The errors of the service and of its repositories. `internal` is any failure of I/O, `panic` an
-- index out of range.
pub data StudyError : Type 0 where
  unauthorized forbidden validation not_found session_limit internal panic : StudyError

pub data Outcome {ℓ} (A : Type ℓ) : Type ℓ where
  ok : A → Outcome A
  err : StudyError → Outcome A

-- The functions of strings that the service calls, and its HTML filter.
pub record TextFns : Type 0 where
  pub trim_space : String → String
  pub to_lower : String → String
  pub to_upper : String → String
  pub safe_html : String → String

pub Outcome-cases {ℓ} :
    {A : Type ℓ} (o : Outcome A) → ((e : StudyError) × (o ≡ err e)) ⊎ ((a : A) × (o ≡ ok a))
Outcome-cases (ok a) = inr (a, refl)
Outcome-cases (err e) = inl (e, refl)

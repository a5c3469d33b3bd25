-- ===== src/Study/Store.antt =====
-- The tables of the protected quiz: services/study/internal/repository/quiz_session.go and
-- quiz_snapshot.go. A flag `fails` is the failure of any statement of a transaction, which is then
-- rolled back as a whole.
pub mod Rows
pub mod Results
use hquizlet_platform.Prelude.{
  ℕ, Bool, not, ◌&&◌, ◌||◌, String, List, [], ◌∷◌, Option, none, some, any, count, ltb, leb, ◌==◌,
  str_eq, if◌then◌else◌,
}
use hquizlet_platform.Prelude.Int.{pos}
use hquizlet_platform.Prelude.Text.{append}
use hquizlet_platform.Study.Model.{
  Snapshot, QuizSession, question_count, SessionView, Outcome, ok, err, not_found, session_limit,
  internal,
}
use hquizlet_platform.Study.View.{is_some, is_submitted}
use hquizlet_platform.Study.Progress.{LearningSession, Learning, key_taken, insert_learning}

-- A row of protected_quiz_sessions; the time of its update is left out.
pub record SessionRow : Type 0 where
  pub id : String
  pub user_id : ℕ
  pub study_set_id : ℕ
  pub state : QuizSession
  pub expires_at : ℕ
  pub active_until : ℕ
  pub snapshot_id : String
  pub deleted_at : Option ℕ

pub record StudyDb : Type 0 where
  pub sessions : List SessionRow
  pub learning : Learning
  pub snapshots : List Snapshot

-- MaxSessionsPerQuiz
abbrev pub max_sessions_per_quiz : ℕ
max_sessions_per_quiz = 5

-- The row with the primary key.
unfoldable pub row_of : String → List SessionRow → Option SessionRow
row_of k [] = none
row_of k (r ∷ rs) = if str_eq r.id k then some r else row_of k rs

-- `user_id=$2 AND study_set_id=$3 AND expires_at>now() AND deleted_at IS NULL`
abbrev pub is_open : ℕ → ℕ → ℕ → SessionRow → Bool
is_open u k now r =
    (r.user_id == u) && (r.study_set_id == k) && ltb now r.expires_at && not (is_some r.deleted_at)

-- The row that Update locks and that View reads.
unfoldable pub open_row : String → ℕ → ℕ → ℕ → List SessionRow → Option SessionRow
unfolding row_of
open_row id u k now rs = elim (row_of id rs) [
  | none ↦ none
  | some r ↦ if is_open u k now r then some r else none
]

-- `user_id=$1 AND study_set_id=$2 AND active_until>now() AND deleted_at IS NULL`
abbrev pub is_active : ℕ → ℕ → ℕ → SessionRow → Bool
is_active u k now r =
    (r.user_id == u)
    && (r.study_set_id == k)
    && ltb now r.active_until
    && not (is_some r.deleted_at)

-- CountActive
abbrev pub count_active : ℕ → ℕ → ℕ → List SessionRow → ℕ
count_active u k now = count (is_active u k now)

-- UPDATE ... WHERE id: the row with the primary key.
unfoldable pub update_row : String → (SessionRow → SessionRow) → List SessionRow → List SessionRow
update_row id f [] = []
update_row id f (r ∷ rs) = if str_eq r.id id then f r ∷ rs else r ∷ update_row id f rs

-- SET state, active_until
abbrev pub set_state : QuizSession → ℕ → SessionRow → SessionRow
set_state s t r = record r { state = s; active_until = t }

-- DELETE ... WHERE
unfoldable pub drop_rows : (SessionRow → Bool) → List SessionRow → List SessionRow
drop_rows p [] = []
drop_rows p (r ∷ rs) = let rest = drop_rows p rs in if p r then rest else r ∷ rest

-- `user_id=$1 AND expires_at<now()`
abbrev pub is_expired_of : ℕ → ℕ → SessionRow → Bool
is_expired_of u now r = (r.user_id == u) && ltb r.expires_at now

-- The rows that Create deletes first.
abbrev pub drop_expired : ℕ → ℕ → List SessionRow → List SessionRow
drop_expired u now = drop_rows (is_expired_of u now)

-- The hourly DELETE ... WHERE expires_at<now() of cmd/server/main.go.
abbrev pub drop_all_expired : ℕ → List SessionRow → List SessionRow
drop_all_expired now = drop_rows (λ r. ltb r.expires_at now)

unfoldable pub drop_learning : ℕ → List LearningSession → List LearningSession
drop_learning k [] = []
drop_learning k (r ∷ rs) =
    let rest = drop_learning k rs in if r.study_set_id == k then rest else r ∷ rest

unfoldable pub drop_snapshots : ℕ → List Snapshot → List Snapshot
drop_snapshots k [] = []
drop_snapshots k (r ∷ rs) =
    let rest = drop_snapshots k rs in if r.study_set_id == k then rest else r ∷ rest

-- StudySetRepository.Delete: ON DELETE CASCADE deletes the rows of the set in the three tables.
-- `visible` says whether there is a row of the set that is not hidden.
unfoldable pub delete_set : Bool → Bool → ℕ → StudyDb → StudyDb × Outcome {0} Unit
unfolding drop_rows drop_learning drop_snapshots
delete_set fails visible k db =
    if fails then (db, err internal) else if not visible then (db, err not_found) else (
      record db {
        sessions = drop_rows (λ r. r.study_set_id == k) db.sessions;
        learning = record db.learning { rows = drop_learning k db.learning.rows };
        snapshots = drop_snapshots k db.snapshots;
      },
      ok tt,
    )

abbrev pub or_time : Option ℕ → ℕ → ℕ
or_time none t = t
or_time (some d) t = d

-- activeUntil of Update: the time of the submission, the deadline or the expiry.
abbrev pub active_until : QuizSession → ℕ
active_until s = or_time s.submitted_at (or_time s.deadline s.expires_at)

-- INSERT INTO protected_quiz_sessions
abbrev pub new_row : QuizSession → SessionRow
new_row s = record {
  id = s.id;
  user_id = s.user_id;
  study_set_id = s.study_set_id;
  state = s;
  expires_at = s.expires_at;
  active_until = or_time s.deadline s.expires_at;
  snapshot_id = s.snapshot_id;
  deleted_at = none;
}

-- QuizSessionRepository.Create
unfoldable pub create_session : Bool → ℕ → QuizSession → StudyDb → StudyDb × Outcome {0} Unit
unfolding row_of drop_rows
create_session fails now s db =
    let rows = drop_expired s.user_id now db.sessions in
    if leb max_sessions_per_quiz (count_active s.user_id s.study_set_id now rows)
    then (db, err session_limit)
    else if fails || is_some (row_of s.id rows)
    then (db, err internal)
    else (record db { sessions = new_row s ∷ rows }, ok tt)

-- The key of a quiz in learning_sessions.
abbrev pub quiz_key : String → String
quiz_key id = append "quiz-" id

-- The row that Update writes for a quiz that has just been submitted.
abbrev pub learning_row : ℕ → ℕ → QuizSession → ℕ → LearningSession
learning_row u k s score = record {
  id = 0;
  user_id = u;
  study_set_id = k;
  mode = "test";
  score = pos score;
  total = pos (question_count s);
  started_at = s.started_at;
  completed_at = s.submitted_at;
  idempotency_key = quiz_key s.id;
  card_results = [];
}

-- INSERT INTO learning_sessions ... ON CONFLICT DO NOTHING, behind its condition; `none` where the
-- table's check that the score is at most the total refuses the row.
unfoldable pub record_result : ℕ → ℕ → QuizSession → QuizSession → Learning → Option Learning
unfolding insert_learning
record_result u k before after l = elim after.completed_score [
  | none ↦ some l
  | some score ↦
      if is_submitted before || not (is_submitted after)
      then some l
      else if ltb (question_count after) score
      then none
      else if key_taken u (quiz_key after.id) l.rows
      then some l
      else some (insert_learning l (learning_row u k after score))
]

-- QuizSessionRepository.Update
unfoldable pub update_session :
    Bool
    → ℕ
    → String
    → ℕ
    → ℕ
    → (QuizSession → Outcome (QuizSession × SessionView))
    → StudyDb
    → StudyDb × Outcome SessionView
unfolding open_row update_row record_result
update_session fails now id u k fn db = elim (open_row id u k now db.sessions) [
  | none ↦ (db, err not_found)
  | some r ↦ elim (fn r.state) [
    | err e ↦ (db, err e)
    | ok (x, view) ↦ elim (record_result u k r.state x db.learning) [
      | none ↦ (db, err internal)
      | some learning ↦ if fails then (db, err internal) else (
        record db {
          sessions = update_row id (set_state x (active_until x)) db.sessions;
          learning = learning;
        },
        ok view,
      )
    ]
  ]
]

-- QuizSessionRepository.View
unfoldable pub view_session {ℓ} :
    {A : Type ℓ} → ℕ → String → ℕ → ℕ → (QuizSession → Outcome A) → StudyDb → Outcome A
unfolding open_row
view_session now id u k fn db = elim (open_row id u k now db.sessions) [
  | none ↦ err not_found
  | some r ↦ fn r.state
]

-- SET deleted_at, active_until WHERE user_id AND deleted_at IS NULL
abbrev pub set_deleted : ℕ → ℕ → SessionRow → SessionRow
set_deleted u now r =
    if (r.user_id == u) && not (is_some r.deleted_at)
    then record r { deleted_at = some now; active_until = now }
    else r

-- QuizSessionRepository.Delete
unfoldable pub delete_session : Bool → ℕ → String → ℕ → StudyDb → StudyDb × Outcome {0} Unit
unfolding row_of update_row
delete_session fails now id u db =
    let after = record db { sessions = update_row id (set_deleted u now) db.sessions } in
    if fails then (db, err internal) else elim (row_of id db.sessions) [
      | none ↦ (db, err not_found)
      | some r ↦ if r.user_id == u then (after, ok tt) else (db, err not_found)
    ]

-- QuizSnapshotRepository.Get
unfoldable pub get_snapshot : List Snapshot → String → Outcome Snapshot
get_snapshot [] id = err not_found
get_snapshot (s ∷ ss) id = if str_eq s.id id then ok s else get_snapshot ss id

abbrev pub has_snapshot : List Snapshot → String → Bool
has_snapshot ss id = any (λ s. str_eq s.id id) ss

-- QuizSnapshotRepository.Put
unfoldable pub put_snapshot : Snapshot → List Snapshot → List Snapshot
put_snapshot s ss = if has_snapshot ss s.id then ss else s ∷ ss

-- `NOT EXISTS (SELECT 1 FROM protected_quiz_sessions p WHERE p.snapshot_id = s.id)`
abbrev pub is_referenced : List SessionRow → String → Bool
is_referenced rs id = any (λ r. str_eq r.snapshot_id id) rs

-- QuizSnapshotRepository.DeleteUnreferenced
unfoldable pub delete_unreferenced : ℕ → List SessionRow → List Snapshot → List Snapshot
delete_unreferenced before rs [] = []
delete_unreferenced before rs (s ∷ ss) =
    let rest = delete_unreferenced before rs ss in
    if ltb s.created_at before && not (is_referenced rs s.id) then rest else s ∷ rest

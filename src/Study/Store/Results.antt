-- ===== src/Study/Store/Results.antt =====
-- What an update of a session writes, and the results that it records.
use hquizlet_platform.Prelude.{
  none, ◌∷◌, ◌||◌, leb, ◌<◌, ◌==◌, ℕ, ◌≡◌, ◌⊎◌, Bool, true, false, String, some, arith,
  Option-cases, Bool-cases, inl, inr,
}
use hquizlet_platform.Study.Model.{QuizSession, SessionView, Outcome, Outcome-cases, ok}
use hquizlet_platform.Study.View.{is_some, is_submitted}
use hquizlet_platform.Study.Progress.{Learning, key_taken, insert_learning}
use hquizlet_platform.Study.Store.{
  SessionRow, StudyDb, row_of, drop_expired, count_active, new_row, set_deleted, create_session,
  delete_session, open_row, update_row, set_state, active_until, quiz_key, learning_row,
  record_result, update_session,
}

-- An update that was committed.
pub record Updated (id : String) (u k now : ℕ)
    (fn : QuizSession → Outcome (QuizSession × SessionView)) (db after : StudyDb) : Type 0 where
  pub row : SessionRow
  pub state : QuizSession
  pub view : SessionView
  pub learning : Learning
  pub found : open_row id u k now db.sessions ≡ some row
  pub done : fn row.state ≡ ok (state, view)
  pub kept : record_result u k row.state state db.learning ≡ some learning
  pub effect : after ≡ record db {
    sessions = update_row id (set_state state (active_until state)) db.sessions;
    learning = learning;
  }

pub update_session-cases :
    (fails : Bool) (now : ℕ) (id : String) (u k : ℕ)
    (fn : QuizSession → Outcome (QuizSession × SessionView)) (db : StudyDb)
    → ((update_session fails now id u k fn db).0 ≡ db)
      ⊎ Updated id u k now fn db (update_session fails now id u k fn db).0
unfolding update_session
update_session-cases fails now id u k fn db =
    elim (Option-cases (open_row id u k now db.sessions)) [
      | inl absent ↦ inl (ground (arith, absent))
      | inr (r, found) ↦ elim (Outcome-cases (fn r.state)) [
        | inl (e, failed) ↦ inl (ground (arith, found, failed))
        | inr ((x, v), done) ↦ elim (Option-cases (record_result u k r.state x db.learning)) [
          | inl refused ↦ inl (ground (arith, found, done, refused))
          | inr (l, kept) ↦ elim (Bool-cases fails) [
            | inl broken ↦ inl (ground (arith, found, done, kept, broken))
            | inr fine ↦ inr (record {
              row = r;
              state = x;
              view = v;
              learning = l;
              found = found;
              done = done;
              kept = kept;
              effect = ground (arith, found, done, kept, fine);
            })
          ]
        ]
      ]
    ]

-- What the update that submits a session writes to the table of results.
pub record_result-cases :
    (u k : ℕ) (s x : QuizSession) (l m : Learning)
    → record_result u k s x l ≡ some m
    → is_submitted s ≡ false
    → is_submitted x ≡ true
    → is_some x.completed_score ≡ true
    → ((key_taken u (quiz_key x.id) l.rows ≡ true) × (m ≡ l))
      ⊎ ((n : ℕ) × (x.completed_score ≡ some n)
          × (key_taken u (quiz_key x.id) l.rows ≡ false)
          × (m ≡ insert_learning l (learning_row u k x n)))
unfolding record_result
record_result-cases u k s x l m h before after scored = elim (Option-cases x.completed_score) [
  | inl unscored ↦ absurd (ground (arith, unscored, scored))
  | inr (n, score) ↦ elim (Bool-cases (key_taken u (quiz_key x.id) l.rows)) [
    | inl taken ↦ inl (taken, ground (arith, score, before, after, taken))
    | inr free ↦ inr (n, score, free, ground (arith, score, before, after, free))
  ]
]

-- A session that was created, behind the deletion of expired ones.
pub create_session-cases :
    (fails : Bool) (now : ℕ) (s : QuizSession) (db : StudyDb)
    → ((create_session fails now s db).0 ≡ db)
      ⊎ ((row_of s.id (drop_expired s.user_id now db.sessions) ≡ none)
          × (count_active s.user_id s.study_set_id now (drop_expired s.user_id now db.sessions) < 5)
          × ((create_session fails now s db).0
              ≡ record db { sessions = new_row s ∷ drop_expired s.user_id now db.sessions }))
unfolding create_session
create_session-cases fails now s db =
    let rows = drop_expired s.user_id now db.sessions in
    elim (Bool-cases (leb 5 (count_active s.user_id s.study_set_id now rows))) [
      | inl full ↦ inl (ground (arith, full))
      | inr free ↦ elim (Bool-cases (fails || is_some (row_of s.id rows))) [
        | inl broken ↦ inl (ground (arith, free, broken))
        | inr fine ↦ inr (
          ground (arith, fine, Option-cases (row_of s.id rows)),
          ground (arith, free),
          ground (arith, free, fine),
        )
      ]
    ]

pub delete_session-cases :
    (fails : Bool) (now : ℕ) (id : String) (u : ℕ) (db : StudyDb)
    → ((delete_session fails now id u db).0 ≡ db)
      ⊎ ((delete_session fails now id u db).0
          ≡ record db { sessions = update_row id (set_deleted u now) db.sessions })
unfolding delete_session
delete_session-cases fails now id u db = elim (Bool-cases fails) [
  | inl broken ↦ inl (ground (arith, broken))
  | inr fine ↦ elim (Option-cases (row_of id db.sessions)) [
    | inl absent ↦ inl (ground (arith, fine, absent))
    | inr (r, found) ↦ elim (Bool-cases (r.user_id == u)) [
      | inl own ↦ inr (ground (arith, fine, found, own))
      | inr foreign ↦ inl (ground (arith, fine, found, foreign))
    ]
  ]
]

-- ===== src/Study/Progress/Forged.antt =====
-- The keys of quizzes in the table of learning sessions, which requests of learners may take.
use hquizlet_platform.Prelude.{
  ℕ, ◌≡◌, Bool, true, false, List, Option, some, ==_refl, arith, eq_refl, Bool-cases, Option-cases,
  inl, inr,
}
use hquizlet_platform.Prelude.Int.{ℤ}
use hquizlet_platform.Study.Model.{QuizSession}
use hquizlet_platform.Study.Progress.{
  LearningSession, Learning, saved, key_taken, insert_learning, SaveInput, save_session,
  save_progress, verify_cards,
}
use hquizlet_platform.Study.Store.{quiz_key, record_result}

save_session-taken :
    (l : Learning) (u k at : ℕ) (i : SaveInput)
    → key_taken u i.idempotency_key (save_session false l u k at i).0.rows ≡ true
unfolding save_session insert_learning
save_session-taken l u k at i =
    ground (
      arith,
      ==_refl u,
      eq_refl i.idempotency_key,
      Bool-cases (key_taken u i.idempotency_key l.rows),
    )

-- Saved progress takes the key of its request.
save_progress-taken :
    (l : Learning) (owned : Option Bool) (learner : Bool) (cards : Option (List ℤ)) (u k : ℕ)
    (i : SaveInput) (row : LearningSession)
    → (save_progress false l owned learner cards u k i).1 ≡ saved row
    → key_taken u i.idempotency_key (save_progress false l owned learner cards u k i).0.rows ≡ true
unfolding save_progress
save_progress-taken l owned learner cards u k i row h = elim (Option-cases owned) [
  | inl failed ↦ absurd (ground (arith, failed, h))
  | inr (mine, read) ↦ elim (Option-cases (verify_cards cards i.card_results)) [
    | inr (e, foreign) ↦ absurd (ground (arith, read, foreign, h))
    | inl fine ↦ elim (Option-cases i.started_at) [
      | inl never ↦ absurd (ground (arith, read, fine, never, h))
      | inr (at, given) ↦ ground (arith, read, fine, given, h, save_session-taken l u k at i)
    ]
  ]
]

record_result-skipped :
    (u k : ℕ) (s x : QuizSession) (l m : Learning)
    → key_taken u (quiz_key x.id) l.rows ≡ true
    → record_result u k s x l ≡ some m
    → m ≡ l
unfolding record_result
record_result-skipped u k s x l m taken h = elim (Option-cases x.completed_score) [
  | inl unscored ↦ ground (arith, unscored, h)
  | inr (n, scored) ↦ ground (arith, scored, taken, h)
]

-- Once a learner has saved progress under the key of a quiz session, with whatever score, the
-- submission of that session leaves the table of learning sessions as the learner has written it: its
-- own result is not recorded.
pub saved_key_drops_quiz_result :
    (l : Learning) (owned : Option Bool) (learner : Bool) (cards : Option (List ℤ)) (u k set : ℕ)
    (i : SaveInput) (row : LearningSession) (s x : QuizSession) (m : Learning)
    → i.idempotency_key ≡ quiz_key x.id
    → (save_progress false l owned learner cards u k i).1 ≡ saved row
    → record_result u set s x (save_progress false l owned learner cards u k i).0 ≡ some m
    → m ≡ (save_progress false l owned learner cards u k i).0
saved_key_drops_quiz_result l owned learner cards u k set i row s x m same done h =
    record_result-skipped u set s x (save_progress false l owned learner cards u k i).0 m
      (rw (← same) (save_progress-taken l owned learner cards u k i row done)) h

-- ===== src/Study/Runs/Recorded.antt =====
-- The result of a quiz that an action submits, in the transaction of the action: ActWith of
-- services/study/internal/service/protected_quiz.go in Update of repository/quiz_session.go.

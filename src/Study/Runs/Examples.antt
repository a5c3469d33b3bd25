-- ===== src/Study/Runs/Examples.antt =====
-- A run of the service: a quiz is started, answered and submitted, and the clock goes on.
use hquizlet_platform.Prelude.{
  ℕ, ◌≤◌, ◌≡◌, refl, true, false, String, [], ◌∷◌, none, some, all, arith,
}
use hquizlet_platform.Prelude.Int.{pos, negsuc}
use hquizlet_platform.Study.Model.{
  Snapshot, QuizSession, question_count, SessionView, answer_at, Outcome, ok, err,
}
use hquizlet_platform.Study.Examples.{plain_text, no_json, request, question, no_view}
use hquizlet_platform.Study.View.{is_submitted, build_view}
use hquizlet_platform.Study.Items.{session_items}
use hquizlet_platform.Study.Pages.{snapshot_index}
use hquizlet_platform.Study.Answers.{valid_quiz_answer, quiz_correct}
use hquizlet_platform.Study.Play.{resolve_index, auto_submit, act}
use hquizlet_platform.Study.Play.Sound.{may_stand}
use hquizlet_platform.Study.Store.{
  SessionRow, row_of, new_row, create_session, update_session, put_snapshot, get_snapshot,
  count_active,
}
use hquizlet_platform.Study.Start.{new_session, plan_start}
use hquizlet_platform.Study.Runs.{World, init, put, create, play, tick, Reach, here, next}
use hquizlet_platform.Study.Runs.Invariant.{active_sessions_bounded, answers_were_served}
use hquizlet_platform.Study.Runs.Finality.{submitted_quiz_is_final}

abbrev blank : QuizSession
blank = new_session "s1" 5 4 request 2 100 "h"

abbrev no_snapshot : Snapshot
no_snapshot = record {
  id = "";
  study_set_id = 0;
  part = 0;
  created_at = 0;
  items = [];
  manifest = [];
  pages = [];
}

abbrev plan : Outcome (Snapshot × QuizSession × SessionView)
plan = plan_start plain_text no_json "h" "s1" 5 4 request (question ∷ question ∷ []) [] 100

abbrev planned : Snapshot × QuizSession × SessionView
planned = elim plan [ ok p ↦ p | err e ↦ (no_snapshot, blank, no_view) ]

abbrev w1 : World
w1 = record init { db = record init.db { snapshots = put_snapshot planned.0 init.db.snapshots } }

abbrev w2 : World
w2 = record w1 { db = (create_session false w1.clock planned.1 w1.db).0; used = "s1" ∷ w1.used }

abbrev w3 : World
w3 = record w2 {
  db =
      (update_session false w2.clock "s1" 5 4
        (λ s. act plain_text (get_snapshot w1.db.snapshots) s "answer" (pos 0) "yes" 200 false)
        w2.db).0;
  clock = 200;
}

abbrev w4 : World
w4 = record w3 {
  db =
      (update_session false w3.clock "s1" 5 4
        (λ s. act plain_text (get_snapshot w1.db.snapshots) s "submit" (negsuc 0) "" 300 false)
        w3.db).0;
  clock = 300;
}

abbrev w5 : World
w5 = record w4 { clock = 900 }

-- The row of the session.
abbrev row_in : World → SessionRow
row_in w = elim (row_of "s1" w.db.sessions) [ some r ↦ r | none ↦ new_row blank ]

run_to_w4 : Reach plain_text no_json init w4
unfolding plan_start session_items build_view snapshot_index
run_to_w4 =
    next
      (next
        (next (next here (put init planned.0)) (
          create w1 false "h" "s1" 5 4 request (question ∷ question ∷ []) [] 100 planned.0 planned.1
            planned.2 refl refl))
        (play w2 false (get_snapshot w1.db.snapshots) "s1" 5 4 "answer" (pos 0) "yes" 200 false
          (omega arith)))
      (play w3 false (get_snapshot w1.db.snapshots) "s1" 5 4 "submit" (negsuc 0) "" 300 false
        (omega arith))

-- The result is recorded, with one right answer of two.
recorded :
    (count_active 5 4 300 w4.db.sessions ≡ 0)
    × ((row_in w4).state.completed_score ≡ some 1)
    × (question_count (row_in w4).state ≡ 2)
unfolding plan_start row_of update_session create_session session_items build_view snapshot_index
    act get_snapshot put_snapshot resolve_index auto_submit valid_quiz_answer quiz_correct
recorded = (refl, refl, refl)

submitted_quiz_is_final_example :
    (is_submitted (row_in w4).state ≡ true
      → ((row_in w5).state.answers ≡ (row_in w4).state.answers)
        × ((row_in w5).state.submitted_at ≡ (row_in w4).state.submitted_at))
    × ((i : ℕ) (a : String)
        → (row_in w4).state.instant ≡ true
        → answer_at i (row_in w4).state.answers ≡ some a
        → answer_at i (row_in w5).state.answers ≡ some a)
unfolding plan_start row_of update_session create_session session_items build_view snapshot_index
    act get_snapshot put_snapshot resolve_index auto_submit valid_quiz_answer quiz_correct
submitted_quiz_is_final_example =
    submitted_quiz_is_final plain_text no_json w4 w5 "s1" (row_in w4) (row_in w5) run_to_w4
      (next here (tick w4 900 (omega arith))) refl refl

answers_were_served_example :
    (all (may_stand (row_in w4).state.seen) (row_in w4).state.answers ≡ true)
    × ((a d : ℕ)
        → (row_in w4).state.submitted_at ≡ some a
        → (row_in w4).state.deadline ≡ some d
        → a ≤ d)
unfolding plan_start row_of update_session create_session session_items build_view snapshot_index
    act get_snapshot put_snapshot resolve_index auto_submit valid_quiz_answer quiz_correct
answers_were_served_example =
    answers_were_served plain_text no_json w4 "s1" (row_in w4) run_to_w4 refl

active_sessions_bounded_example : count_active 5 4 300 w4.db.sessions ≤ 5
active_sessions_bounded_example = active_sessions_bounded plain_text no_json w4 5 4 run_to_w4

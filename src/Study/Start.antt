-- ===== src/Study/Start.antt =====
-- Start and newQuizSnapshot of services/study/internal/service/protected_quiz.go. The hash of a
-- snapshot, the random id and the random bytes are arguments; times are in nanoseconds.
use hquizlet_platform.Prelude.{
  ℕ, ◌+◌, ◌*◌, Bool, true, not, ◌&&◌, ◌||◌, String, List, [], ◌∷◌, Option, none, some, length, ltb,
  ◌==◌, str_eq, if◌then◌else◌,
}
use hquizlet_platform.Prelude.Int.{ℤ, pos, pos_part, ltb_ℤ, eq_ℤ, is_positive}
use hquizlet_platform.Study.Model.{
  QuizQuestion, SessionItem, Snapshot, QuizSession, SessionView, StartInput, Outcome, ok, err,
  validation, panic, TextFns,
}
use hquizlet_platform.Study.Items.{Decoder, session_items}
use hquizlet_platform.Study.Pages.{snapshot_index}
use hquizlet_platform.Study.View.{content_from_snapshot, build_view}

-- The checks of a request to start.
unfoldable pub valid_start : StartInput → Bool
valid_start i =
    (str_eq i.mode "practice" || str_eq i.mode "exam")
    && (str_eq i.layout "default" || str_eq i.layout "toeic")
    && not (ltb_ℤ i.part (pos 0))
    && not (ltb_ℤ (pos 7) i.part)
    && not (ltb_ℤ i.duration_seconds (pos 0))
    && not (ltb_ℤ (pos 36000) i.duration_seconds)
    && not (str_eq i.mode "exam" && ltb_ℤ i.duration_seconds (pos 60))

-- The items of one part, or all.
unfoldable pub items_of_part : ℤ → List SessionItem → List SessionItem
items_of_part part [] = []
items_of_part part (it ∷ items) =
    let rest = items_of_part part items in
    if eq_ℤ part (pos 0) || eq_ℤ (pos it.part) part then it ∷ rest else rest

abbrev seconds : ℕ → ℕ
seconds n = n * 1000000000

-- newQuizSnapshot
unfoldable pub new_quiz_snapshot : String → ℕ → ℤ → List SessionItem → ℕ → Snapshot
new_quiz_snapshot hash k part items now =
    let (pages, manifest) = snapshot_index items in
    record {
      id = hash;
      study_set_id = k;
      part = pos_part part;
      created_at = now;
      items = items;
      manifest = manifest;
      pages = pages;
    }

-- The session that Start makes, before its first view.
unfoldable pub new_session : String → ℕ → ℕ → StartInput → ℕ → ℕ → String → QuizSession
new_session id u k i total now snapshot_id = record {
  id = id;
  user_id = u;
  study_set_id = k;
  mode = i.mode;
  instant = str_eq i.mode "practice" && i.instant;
  layout = i.layout;
  started_at = now;
  deadline =
      if is_positive i.duration_seconds
      then some (now + seconds (pos_part i.duration_seconds))
      else none;
  expires_at = now + seconds 86400;
  submitted_at = none;
  completed_score = none;
  items = [];
  answers = [];
  seen = [];
  total = total;
  snapshot_id = snapshot_id;
  current_index = 0;
  sanitized = true;
}

-- Start, between its checks of access and limits and its writes: the snapshot that it puts, the
-- session that it creates, and the view that it answers.
unfoldable pub plan_start :
    TextFns
    → Decoder
    → String
    → String
    → ℕ
    → ℕ
    → StartInput
    → List QuizQuestion
    → List (Option ℕ)
    → ℕ
    → Outcome (Snapshot × QuizSession × SessionView)
unfolding valid_start items_of_part new_quiz_snapshot new_session
plan_start t json hash id u k i questions bytes now =
    if not (valid_start i)
    then err validation
    else elim (session_items t json true questions bytes) [
      | err e ↦ err e
      | ok all_items ↦
          let items = items_of_part i.part all_items in
          if (length items == 0) || ltb 5000 (length items)
          then err validation
          else let snap = new_quiz_snapshot hash k i.part items now in
            let fresh = new_session id u k i (length items) now hash in
            elim (build_view t fresh (content_from_snapshot snap) 0 now true) [
              | none ↦ err panic
              | some (s, view) ↦ ok (snap, s, view)
            ]
    ]

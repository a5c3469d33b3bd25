-- ===== src/Study/Runs/Created.antt =====
-- Sessions that are created and deleted keep what holds of the rows.
use hquizlet_platform.Prelude.{
  ℕ, ◌≡◌, refl, ap, ◌∙◌, Bool, true, false, not, ◌&&◌, String, List, [], ◌∷◌, Option, none, length,
  All, ◌==◌, arith, eq_refl, Option-cases, Bool-cases, or_intro_right, inl, inr,
}
use hquizlet_platform.Study.Model.{
  QuizQuestion, Outcome-cases, Snapshot, QuizSession, SessionView, StartInput, ok, TextFns,
}
use hquizlet_platform.Study.Items.{Decoder, session_items}
use hquizlet_platform.Study.View.{is_some, content_from_snapshot, build_view}
use hquizlet_platform.Study.Progress.{Learning}
use hquizlet_platform.Study.Store.{
  SessionRow, is_active, count_active, set_deleted, new_row, drop_rows, drop_expired, is_expired_of,
  create_session, delete_session,
}
use hquizlet_platform.Study.Store.Rows.{
  update_row-distinct, All-update_row, drop_rows-distinct, All-drop_rows, count-drop_rows,
  count-update_row,
}
use hquizlet_platform.Study.Store.Results.{create_session-cases, delete_session-cases}
use hquizlet_platform.Study.View.Kept.{build_view-Kept}
use hquizlet_platform.Study.Start.{
  valid_start, items_of_part, new_quiz_snapshot, new_session, plan_start,
}
use hquizlet_platform.Study.Runs.Played.{RowOk, Inv, All-map}
use hquizlet_platform.Study.Runs.{World, is_used}

module _ (t : TextFns) (json : Decoder) where
  -- A planned session has the id that was drawn for it, no answers and no submission.
  pub plan_start-fresh :
      (hash id : String) (u k : ℕ) (i : StartInput) (questions : List QuizQuestion)
      (bytes : List (Option ℕ)) (now : ℕ) (snap : Snapshot) (s : QuizSession) (v : SessionView)
      → plan_start t json hash id u k i questions bytes now ≡ ok (snap, s, v)
      → (s.id ≡ id) × (s.answers ≡ []) × (s.submitted_at ≡ none)
  unfolding plan_start new_session
  plan_start-fresh hash id u k i questions bytes now snap s v h =
      elim (Bool-cases (valid_start i)) [
        | inr bad ↦ ground (arith, bad)
        | inl good ↦ elim (Outcome-cases (session_items t json true questions bytes)) [
          | inl (e, failed) ↦ ground (arith, good, failed)
          | inr (all_items, made) ↦
              let items = items_of_part i.part all_items in
              let fresh = new_session id u k i (length items) now hash in
              let c = content_from_snapshot (new_quiz_snapshot hash k i.part items now) in
              elim (Option-cases (build_view t fresh c 0 now true)) [
                | inl absent ↦ ground (arith, good, made, absent)
                | inr ((x, w), built) ↦
                    let same : s ≡ x = ground (arith, good, made, built) in
                    let kept = build_view-Kept t fresh x c 0 now true w built in
                    (
                      ap (λ z. z.id) same ∙ ap (λ z. z.id) kept,
                      ap (λ z. z.answers) same ∙ ap (λ z. z.answers) kept,
                      ap (λ z. z.submitted_at) same ∙ ap (λ z. z.submitted_at) kept,
                    )
              ]
        ]
      ]

new-RowOk :
    (now : ℕ) (s : QuizSession) → s.answers ≡ [] → s.submitted_at ≡ none → RowOk now (new_row s)
new-RowOk now s blank running = record {
  answered = record {
    served = rw blank refl;
    past = λ a m. absurd (ground (arith, running, m));
    on_time = λ a d m e. absurd (ground (arith, running, m));
  };
  named = refl;
  until = λ h. rw running refl;
}

pub create-Inv :
    (m : World) (fails : Bool) (s : QuizSession)
    → is_used s.id m.used ≡ false
    → s.answers ≡ []
    → s.submitted_at ≡ none
    → Inv m
    → Inv (record m { db = (create_session fails m.clock s m.db).0; used = s.id ∷ m.used })
create-Inv m fails s fresh blank running i =
    let rows = drop_expired s.user_id m.clock m.db.sessions in
    let older : All (λ r. is_used r.id (s.id ∷ m.used) ≡ true) m.db.sessions =
      All-map (λ r. is_used r.id m.used ≡ true) (λ r. is_used r.id (s.id ∷ m.used) ≡ true)
        m.db.sessions (λ r h. or_intro_right _ _ h) i.drawn in
    elim (create_session-cases fails m.clock s m.db) [
      | inl kept ↦
          rw kept
            (record { rows = i.rows; distinct = i.distinct; drawn = older; bounded = i.bounded })
      | inr (absent, free, made) ↦ rw made (record {
        rows = (
          new-RowOk m.clock s blank running,
          All-drop_rows (is_expired_of s.user_id m.clock) (RowOk m.clock) m.db.sessions i.rows,
        );
        distinct = ground (
          arith,
          absent,
          drop_rows-distinct (is_expired_of s.user_id m.clock) m.db.sessions i.distinct,
        );
        drawn = (
          ground (arith, eq_refl s.id),
          All-drop_rows (is_expired_of s.user_id m.clock) (λ r. is_used r.id (s.id ∷ m.used) ≡ true)
              m.db.sessions older,
        );
        bounded = λ v j. elim (Bool-cases (is_active v j m.clock (new_row s))) [
          | inl own ↦
              let same_user : s.user_id ≡ v = ground (arith, own) in
              let same_set : s.study_set_id ≡ j = ground (arith, own) in
              rw own (
                ground (
                  arith,
                  free,
                  ap (λ n. count_active n s.study_set_id m.clock rows) same_user,
                  ap (λ n. count_active v n m.clock rows) same_set,
                ))
          | inr other ↦ rw other (
              omega (
                arith,
                count-drop_rows (is_expired_of s.user_id m.clock) (is_active v j m.clock)
                    m.db.sessions,
                i.bounded v j,
              ))
        ];
      })
    ]

pub set_deleted-id : (u now : ℕ) (r : SessionRow) → (set_deleted u now r).id ≡ r.id
set_deleted-id u now r = elim (Bool-cases ((r.user_id == u) && not (is_some r.deleted_at))) [
  | inl own ↦ rw own refl
  | inr other ↦ rw other refl
]

pub set_deleted-state : (u now : ℕ) (r : SessionRow) → (set_deleted u now r).state ≡ r.state
set_deleted-state u now r = elim (Bool-cases ((r.user_id == u) && not (is_some r.deleted_at))) [
  | inl own ↦ rw own refl
  | inr other ↦ rw other refl
]

deleted-RowOk : (u now : ℕ) (r : SessionRow) → RowOk now r → RowOk now (set_deleted u now r)
deleted-RowOk u now r h = elim (Bool-cases ((r.user_id == u) && not (is_some r.deleted_at))) [
  | inr other ↦ rw other h
  | inl own ↦
      rw own
        (record { answered = h.answered; named = h.named; until = λ e. absurd (ground (arith, e)) })
]

deleted-active :
    (u now v j : ℕ) (r : SessionRow)
    → is_active v j now (set_deleted u now r) ≡ true
    → is_active v j now r ≡ true
deleted-active u now v j r h = elim (Bool-cases ((r.user_id == u) && not (is_some r.deleted_at))) [
  | inr other ↦ ground (arith, other, h)
  | inl own ↦ absurd (ground (arith, own, h))
]

pub remove-Inv :
    (m : World) (fails : Bool) (id : String) (u : ℕ)
    → Inv m
    → Inv (record m { db = (delete_session fails m.clock id u m.db).0 })
remove-Inv m fails id u i =
    let f = set_deleted u m.clock in
    elim (delete_session-cases fails m.clock id u m.db) [
      | inl kept ↦ rw kept i
      | inr gone ↦ rw gone (record {
        rows =
            All-update_row id f (set_deleted-id u m.clock) (RowOk m.clock) m.db.sessions i.rows
              (λ r e h. deleted-RowOk u m.clock r h);
        distinct = update_row-distinct id f (set_deleted-id u m.clock) m.db.sessions i.distinct;
        drawn =
            All-update_row id f (set_deleted-id u m.clock) (λ r. is_used r.id m.used ≡ true)
              m.db.sessions i.drawn
              (λ r e h. ap (λ k. is_used k m.used) (set_deleted-id u m.clock r) ∙ h);
        bounded = λ v j.
            let fewer =
              count-update_row (is_active v j m.clock) (is_active v j m.clock) id f m.db.sessions
                (λ r h. h) (λ r e h. deleted-active u m.clock v j r h) in
            omega (arith, fewer, i.bounded v j);
      })
    ]

-- Rows that are deleted for good, and a table of results that changes in any way.
pub drop-Inv :
    (m : World) (q : SessionRow → Bool) (l : Learning)
    → Inv m
    → Inv (record m { db = record m.db { sessions = drop_rows q m.db.sessions; learning = l } })
drop-Inv m q l i = record {
  rows = All-drop_rows q (RowOk m.clock) m.db.sessions i.rows;
  distinct = drop_rows-distinct q m.db.sessions i.distinct;
  drawn = All-drop_rows q (λ r. is_used r.id m.used ≡ true) m.db.sessions i.drawn;
  bounded =
      λ v j. omega (arith, count-drop_rows q (is_active v j m.clock) m.db.sessions, i.bounded v j);
}

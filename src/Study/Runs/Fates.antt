-- ===== src/Study/Runs/Fates.antt =====
-- What one transaction may make of a session of a quiz.
use hquizlet_platform.Prelude.{
  ℕ, ◌≡◌, ◌⊎◌, refl, ap, ◌∙◌, sym, Bool, true, false, String, List, none, some, arith, str_eq, ◌==◌,
  eq_iff, Bool-cases, inl, inr, if◌then◌else◌,
}
use hquizlet_platform.Prelude.Int.{ℤ}
use hquizlet_platform.Study.Model.{Snapshot, QuizSession, SessionView, Outcome, TextFns}
use hquizlet_platform.Study.Play.{act}
use hquizlet_platform.Study.Play.Steps.{act-inv}
use hquizlet_platform.Study.Play.Moves.{Moves, Moves-refl, act_on-Moves}
use hquizlet_platform.Study.Store.{
  SessionRow, StudyDb, row_of, set_state, set_deleted, active_until, create_session, update_session,
  delete_session, drop_rows, is_expired_of, delete_set,
}
use hquizlet_platform.Study.Store.Rows.{
  row_of-id, row_of-update_none, row_of-update_some, row_of-drop_none, row_of-drop_some,
  open_row-inv,
}
use hquizlet_platform.Study.Store.Results.{
  update_session-cases, create_session-cases, delete_session-cases,
}
use hquizlet_platform.Study.Runs.{World, is_used}
use hquizlet_platform.Study.Runs.Played.{Inv, row_of-All}
use hquizlet_platform.Study.Runs.Created.{set_deleted-id, set_deleted-state}

-- What may have become of a session: it is gone, or it has moved on.
abbrev pub Fate : String → QuizSession → List SessionRow → Type 0
Fate id s rs =
    (row_of id rs ≡ none) ⊎ ((r : SessionRow) × (row_of id rs ≡ some r) × Moves s r.state)

pub kept-Fate :
    (id : String) (rs : List SessionRow) (r : SessionRow)
    → row_of id rs ≡ some r
    → Fate id r.state rs
kept-Fate id rs r h = inr (r, h, Moves-refl r.state)

pub create-Fate :
    (fails : Bool) (now : ℕ) (s : QuizSession) (m : World) (id : String) (r : SessionRow)
    → Inv m
    → str_eq s.id id ≡ false
    → row_of id m.db.sessions ≡ some r
    → Fate id r.state (create_session fails now s m.db).0.sessions
unfolding row_of
create-Fate fails now s m id r i other h = elim (create_session-cases fails now s m.db) [
  | inl kept ↦ rw kept (kept-Fate id m.db.sessions r h)
  | inr (absent, free, made) ↦
      elim (row_of-drop_some (is_expired_of s.user_id now) id m.db.sessions r i.distinct h) [
        | inl gone ↦ inl (rw (made, other) gone)
        | inr stays ↦ inr (r, rw (made, other) stays, Moves-refl r.state)
      ]
]

pub create-gone :
    (fails : Bool) (now : ℕ) (s : QuizSession) (db : StudyDb) (id : String)
    → str_eq s.id id ≡ false
    → row_of id db.sessions ≡ none
    → row_of id (create_session fails now s db).0.sessions ≡ none
unfolding row_of
create-gone fails now s db id other h = elim (create_session-cases fails now s db) [
  | inl kept ↦ rw kept h
  | inr (absent, free, made) ↦
      rw (made, other) (row_of-drop_none (is_expired_of s.user_id now) id db.sessions h)
]

module _ (t : TextFns) where
  pub play-Fate :
      (fails : Bool) (get : String → Outcome Snapshot) (key : String) (u k : ℕ) (action : String)
      (index : ℤ) (answer : String) (last now : ℕ) (inc : Bool) (db : StudyDb) (id : String)
      (r : SessionRow)
      → row_of id db.sessions ≡ some r
      → Fate id r.state
          (update_session fails last key u k
            (λ s. act t get s action index answer now inc)
            db).0.sessions
  play-Fate fails get key u k action index answer last now inc db id r h =
      let fn = λ (s : QuizSession). act t get s action index answer now inc in
      elim (update_session-cases fails last key u k fn db) [
        | inl kept ↦ rw kept (kept-Fate id db.sessions r h)
        | inr up ↦
            let f = set_state up.state (active_until up.state) in
            let after = row_of-update_some key f (λ x. refl) id db.sessions r h in
            elim (Bool-cases (str_eq id key)) [
              | inr other ↦ inr (
                r,
                rw up.effect (after ∙ ap (λ b. some (if b then f r else r)) other),
                Moves-refl r.state,
              )
              | inl same ↦
                  let (c, read, on) =
                    act-inv t get up.row.state up.state action index answer now inc up.view
                      up.done in
                  let found = (open_row-inv key u k last db.sessions up.row up.found).0 in
                  let one : r ≡ up.row =
                    ground
                      (arith, found, h, ap (λ n. row_of n db.sessions) ((eq_iff id key).0 same)) in
                  let moves =
                    act_on-Moves t c up.row.state up.state action index answer now inc up.view on in
                  inr (
                    f r,
                    rw up.effect (after ∙ ap (λ b. some (if b then f r else r)) same),
                    rw one moves,
                  )
            ]
      ]

pub remove-Fate :
    (fails : Bool) (now : ℕ) (key : String) (u : ℕ) (db : StudyDb) (id : String) (r : SessionRow)
    → row_of id db.sessions ≡ some r
    → Fate id r.state (delete_session fails now key u db).0.sessions
remove-Fate fails now key u db id r h =
    let f = set_deleted u now in
    elim (delete_session-cases fails now key u db) [
      | inl kept ↦ rw kept (kept-Fate id db.sessions r h)
      | inr gone ↦
          let after = row_of-update_some key f (set_deleted-id u now) id db.sessions r h in
          elim (Bool-cases (str_eq id key)) [
            | inr other ↦ inr (
              r,
              rw gone (after ∙ ap (λ b. some (if b then f r else r)) other),
              Moves-refl r.state,
            )
            | inl same ↦ inr (
              f r,
              rw gone (after ∙ ap (λ b. some (if b then f r else r)) same),
              rw (set_deleted-state u now r) (Moves-refl r.state),
            )
          ]
    ]

pub play-gone :
    (fails : Bool) (last : ℕ) (key : String) (u k : ℕ)
    (fn : QuizSession → Outcome (QuizSession × SessionView)) (db : StudyDb) (id : String)
    → row_of id db.sessions ≡ none
    → row_of id (update_session fails last key u k fn db).0.sessions ≡ none
play-gone fails last key u k fn db id h = elim (update_session-cases fails last key u k fn db) [
  | inl kept ↦ rw kept h
  | inr up ↦ rw up.effect (
      row_of-update_none key (set_state up.state (active_until up.state)) (λ x. refl) id db.sessions
        h)
]

pub remove-gone :
    (fails : Bool) (now : ℕ) (key : String) (u : ℕ) (db : StudyDb) (id : String)
    → row_of id db.sessions ≡ none
    → row_of id (delete_session fails now key u db).0.sessions ≡ none
remove-gone fails now key u db id h = elim (delete_session-cases fails now key u db) [
  | inl kept ↦ rw kept h
  | inr gone ↦
      rw gone (row_of-update_none key (set_deleted u now) (set_deleted-id u now) id db.sessions h)
]

pub row_drawn :
    (id : String) (r : SessionRow) (m : World)
    → Inv m
    → row_of id m.db.sessions ≡ some r
    → is_used id m.used ≡ true
row_drawn id r m i h =
    ap (λ k. is_used k m.used) (sym (row_of-id id m.db.sessions r h))
    ∙ row_of-All (λ x. is_used x.id m.used ≡ true) id m.db.sessions r h i.drawn

-- An id that was drawn is not drawn again.
pub drawn_before :
    (id s : String) (used : List String)
    → is_used id used ≡ true
    → is_used s used ≡ false
    → str_eq s id ≡ false
drawn_before id s used h k = elim (Bool-cases (str_eq s id)) [
  | inr other ↦ other
  | inl same ↦ absurd (ground (arith, h, k, ap (λ n. is_used n used) ((eq_iff s id).0 same)))
]

pub drop-Fate :
    (q : SessionRow → Bool) (m : World) (id : String) (r : SessionRow)
    → Inv m
    → row_of id m.db.sessions ≡ some r
    → Fate id r.state (drop_rows q m.db.sessions)
drop-Fate q m id r i h = elim (row_of-drop_some q id m.db.sessions r i.distinct h) [
  | inl gone ↦ inl gone
  | inr stays ↦ inr (r, stays, Moves-refl r.state)
]

pub erase-Fate :
    (fails visible : Bool) (k : ℕ) (m : World) (id : String) (r : SessionRow)
    → Inv m
    → row_of id m.db.sessions ≡ some r
    → Fate id r.state (delete_set fails visible k m.db).0.sessions
unfolding delete_set
erase-Fate true visible k m id r i h = kept-Fate id m.db.sessions r h
erase-Fate false false k m id r i h = kept-Fate id m.db.sessions r h
erase-Fate false true k m id r i h = drop-Fate (λ x. x.study_set_id == k) m id r i h

pub erase-gone :
    (fails visible : Bool) (k : ℕ) (db : StudyDb) (id : String)
    → row_of id db.sessions ≡ none
    → row_of id (delete_set fails visible k db).0.sessions ≡ none
unfolding delete_set
erase-gone true visible k db id h = h
erase-gone false false k db id h = h
erase-gone false true k db id h = row_of-drop_none (λ x. x.study_set_id == k) id db.sessions h

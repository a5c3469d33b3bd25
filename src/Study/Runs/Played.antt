-- ===== src/Study/Runs/Played.antt =====
-- What holds of the rows of quiz sessions, and that actions preserve it.
use hquizlet_platform.Prelude.{
  ℕ, ◌≤◌, ◌≡◌, refl, ap, ◌∙◌, sym, Bool, true, false, String, List, [], ◌∷◌, none, some, All, ltb,
  arith, str_eq, Option-cases, Bool-cases, inl, inr,
}
use hquizlet_platform.Prelude.Int.{ℤ}
use hquizlet_platform.Study.Model.{Snapshot, QuizSession, Outcome, TextFns}
use hquizlet_platform.Study.View.{is_some, is_submitted}
use hquizlet_platform.Study.Play.{act}
use hquizlet_platform.Study.Play.Steps.{act-inv}
use hquizlet_platform.Study.Play.Moves.{Moves, act_on-Moves}
use hquizlet_platform.Study.Play.Sound.{Answered, later-Answered, act_on-Answered}
use hquizlet_platform.Study.Store.{
  SessionRow, StudyDb, row_of, is_active, count_active, set_state, active_until, update_session,
}
use hquizlet_platform.Study.Store.Rows.{
  distinct_rows, update_row-distinct, All-update_row, count-update_row, count_mono, open_row-inv,
}
use hquizlet_platform.Study.Store.Results.{Updated, update_session-cases}
use hquizlet_platform.Study.Runs.{World, is_used}

-- A row of a session at a time.
pub record RowOk (now : ℕ) (r : SessionRow) : Type 0 where
  pub answered : Answered now r.state
  pub named : r.state.id ≡ r.id
  pub until : r.deleted_at ≡ none → r.active_until ≡ active_until r.state

pub record Inv (m : World) : Type 0 where
  pub rows : All (RowOk m.clock) m.db.sessions
  pub distinct : distinct_rows m.db.sessions ≡ true
  pub drawn : All (λ r. is_used r.id m.used ≡ true) m.db.sessions
  pub bounded : (u k : ℕ) → count_active u k m.clock m.db.sessions ≤ 5

pub All-map {ℓ κ μ} :
    {A : Type ℓ} (P : A → Type κ) (Q : A → Type μ) (xs : List A)
    → ((x : A) → P x → Q x)
    → All P xs
    → All Q xs
All-map P Q [] f h = tt
All-map P Q (x ∷ xs) f h = (f x h.0, All-map P Q xs f h.1)

pub later-RowOk : (last now : ℕ) (r : SessionRow) → last ≤ now → RowOk last r → RowOk now r
later-RowOk last now r le ok_row = record {
  answered = later-Answered last now r.state le ok_row.answered;
  named = ok_row.named;
  until = ok_row.until;
}

-- A session that is active later is active now.
pub count_active-later :
    (u k last now : ℕ) (rs : List SessionRow)
    → last ≤ now
    → count_active u k now rs ≤ count_active u k last rs
count_active-later u k last now rs le =
    count_mono (is_active u k now) (is_active u k last) rs (λ r h. ground (arith, h, le))

pub row_of-All {κ} :
    (P : SessionRow → Type κ) (id : String) (rs : List SessionRow) (r : SessionRow)
    → row_of id rs ≡ some r
    → All P rs
    → P r
unfolding row_of
row_of-All P id [] r h a = cc
row_of-All P id (x ∷ rs) r h a = elim (Bool-cases (str_eq x.id id)) [
  | inl same ↦ let e : r ≡ x = ground (arith, same, h) in rw e a.0
  | inr other ↦ row_of-All P id rs r (ground (arith, other, h)) a.1
]

-- The state that an action leaves.
played-RowOk :
    (t : TextFns) (get : String → Outcome Snapshot) (action : String) (index : ℤ) (answer : String)
    (inc : Bool) (id : String) (u k last now : ℕ) (db after : StudyDb) (le : last ≤ now)
    (up : Updated id u k last (λ s. act t get s action index answer now inc) db after)
    → RowOk now up.row
    → RowOk now (set_state up.state (active_until up.state) up.row)
played-RowOk t get action index answer inc id u k last now db after le up r =
    let (c, read, on) =
      act-inv t get up.row.state up.state action index answer now inc up.view up.done in
    let moves = act_on-Moves t c up.row.state up.state action index answer now inc up.view on in
    let (found, live) = open_row-inv id u k last db.sessions up.row up.found in
    let named : up.state.id ≡ up.row.id = ap (λ z. z.id) moves.same ∙ r.named in
    record {
      answered =
          act_on-Answered t now c up.row.state up.state action index answer now inc up.view on
            (omega arith) r.answered;
      named = named;
      until = λ h. refl;
    }

-- The end of a running session is its deadline, which no action moves.
active_until-Moves :
    (s x : QuizSession) → Moves s x → is_submitted x ≡ false → active_until x ≡ active_until s
active_until-Moves s x moves running =
    let s_running : is_submitted s ≡ false = elim (Bool-cases (is_submitted s)) [
      | inr open_still ↦ open_still
      | inl done ↦ ground (arith, running, done, ap is_some (moves.final done).1)
    ] in
    ground (
      arith,
      running,
      s_running,
      ap (λ z. z.deadline) moves.same,
      ap (λ z. z.expires_at) moves.same,
      Option-cases x.submitted_at,
      Option-cases s.submitted_at,
    )

past-active :
    (now : ℕ) (x : QuizSession)
    → Answered now x
    → ltb now (active_until x) ≡ true
    → is_submitted x ≡ false
past-active now x a h = elim (Option-cases x.submitted_at) [
  | inl running ↦ ground (arith, running)
  | inr (at, done) ↦ ground (arith, done, h, a.past at done)
]

module _ (t : TextFns) (get : String → Outcome Snapshot) (action : String) (index : ℤ)
    (answer : String) (inc : Bool) (id : String) (u k now : ℕ) (m : World) (after : StudyDb)
    (le : m.clock ≤ now)
    (up : Updated id u k m.clock (λ s. act t get s action index answer now inc) m.db after) where
  -- A session that is active behind an action was active before it.
  played-active :
      (v j : ℕ)
      → RowOk now up.row
      → is_active v j now (set_state up.state (active_until up.state) up.row) ≡ true
      → is_active v j m.clock up.row ≡ true
  played-active v j r h =
      let (c, read, on) =
        act-inv t get up.row.state up.state action index answer now inc up.view up.done in
      let moves = act_on-Moves t c up.row.state up.state action index answer now inc up.view on in
      let played =
        played-RowOk t get action index answer inc id u k m.clock now m.db after le up r in
      let running = past-active now up.state played.answered (ground (arith, h)) in
      ground (
        arith,
        h,
        le,
        active_until-Moves up.row.state up.state moves running,
        r.until,
        Option-cases up.row.deleted_at,
      )

  played-Inv : Inv m → Inv (record m { db = after; clock = now })
  played-Inv i =
      let old : All (RowOk now) m.db.sessions =
        All-map (RowOk m.clock) (RowOk now) m.db.sessions (λ r. later-RowOk m.clock now r le)
          i.rows in
      let found = (open_row-inv id u k m.clock m.db.sessions up.row up.found).0 in
      let own = row_of-All (RowOk now) id m.db.sessions up.row found old in
      rw up.effect (record {
        rows =
            All-update_row id (set_state up.state (active_until up.state)) (λ r. refl) (RowOk now)
              m.db.sessions old
              (λ r e p.
                let one : r ≡ up.row = ground (arith, e, found) in
                rw one (
                  played-RowOk t get action index answer inc id u k m.clock now m.db after le up
                    own));
        distinct =
            update_row-distinct id (set_state up.state (active_until up.state)) (λ r. refl)
              m.db.sessions i.distinct;
        drawn =
            All-update_row id (set_state up.state (active_until up.state)) (λ r. refl)
              (λ r. is_used r.id m.used ≡ true) m.db.sessions i.drawn (λ r e p. p);
        bounded = λ v j.
            let fewer =
              count-update_row (is_active v j now) (is_active v j m.clock) id
                (set_state up.state (active_until up.state)) m.db.sessions
                (λ r h. ground (arith, h, le))
                (λ r e h.
                  let one : r ≡ up.row = ground (arith, e, found) in
                  ap (is_active v j m.clock) one
                  ∙ played-active v j own (
                      ap (λ z. is_active v j now (set_state up.state (active_until up.state) z))
                        (sym one)
                      ∙ h)) in
            omega (arith, fewer, i.bounded v j);
      })

-- Time goes on.
pub tick-Inv : (m : World) (now : ℕ) → m.clock ≤ now → Inv m → Inv (record m { clock = now })
tick-Inv m now le i = record {
  rows =
      All-map (RowOk m.clock) (RowOk now) m.db.sessions (λ r. later-RowOk m.clock now r le) i.rows;
  distinct = i.distinct;
  drawn = i.drawn;
  bounded =
      λ v j. omega (arith, count_active-later v j m.clock now m.db.sessions le, i.bounded v j);
}

module _ (t : TextFns) where
  pub play-Inv :
      (m : World) (fails : Bool) (get : String → Outcome Snapshot) (id : String) (u k : ℕ)
      (action : String) (index : ℤ) (answer : String) (at : ℕ) (inc : Bool)
      → m.clock ≤ at
      → Inv m
      → Inv (record m {
        db =
            (update_session fails m.clock id u k
              (λ s. act t get s action index answer at inc)
              m.db).0;
        clock = at;
      })
  play-Inv m fails get id u k action index answer at inc le i =
      let fn = λ (s : QuizSession). act t get s action index answer at inc in
      elim (update_session-cases fails m.clock id u k fn m.db) [
        | inl kept ↦ rw kept (tick-Inv m at le i)
        | inr up ↦
            played-Inv t get action index answer inc id u k at m
              (update_session fails m.clock id u k fn m.db).0 le up i
      ]

-- ===== src/Study/Runs/Finality.antt =====
-- What no request changes of a session of a quiz any more.
use hquizlet_platform.Prelude.{
  ℕ, ◌≡◌, true, String, none, some, arith, ltb, or_intro_right, inl, inr,
}
use hquizlet_platform.Study.Model.{answer_at, TextFns}
use hquizlet_platform.Study.Items.{Decoder}
use hquizlet_platform.Study.View.{is_submitted}
use hquizlet_platform.Study.Play.{act}
use hquizlet_platform.Study.Play.Moves.{Moves-trans}
use hquizlet_platform.Study.Store.{SessionRow, row_of}
use hquizlet_platform.Study.Store.Rows.{row_of-drop_none}
use hquizlet_platform.Study.Runs.{
  World, init, is_used, Step, put, create, play, remove, sweep, save, purge, erase, tick, Reach,
  here, next,
}
use hquizlet_platform.Study.Runs.Played.{Inv}
use hquizlet_platform.Study.Runs.Created.{plan_start-fresh}
use hquizlet_platform.Study.Runs.Invariant.{Reach-Inv, init-Inv}
use hquizlet_platform.Study.Runs.Fates.{
  Fate, kept-Fate, create-Fate, create-gone, play-Fate, remove-Fate, play-gone, remove-gone,
  drop-Fate, erase-Fate, erase-gone, row_drawn, drawn_before,
}

module _ (t : TextFns) (json : Decoder) where
  Step-used :
      (id : String) {m n : World}
      → Step t json m n
      → is_used id m.used ≡ true
      → is_used id n.used ≡ true
  Step-used id (create m fails hash x u k inp questions bytes planned snap s v h fresh) e =
      or_intro_right _ _ e
  Step-used id (put m snap) e = e
  Step-used id (play m fails get x u k action index answer at inc le) e = e
  Step-used id (remove m fails x u) e = e
  Step-used id (sweep m before) e = e
  Step-used id (save m fails owned learner cards u k inp) e = e
  Step-used id (purge m) e = e
  Step-used id (erase m fails visible k) e = e
  Step-used id (tick m at le) e = e

  Step-gone :
      (id : String) {m n : World}
      → Step t json m n
      → is_used id m.used ≡ true
      → row_of id m.db.sessions ≡ none
      → row_of id n.db.sessions ≡ none
  Step-gone id (create m fails hash x u k inp questions bytes planned snap s v h fresh) e g =
      let same = (plan_start-fresh t json hash x u k inp questions bytes planned snap s v h).0 in
      create-gone fails m.clock s m.db id (drawn_before id s.id m.used e (rw same fresh)) g
  Step-gone id (put m snap) e g = g
  Step-gone id (play m fails get x u k action index answer at inc le) e g =
      play-gone fails m.clock x u k (λ s. act t get s action index answer at inc) m.db id g
  Step-gone id (remove m fails x u) e g = remove-gone fails m.clock x u m.db id g
  Step-gone id (sweep m before) e g = g
  Step-gone id (save m fails owned learner cards u k inp) e g = g
  Step-gone id (purge m) e g = row_of-drop_none (λ r. ltb r.expires_at m.clock) id m.db.sessions g
  Step-gone id (erase m fails visible k) e g = erase-gone fails visible k m.db id g
  Step-gone id (tick m at le) e g = g

  Step-Fate :
      (id : String) {m n : World} (r : SessionRow)
      → Step t json m n
      → Inv m
      → row_of id m.db.sessions ≡ some r
      → Fate id r.state n.db.sessions
  Step-Fate id r (create m fails hash x u k inp questions bytes planned snap s v h fresh) i g =
      let same = (plan_start-fresh t json hash x u k inp questions bytes planned snap s v h).0 in
      let drawn = row_drawn id r m i g in
      create-Fate fails m.clock s m id r i (drawn_before id s.id m.used drawn (rw same fresh)) g
  Step-Fate id r (put m snap) i g = kept-Fate id m.db.sessions r g
  Step-Fate id r (play m fails get x u k action index answer at inc le) i g =
      play-Fate t fails get x u k action index answer m.clock at inc m.db id r g
  Step-Fate id r (remove m fails x u) i g = remove-Fate fails m.clock x u m.db id r g
  Step-Fate id r (sweep m before) i g = kept-Fate id m.db.sessions r g
  Step-Fate id r (save m fails owned learner cards u k inp) i g = kept-Fate id m.db.sessions r g
  Step-Fate id r (purge m) i g = drop-Fate (λ x. ltb x.expires_at m.clock) m id r i g
  Step-Fate id r (erase m fails visible k) i g = erase-Fate fails visible k m id r i g
  Step-Fate id r (tick m at le) i g = kept-Fate id m.db.sessions r g

  Reach-used :
      (id : String) {m n : World}
      → Reach t json m n
      → is_used id m.used ≡ true
      → is_used id n.used ≡ true
  Reach-used id here e = e
  Reach-used id (next r s) e = Step-used id s (Reach-used id r e)

  Reach-Fate :
      (id : String) {m n : World} (r : SessionRow)
      → Reach t json m n
      → Inv m
      → row_of id m.db.sessions ≡ some r
      → Fate id r.state n.db.sessions
  Reach-Fate id {m = m} r here i g = kept-Fate id m.db.sessions r g
  Reach-Fate id {m = m} r (next q s) i g = elim (Reach-Fate id r q i g) [
    | inl gone ↦ inl (Step-gone id s (Reach-used id q (row_drawn id r m i g)) gone)
    | inr (x, found, moves) ↦ elim (Step-Fate id x s (Reach-Inv t json q i) found) [
      | inl gone ↦ inl gone
      | inr (y, later, more) ↦ inr (y, later, Moves-trans r.state x.state y.state moves more)
    ]
  ]

  -- Whatever requests the service handles after a session of a quiz is submitted, and however they
  -- interleave and fail, the session keeps its answers and the time of its submission as long as it is
  -- stored; and a session that marks answers at once keeps every answer that was given.
  pub submitted_quiz_is_final :
      (m n : World) (id : String) (r x : SessionRow)
      → Reach t json init m
      → Reach t json m n
      → row_of id m.db.sessions ≡ some r
      → row_of id n.db.sessions ≡ some x
      → (is_submitted r.state ≡ true
          → (x.state.answers ≡ r.state.answers) × (x.state.submitted_at ≡ r.state.submitted_at))
        × ((i : ℕ) (a : String)
            → r.state.instant ≡ true
            → answer_at i r.state.answers ≡ some a
            → answer_at i x.state.answers ≡ some a)
  submitted_quiz_is_final m n id r x before later g h =
      elim (Reach-Fate id r later (Reach-Inv t json before (init-Inv t json)) g) [
        | inl gone ↦ absurd (ground (arith, gone, h))
        | inr (y, found, moves) ↦
            let one : x ≡ y = ground (arith, found, h) in rw one (moves.final, moves.marked)
      ]

-- ===== src/Study/Runs/Invariant.antt =====
-- What holds of the study service after any requests, however they interleave and fail.
use hquizlet_platform.Prelude.{
  ℕ, ◌≤◌, ◌≡◌, refl, Bool, true, false, String, some, all, arith, ltb, ◌==◌,
}
use hquizlet_platform.Study.Model.{TextFns}
use hquizlet_platform.Study.Items.{Decoder}
use hquizlet_platform.Study.Play.Sound.{may_stand}
use hquizlet_platform.Study.Progress.{Learning, save_progress}
use hquizlet_platform.Study.Store.{
  max_sessions_per_quiz, SessionRow, row_of, count_active, drop_learning, delete_set,
}
use hquizlet_platform.Study.Runs.Played.{RowOk, Inv, tick-Inv, row_of-All, play-Inv}
use hquizlet_platform.Study.Runs.{
  World, init, Step, put, create, play, remove, sweep, save, purge, erase, tick, Reach, here, next,
}
use hquizlet_platform.Study.Runs.Created.{plan_start-fresh, create-Inv, remove-Inv, drop-Inv}

-- The tables change in other places than the sessions.
learning-Inv :
    (m : World) (l : Learning) → Inv m → Inv (record m { db = record m.db { learning = l } })
learning-Inv m l i = record {
  rows = i.rows;
  distinct = i.distinct;
  drawn = i.drawn;
  bounded = i.bounded;
}

erase-Inv :
    (m : World) (fails visible : Bool) (k : ℕ)
    → Inv m
    → Inv (record m { db = (delete_set fails visible k m.db).0 })
unfolding delete_set
erase-Inv m true visible k i = i
erase-Inv m false false k i = i
erase-Inv m false true k i =
    let j =
      drop-Inv m (λ r. r.study_set_id == k)
        (record m.db.learning { rows = drop_learning k m.db.learning.rows }) i in
    record { rows = j.rows; distinct = j.distinct; drawn = j.drawn; bounded = j.bounded }

module _ (t : TextFns) (json : Decoder) where
  pub Step-Inv : {m n : World} → Step t json m n → Inv m → Inv n
  Step-Inv (put m snap) i = record {
    rows = i.rows;
    distinct = i.distinct;
    drawn = i.drawn;
    bounded = i.bounded;
  }
  Step-Inv (create m fails hash id u k inp questions bytes planned snap s v h fresh) i =
      let (same, blank, running) =
        plan_start-fresh t json hash id u k inp questions bytes planned snap s v h in
      rw (← same) (create-Inv m fails s (rw same fresh) blank running i)
  Step-Inv (play m fails get id u k action index answer at inc le) i =
      play-Inv t m fails get id u k action index answer at inc le i
  Step-Inv (remove m fails id u) i = remove-Inv m fails id u i
  Step-Inv (sweep m before) i = record {
    rows = i.rows;
    distinct = i.distinct;
    drawn = i.drawn;
    bounded = i.bounded;
  }
  Step-Inv (save m fails owned learner cards u k inp) i =
      learning-Inv m (save_progress fails m.db.learning owned learner cards u k inp).0 i
  Step-Inv (purge m) i = drop-Inv m (λ r. ltb r.expires_at m.clock) m.db.learning i
  Step-Inv (erase m fails visible k) i = erase-Inv m fails visible k i
  Step-Inv (tick m at le) i = tick-Inv m at le i

  pub init-Inv : Inv init
  init-Inv = record { rows = tt; distinct = refl; drawn = tt; bounded = λ v j. omega arith }

  pub Reach-Inv : {m n : World} → Reach t json m n → Inv m → Inv n
  Reach-Inv here i = i
  Reach-Inv (next r s) i = Step-Inv s (Reach-Inv r i)

  -- Whatever requests the service has handled, a user has at most five active sessions of a quiz.
  pub active_sessions_bounded :
      (m : World) (u k : ℕ)
      → Reach t json init m
      → count_active u k m.clock m.db.sessions ≤ max_sessions_per_quiz
  active_sessions_bounded m u k r = (Reach-Inv r init-Inv).bounded u k

  -- Whatever requests the service has handled, every answer of a session is to a question that was
  -- served to its learner and has at most 8000 bytes, and a session with a deadline was not submitted
  -- behind it.
  pub answers_were_served :
      (m : World) (id : String) (r : SessionRow)
      → Reach t json init m
      → row_of id m.db.sessions ≡ some r
      → (all (may_stand r.state.seen) r.state.answers ≡ true)
        × ((a d : ℕ) → r.state.submitted_at ≡ some a → r.state.deadline ≡ some d → a ≤ d)
  answers_were_served m id r w h =
      let good = row_of-All (RowOk m.clock) id m.db.sessions r h (Reach-Inv w init-Inv).rows in
      (good.answered.served, good.answered.on_time)

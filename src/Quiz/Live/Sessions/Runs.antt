-- ===== src/Quiz/Live/Sessions/Runs.antt =====
-- A live session in every run: commands of the host that read it at one time and act at another.
use mathlib.Core.List.{Memᴰ}
use hquizlet_platform.Prelude.{◌≤◌, ◌≡◌, ◌⊎◌, inl, inr, refl, ap, ◌∙◌, true, false, [], ◌∷◌, arith}
use hquizlet_platform.Quiz.Live.Sessions.{
  lobby, ended, Session, Room, Step, read, start, close, next, end, Reach, here, after, is_ended,
}
use hquizlet_platform.Quiz.Live.Sessions.Commands.{
  is_placed, Moves, Acts, start-Acts, close-Acts, next-Acts, end-Acts,
}

-- The room of a new session.
abbrev pub opened : Session → Room
opened s = record { row = s; reads = [] }

-- What was read is older than the row, or is the row.
abbrev IsKnown : Session → Session → Type 0
IsKnown row s =
    (s.state_version ≤ row.state_version) × (s.state_version ≡ row.state_version → s ≡ row)

record Inv (m : Room) : Type 0 where
  known : (s : Session) → Memᴰ s m.reads → IsKnown m.row s
  placed : is_placed m.row ≡ true

opened-Inv : (s : Session) → s.status ≡ lobby → Inv (opened s)
opened-Inv s h = record { known = λ r m. elim m [ ]; placed = ground arith }

acts : (s row x : Session) → IsKnown row s → Acts s row x → (x ≡ row) ⊎ Moves row x
acts s row x k (inl e) = inl e
acts s row x k (inr (same, moves)) = inr (moves (k.1 same))

Step-Moves : {m n : Room} → Inv m → Step m n → (n.row ≡ m.row) ⊎ Moves m.row n.row
Step-Moves i (read m) = inl refl
Step-Moves i (start m s host h) = acts s m.row _ (i.known s h) (start-Acts s m.row host)
Step-Moves i (close m s host h) = acts s m.row _ (i.known s h) (close-Acts s m.row host)
Step-Moves i (next m s host h) = acts s m.row _ (i.known s h) (next-Acts s m.row host)
Step-Moves i (end m s host h) = acts s m.row _ (i.known s h) (end-Acts s m.row host)

moved-Inv :
    (m : Room) (x : Session) → Inv m → (x ≡ m.row) ⊎ Moves m.row x → Inv (record m { row = x })
moved-Inv m x i (inl e) = rw e i
moved-Inv m x i (inr v) = record {
  known = λ s h. (
    omega (arith, (i.known s h).0, v.version),
    λ e. absurd (omega (arith, (i.known s h).0, v.version, e)),
  );
  placed = v.placed;
}

read-Inv : (m : Room) → Inv m → Inv (record m { reads = m.row ∷ m.reads })
read-Inv m i = record {
  known = λ s h. elim h [
    | Memᴰ.head e ↦ (omega (arith, ap (λ x. x.state_version) e), λ _. e)
    | Memᴰ.tail old ↦ i.known s old
  ];
  placed = i.placed;
}

Step-Inv : {m n : Room} → Step m n → Inv m → Inv n
Step-Inv (read m) i = read-Inv m i
Step-Inv (start m s host h) i = moved-Inv m _ i (Step-Moves i (start m s host h))
Step-Inv (close m s host h) i = moved-Inv m _ i (Step-Moves i (close m s host h))
Step-Inv (next m s host h) i = moved-Inv m _ i (Step-Moves i (next m s host h))
Step-Inv (end m s host h) i = moved-Inv m _ i (Step-Moves i (end m s host h))

Reach-Inv : {m n : Room} → Reach m n → Inv m → Inv n
Reach-Inv here i = i
Reach-Inv (after r s) i = Step-Inv s (Reach-Inv r i)

snapshot_kept :
    (row x : Session) → (x ≡ row) ⊎ Moves row x → x.question_snapshot ≡ row.question_snapshot
snapshot_kept row x (inl e) = ap (λ y. y.question_snapshot) e
snapshot_kept row x (inr v) = v.snapshot

Reach-snapshot :
    (s : Session) {m : Room}
    → s.status ≡ lobby
    → Reach (opened s) m
    → m.row.question_snapshot ≡ s.question_snapshot
Reach-snapshot s h here = refl
Reach-snapshot s h (after r step) =
    snapshot_kept _ _ (Step-Moves (Reach-Inv r (opened-Inv s h)) step) ∙ Reach-snapshot s h r

-- In every run of a session from its lobby, each step of a command either leaves the session as it is
-- or takes it by one transition of the state machine from the status that it has at that moment, with
-- the next version, also where the command acts on a copy that it read long before.
pub steps_are_transitions :
    (s : Session) (m n : Room)
    → s.status ≡ lobby
    → Reach (opened s) m
    → Step m n
    → (n.row ≡ m.row) ⊎ Moves m.row n.row
steps_are_transitions s m n h r step = Step-Moves (Reach-Inv r (opened-Inv s h)) step

-- In every run of a session from its lobby, an open question is one of the questions that the session
-- was made with.
pub open_question_exists :
    (s : Session) (m : Room)
    → s.status ≡ lobby
    → Reach (opened s) m
    → (is_placed m.row ≡ true) × (m.row.question_snapshot ≡ s.question_snapshot)
open_question_exists s m h r = ((Reach-Inv r (opened-Inv s h)).placed, Reach-snapshot s h r)

not_running : (x : Session) → is_ended x.status ≡ false → x.status ≡ ended → ⊥
not_running x h e = ground arith

-- In every run of a session from its lobby, a session that has ended does not change any more.
pub ended_session_is_final :
    (s : Session) (m n : Room)
    → s.status ≡ lobby
    → Reach (opened s) m
    → m.row.status ≡ ended
    → Reach m n
    → n.row ≡ m.row
ended_session_is_final s m n h r e here = refl
ended_session_is_final s m n h r e (after {n = k} q step) =
    let same = ended_session_is_final s m k h r e q in
    elim (Step-Moves (Reach-Inv q (Reach-Inv r (opened-Inv s h))) step) [
      | inl kept ↦ kept ∙ same
      | inr v ↦ absurd (not_running k.row v.running (ap (λ x. x.status) same ∙ e))
    ]

-- ===== src/Quiz/Live/Sessions.antt =====
-- The state machine of services/quiz/internal/live/model/model.go, the row of live_sessions, and the
-- host's commands of live/service/service.go. A command reads the session, and then updates it with a
-- compare-and-swap on its version; in between, other commands may have run.
pub mod Commands
pub mod Runs
use mathlib.Core.List.{Memᴰ}
use hquizlet_platform.Prelude.{
  ℕ, ◌+◌, Bool, true, false, not, ◌&&◌, ◌||◌, String, List, [], ◌∷◌, Option, none, some, length,
  leb, ◌==◌, if◌then◌else◌,
}
use hquizlet_platform.Prelude.Int.{ℤ, eq_ℤ}

pub data Status : Type 0 where
  lobby question_open question_closed leaderboard ended : Status

pub data Command : Type 0 where
  start_command close_command next_command leaderboard_command end_command : Command

-- StateTransition
unfoldable pub state_transition : Status → Command → Option Status
state_transition lobby start_command = some question_open
state_transition question_open close_command = some question_closed
state_transition question_closed close_command = some question_closed
state_transition leaderboard close_command = some leaderboard
state_transition question_closed next_command = some question_open
state_transition leaderboard next_command = some question_open
state_transition question_closed leaderboard_command = some leaderboard
state_transition _ end_command = some ended
state_transition _ _ = none

pub record Question : Type 0 where
  pub index : ℕ
  pub flashcard_id : ℤ
  pub term : String
  pub definition : String
  pub choices : List String
  pub correct_index : ℕ

pub record Session : Type 0 where
  pub host_user_id : ℤ
  pub status : Status
  pub question_duration_ms : ℤ
  pub current_question_idx : Option ℕ
  pub state_version : ℕ
  pub question_snapshot : List Question

pub data LiveError : Type 0 where
  forbidden invalid_state validation no_more_questions : LiveError

pub data Reply : Type 0 where
  ok : Session → Reply
  err : LiveError → Reply

abbrev pub is_ended : Status → Bool
is_ended ended = true
is_ended _ = false

abbrev pub is_closed : Status → Bool
is_closed question_closed = true
is_closed leaderboard = true
is_closed _ = false

-- UpdateSessionCAS: the row, and the answer.
unfoldable pub update_session_cas : Session → ℕ → Status → Option ℕ → Session × Reply
update_session_cas row expected status idx =
    let updated = record row {
      status = status;
      current_question_idx = idx;
      state_version = row.state_version + 1;
    } in
    if row.state_version == expected && not (is_ended row.status)
    then (updated, ok updated)
    else (row, err invalid_state)

-- The state machine, and then the compare-and-swap on the version that was read.
unfoldable pub advance : Session → Session → Command → Option ℕ → Session × Reply
unfolding update_session_cas state_transition
advance read row command idx = elim (state_transition read.status command) [
  | none ↦ (row, err invalid_state)
  | some status ↦ update_session_cas row read.state_version status idx
]

abbrev pub is_empty : List Question → Bool
is_empty [] = true
is_empty (_ ∷ _) = false

abbrev pub is_host : Session → ℤ → Bool
is_host s user = eq_ℤ s.host_user_id user

-- StartSession, for the session that it has read.
unfoldable pub start_session : Session → ℤ → Session → Session × Reply
unfolding advance
start_session read host row =
    if not (is_host read host)
    then (row, err forbidden)
    else if is_empty read.question_snapshot
    then (row, err validation)
    else advance read row start_command (some 0)

-- CloseQuestion; that a question is closed already is no error.
unfoldable pub close_question : Session → ℤ → Session → Session × Reply
unfolding advance
close_question read host row =
    if not (is_host read host)
    then (row, err forbidden)
    else if is_closed read.status
    then (row, ok read)
    else advance read row close_command read.current_question_idx

-- The index that NextQuestion opens.
abbrev pub next_idx : Option ℕ → ℕ
next_idx none = 0
next_idx (some i) = i + 1

-- NextQuestion; the state machine is asked before the index is tested.
unfoldable pub next_question : Session → ℤ → Session → Session × Reply
unfolding update_session_cas state_transition
next_question read host row =
    if not (is_host read host)
    then (row, err forbidden)
    else elim (state_transition read.status next_command) [
      | none ↦ (row, err invalid_state)
      | some status ↦
          if leb (length read.question_snapshot) (next_idx read.current_question_idx)
          then (row, err no_more_questions)
          else update_session_cas row read.state_version status
              (some (next_idx read.current_question_idx))
    ]

-- EndSession
unfoldable pub end_session : Session → ℤ → Session → Session × Reply
unfolding advance
end_session read host row =
    if not (is_host read host)
    then (row, err forbidden)
    else if is_ended read.status
    then (row, ok read)
    else advance read row end_command read.current_question_idx

-- A session and the copies of it that commands have read and not yet acted on.
pub record Room : Type 0 where
  pub row : Session
  pub reads : List Session

pub data Step : Room → Room → Type 0 where
  read : (m : Room) → Step m (record m { reads = m.row ∷ m.reads })
  start :
      (m : Room) (s : Session) (host : ℤ)
      → Memᴰ s m.reads
      → Step m (record m { row = (start_session s host m.row).0 })
  close :
      (m : Room) (s : Session) (host : ℤ)
      → Memᴰ s m.reads
      → Step m (record m { row = (close_question s host m.row).0 })
  next :
      (m : Room) (s : Session) (host : ℤ)
      → Memᴰ s m.reads
      → Step m (record m { row = (next_question s host m.row).0 })
  end :
      (m : Room) (s : Session) (host : ℤ)
      → Memᴰ s m.reads
      → Step m (record m { row = (end_session s host m.row).0 })

pub data Reach (m : Room) : Room → Type 0 where
  here : Reach m m
  after : {n o : Room} → Reach m n → Step n o → Reach m o

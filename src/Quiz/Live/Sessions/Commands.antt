-- ===== src/Quiz/Live/Sessions/Commands.antt =====
-- What the host's commands do to a live session, however they interleave.
use hquizlet_platform.Prelude.{
  ℕ, ◌+◌, ◌<◌, ◌≡◌, ◌⊎◌, inl, inr, refl, sym, ap, ◌∙◌, Bool, true, false, not, ◌&&◌, List, [], ◌∷◌,
  Option, none, some, length, ltb, leb, ◌==◌, arith, Option-cases, Bool-cases,
}
use hquizlet_platform.Prelude.Int.{ℤ}
use hquizlet_platform.Quiz.Live.Sessions.{
  Status, lobby, question_open, question_closed, leaderboard, ended, Command, start_command,
  close_command, next_command, end_command, state_transition, Session, Question, is_empty,
  is_closed, is_host, is_ended, update_session_cas, advance, start_session, close_question,
  next_question, end_session, next_idx,
}

abbrev is_open : Status → Bool
is_open question_open = true
is_open _ = false

-- An open question is one of the session's questions.
abbrev pub is_placed : Session → Bool
is_placed s = elim s.status [
  | question_open ↦ elim s.current_question_idx [
    | none ↦ false
    | some i ↦ ltb i (length s.question_snapshot)
  ]
  | _ ↦ true
]

-- The row `after_it` comes from `row` by a transition of the state machine.
pub record Moves (row after_it : Session) : Type 0 where
  pub command : Command
  pub legal : state_transition row.status command ≡ some after_it.status
  pub version : after_it.state_version ≡ row.state_version + 1
  pub snapshot : after_it.question_snapshot ≡ row.question_snapshot
  pub placed : is_placed after_it ≡ true
  pub running : is_ended row.status ≡ false

-- A command that changes the row has read the row's version.
abbrev pub Acts : Session → Session → Session → Type 0
Acts s row x = (x ≡ row) ⊎ ((s.state_version ≡ row.state_version) × (s ≡ row → Moves row x))

abbrev put : Session → Status → Option ℕ → Session
put s status idx = record s { status = status; current_question_idx = idx }

placed_some :
    (s : Session) (status : Status) (i : ℕ)
    → i < length s.question_snapshot
    → is_placed (put s status (some i)) ≡ true
placed_some s lobby i h = refl
placed_some s question_open i h = ground arith
placed_some s question_closed i h = refl
placed_some s leaderboard i h = refl
placed_some s ended i h = refl

not_empty : (qs : List Question) → is_empty qs ≡ false → 0 < length qs
not_empty [] h = cc
not_empty (q ∷ qs) h = omega arith

closing :
    (before status : Status)
    → state_transition before close_command ≡ some status
    → is_open status ≡ false
unfolding state_transition
closing before status h = ground arith

ending :
    (before status : Status)
    → state_transition before end_command ≡ some status
    → is_open status ≡ false
unfolding state_transition
ending before status h = ground arith

placed_not_open :
    (s : Session) (status : Status) (idx : Option ℕ)
    → is_open status ≡ false
    → is_placed (put s status idx) ≡ true
placed_not_open s status idx h = ground arith

module _ (s row : Session) where
  cas-Acts :
      (c : Command) (status : Status) (idx : Option ℕ)
      → state_transition s.status c ≡ some status
      → is_placed (put s status idx) ≡ true
      → Acts s row (update_session_cas row s.state_version status idx).0
  unfolding update_session_cas
  cas-Acts c status idx h p =
      elim (Bool-cases (row.state_version == s.state_version && not (is_ended row.status))) [
        | inr refused ↦ rw (update_session_cas, refused) (inl refl)
        | inl accepted ↦
            rw (update_session_cas, accepted)
              (inr (
                ground arith,
                λ e. record {
                  command = c;
                  legal = ap (λ x. state_transition x.status c) (sym e) ∙ h;
                  version = refl;
                  snapshot = refl;
                  placed = ap (λ x. is_placed (put x status idx)) (sym e) ∙ p;
                  running = ground arith;
                },
              ))
      ]

  advance-Acts :
      (c : Command) (idx : Option ℕ)
      → ((status : Status)
          → state_transition s.status c ≡ some status
          → is_placed (put s status idx) ≡ true)
      → Acts s row (advance s row c idx).0
  unfolding advance
  advance-Acts c idx placed = elim (Option-cases (state_transition s.status c)) [
    | inl illegal ↦ rw (advance, illegal) (inl refl)
    | inr (status, legal) ↦ rw (advance, legal) (cas-Acts c status idx legal (placed status legal))
  ]

  pub start-Acts : (host : ℤ) → Acts s row (start_session s host row).0
  unfolding start_session
  start-Acts host = elim (Bool-cases (is_host s host)) [
    | inr other ↦ rw (start_session, other) (inl refl)
    | inl leads ↦ elim (Bool-cases (is_empty s.question_snapshot)) [
      | inl none_there ↦ rw (start_session, leads, none_there) (inl refl)
      | inr some_there ↦
          rw (start_session, leads, some_there)
            (advance-Acts start_command (some 0)
              λ status legal. placed_some s status 0 (not_empty s.question_snapshot some_there))
    ]
  ]

  pub close-Acts : (host : ℤ) → Acts s row (close_question s host row).0
  unfolding close_question
  close-Acts host = elim (Bool-cases (is_host s host)) [
    | inr other ↦ rw (close_question, other) (inl refl)
    | inl leads ↦ elim (Bool-cases (is_closed s.status)) [
      | inl before ↦ rw (close_question, leads, before) (inl refl)
      | inr not_yet ↦
          rw (close_question, leads, not_yet)
            (advance-Acts close_command s.current_question_idx λ status legal.
              placed_not_open s status s.current_question_idx (closing s.status status legal))
    ]
  ]

  pub next-Acts : (host : ℤ) → Acts s row (next_question s host row).0
  unfolding next_question
  next-Acts host =
      let n = next_idx s.current_question_idx in
      elim (Bool-cases (is_host s host)) [
        | inr other ↦ rw (next_question, other) (inl refl)
        | inl leads ↦ elim (Option-cases (state_transition s.status next_command)) [
          | inl illegal ↦ rw (next_question, leads, illegal) (inl refl)
          | inr (status, legal) ↦ elim (Bool-cases (leb (length s.question_snapshot) n)) [
            | inl over ↦ rw (next_question, leads, legal, over) (inl refl)
            | inr more ↦
                rw (next_question, leads, legal, more)
                  (cas-Acts next_command status (some n) legal
                    (placed_some s status n (ground arith)))
          ]
        ]
      ]

  pub end-Acts : (host : ℤ) → Acts s row (end_session s host row).0
  unfolding end_session
  end-Acts host = elim (Bool-cases (is_host s host)) [
    | inr other ↦ rw (end_session, other) (inl refl)
    | inl leads ↦ elim (Bool-cases (is_ended s.status)) [
      | inl before ↦ rw (end_session, leads, before) (inl refl)
      | inr running ↦
          rw (end_session, leads, running)
            (advance-Acts end_command s.current_question_idx λ status legal.
              placed_not_open s status s.current_question_idx (ending s.status status legal))
    ]
  ]

-- ===== src/Quiz/Live/Answers.antt =====
-- SubmitAnswer of services/quiz/internal/live/service/service.go and FinalizeScores of
-- live/repository/repository.go, on the participants and the answers of one session, the newest
-- answer first. Times are nanoseconds. The player is the one that the request's token belongs to.
-- FinalizeScores does not lock the answers: those that it sums may be older than its update.
pub mod Totals
pub mod Retry
use hquizlet_platform.Prelude.{
  ℕ, ◌≡◌, ◌+◌, ◌-◌, ◌/◌, Bool, true, false, not, ◌&&◌, ◌||◌, String, List, [], ◌∷◌, Option, none,
  some, length, ◌++◌, get_elem?, ltb, ◌==◌, str_eq, if◌then◌else◌,
}
use hquizlet_platform.Prelude.Int.{ℤ, pos, pos_part, neg_part, sub_ℕ, eq_ℤ, ltb_ℤ, ◌+ℤ◌}
use hquizlet_platform.Quiz.Live.Scores.{score_answer}
use hquizlet_platform.Quiz.Live.Sessions.{Status, question_open, Session, Question}

pub record Participant : Type 0 where
  pub id : ℕ
  pub total_score : ℕ
  pub correct_count : ℕ
  pub total_response_time_ms : ℤ

pub record AnswerRow : Type 0 where
  pub participant_id : ℕ
  pub question_index : ℕ
  pub flashcard_id : ℤ
  pub submitted_answer : ℤ
  pub is_correct : Bool
  pub score_awarded : ℕ
  pub response_time_ms : ℤ
  pub idempotency_key : String

pub record Store : Type 0 where
  pub participants : List Participant
  pub answers : List AnswerRow

pub data SubmitError : Type 0 where
  forbidden validation conflict invalid_state state_unavailable too_late : SubmitError
  already_answered internal : SubmitError

-- `repeated` is the stored answer of an earlier request with the same key.
pub data Submitted : Type 0 where
  accepted repeated : AnswerRow → Submitted
  refused : SubmitError → Submitted

pub data Judged : Type 0 where
  ok : AnswerRow → Judged
  err : SubmitError → Judged

-- GetAnswerByIdempotencyKey
abbrev pub answer_by_key : ℕ → String → List AnswerRow → Option AnswerRow
answer_by_key p key [] = none
answer_by_key p key (a ∷ answers) =
    if (a.participant_id == p) && str_eq a.idempotency_key key
    then some a
    else answer_by_key p key answers

-- UNIQUE (live_session_id, participant_id, question_index)
abbrev pub has_answered : ℕ → ℕ → List AnswerRow → Bool
has_answered p q [] = false
has_answered p q (a ∷ answers) =
    ((a.participant_id == p) && (a.question_index == q)) || has_answered p q answers

-- Whether the INSERT meets a unique constraint: the one above, or the one on a player and a key.
abbrev pub is_taken : AnswerRow → List AnswerRow → Bool
is_taken a answers =
    has_answered a.participant_id a.question_index answers
    || elim (answer_by_key a.participant_id a.idempotency_key answers) [
      | none ↦ false
      | some b ↦ true
    ]

-- What becomes of the transaction: it does not begin, the INSERT fails for a reason of its own, the
-- UPDATE or the commit fails, the answer to the commit is lost, or nothing fails.
pub data Write : Type 0 where
  no_begin no_insert no_commit commit_lost written : Write

abbrev begins : Write → Bool
begins no_begin = false
begins _ = true

abbrev inserts : Write → Bool
inserts no_insert = false
inserts _ = true

abbrev commits : Write → Bool
commits no_commit = false
commits _ = true

abbrev replies : Write → Bool
replies commit_lost = false
replies _ = true

abbrev is_open : Status → Bool
is_open question_open = true
is_open _ = false

-- The checks and the marking between the read of the session and the transaction. `closes` is what
-- Redis knows of the deadline, `now` and `later` the two readings of the clock.
unfoldable pub judge : Session → Option ℕ → ℕ → ℕ → ℕ → ℤ → ℤ → String → Judged
judge s closes now later player question selected key = elim s.current_question_idx [
  | none ↦ err invalid_state
  | some i ↦
      if not (is_open s.status) || not (eq_ℤ (pos i) question)
      then err invalid_state
      else elim closes [
        | none ↦ err state_unavailable
        | some deadline ↦
            if ltb deadline now then err too_late else elim (get_elem? s.question_snapshot i) [
              | none ↦ err validation
              | some q ↦
                  let remaining = (deadline - later) / 1000000 in
                  let right = eq_ℤ selected (pos q.correct_index) in
                  let d = s.question_duration_ms in
                  if ltb_ℤ selected (pos 0) || not (ltb_ℤ selected (pos (length q.choices)))
                  then err validation
                  else ok (record {
                    participant_id = player;
                    question_index = i;
                    flashcard_id = q.flashcard_id;
                    submitted_answer = selected;
                    is_correct = right;
                    score_awarded = score_answer right (pos remaining) d;
                    response_time_ms = sub_ℕ (pos_part d) (neg_part d + remaining);
                    idempotency_key = key;
                  })
            ]
      ]
]

-- The UPDATE of live_session_participants.
abbrev pub add_totals : AnswerRow → List Participant → List Participant
add_totals a [] = []
add_totals a (p ∷ ps) =
    (if p.id == a.participant_id
      then record p {
        total_score = p.total_score + a.score_awarded;
        correct_count = p.correct_count + (if a.is_correct then 1 else 0);
        total_response_time_ms = p.total_response_time_ms +ℤ a.response_time_ms;
      }
      else p)
    ∷ add_totals a ps

-- The text of a JSON answer, and the text in which the database gives a stored answer back.
module _ (json_text stored_text : ℤ → String) where
  abbrev pub same_request : AnswerRow → ℤ → ℤ → Bool
  same_request a question selected =
      eq_ℤ (pos a.question_index) question
      && str_eq (stored_text a.submitted_answer) (json_text selected)

  abbrev pub retry_reply : AnswerRow → ℤ → ℤ → Submitted
  retry_reply a question selected =
      if same_request a question selected then repeated a else refused conflict

  -- The answer to an INSERT that failed; `lost` where the lookup by the key fails too.
  abbrev pub refused_insert : Bool → AnswerRow → List AnswerRow → Submitted
  refused_insert lost a answers =
      if lost
      then refused already_answered
      else elim (answer_by_key a.participant_id a.idempotency_key answers) [
        | some existing ↦ retry_reply existing (pos a.question_index) a.submitted_answer
        | none ↦ refused already_answered
      ]

  -- The transaction, and the lookup behind an INSERT that fails.
  unfoldable pub record_answer : Store → AnswerRow → Bool → Write → Store × Submitted
  record_answer store a lost write =
      if not (begins write)
      then (store, refused internal)
      else if not (inserts write) || is_taken a store.answers
      then (store, refused_insert lost a store.answers)
      else if not (commits write)
      then (store, refused internal)
      else (
        record { participants = add_totals a store.participants; answers = a ∷ store.answers },
        if replies write then accepted a else refused internal,
      )

  -- SubmitAnswer of an authenticated player; `claimed` is the participant that the request names,
  -- `size` the length of its key in bytes, `unread` says that the first lookup by the key fails, which
  -- the code takes for a key that is new, and `lost` that the second one does.
  unfoldable pub submit_answer :
      Store
      → Session
      → Option ℕ
      → ℕ
      → ℕ
      → Bool
      → Bool
      → Write
      → ℕ
      → Option ℕ
      → ℤ
      → ℤ
      → String
      → ℕ
      → Store × Submitted
  unfolding judge record_answer
  submit_answer store s closes now later unread lost write player claimed question selected key
        size =
      let stranger : Bool = elim claimed [ none ↦ false | some c ↦ not (c == player) ] in
      if stranger
      then (store, refused forbidden)
      else if (size == 0) || ltb 128 size
      then (store, refused validation)
      else elim (if unread then none else answer_by_key player key store.answers) [
        | some existing ↦ (store, retry_reply existing question selected)
        | none ↦ elim (judge s closes now later player question selected key) [
          | err e ↦ (store, refused e)
          | ok a ↦ record_answer store a lost write
        ]
      ]

-- The sums of FinalizeScores for one participant.
abbrev pub score_sum : ℕ → List AnswerRow → ℕ
score_sum p [] = 0
score_sum p (a ∷ answers) =
    score_sum p answers + (if p == a.participant_id then a.score_awarded else 0)

abbrev pub correct_sum : ℕ → List AnswerRow → ℕ
correct_sum p [] = 0
correct_sum p (a ∷ answers) =
    correct_sum p answers + (if p == a.participant_id then (if a.is_correct then 1 else 0) else 0)

abbrev pub time_sum : ℕ → List AnswerRow → ℤ
time_sum p [] = pos 0
time_sum p (a ∷ answers) =
    if p == a.participant_id then time_sum p answers +ℤ a.response_time_ms else time_sum p answers

abbrev pub has_answers : ℕ → List AnswerRow → Bool
has_answers p [] = false
has_answers p (a ∷ answers) = (p == a.participant_id) || has_answers p answers

-- The UPDATE of FinalizeScores: participants with no answer are not in the table that it joins.
abbrev finalize : List AnswerRow → List Participant → List Participant
finalize answers [] = []
finalize answers (p ∷ ps) =
    (if has_answers p.id answers
      then record p {
        total_score = score_sum p.id answers;
        correct_count = correct_sum p.id answers;
        total_response_time_ms = time_sum p.id answers;
      }
      else p)
    ∷ finalize answers ps

abbrev pub is_empty : List AnswerRow → Bool
is_empty [] = true
is_empty (a ∷ answers) = false

-- FinalizeScores, with the answers that its sums were read from.
unfoldable pub finalize_scores : List AnswerRow → Store → Store
finalize_scores seen store = record store { participants = finalize seen store.participants }

-- A step of a live session. `seen` is what was stored when FinalizeScores read the answers, `newer`
-- what has been stored since, while it waited; `waits` says whether that happens.
pub data StoreStep (json_text stored_text : ℤ → String) (waits : Bool)
    : Store → Store → Type 0 where
  join :
      (s : Store) (p : ℕ)
      → has_answers p s.answers ≡ false
      → StoreStep json_text stored_text waits s (record s {
        participants =
            record { id = p; total_score = 0; correct_count = 0; total_response_time_ms = pos 0 }
            ∷ s.participants;
      })
  submit :
      (s : Store) (session : Session) (closes : Option ℕ) (now later player : ℕ)
      (question selected : ℤ) (key : String) (a : AnswerRow) (lost : Bool) (write : Write)
      → judge session closes now later player question selected key ≡ ok a
      → StoreStep json_text stored_text waits s
          (record_answer json_text stored_text s a lost write).0
  final :
      (s : Store) (newer seen : List AnswerRow)
      → s.answers ≡ newer ++ seen
      → (waits || is_empty newer) ≡ true
      → StoreStep json_text stored_text waits s (finalize_scores seen s)

pub data StoreReach (json_text stored_text : ℤ → String) (waits : Bool) (s : Store)
    : Store → Type 0 where
  here : StoreReach json_text stored_text waits s s
  after :
      {t u : Store}
      → StoreReach json_text stored_text waits s t
      → StoreStep json_text stored_text waits t u
      → StoreReach json_text stored_text waits s u

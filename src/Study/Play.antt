-- ===== src/Study/Play.antt =====
-- What a learner does in a session: access, ActWith, Audio and Peek of ProtectedQuizService
-- (services/study/internal/service/protected_quiz.go), on the state of the session.
pub mod Steps
pub mod Moves
pub mod Sound
pub mod Total
use hquizlet_platform.Prelude.{
  ℕ, zero, suc, ◌+◌, Bool, not, ◌&&◌, ◌||◌, String, Option, none, some, length, get_elem?, ltb, leb,
  ◌==◌, str_eq, if◌then◌else◌,
}
use hquizlet_platform.Prelude.Int.{ℤ, pos, negsuc}
use hquizlet_platform.Prelude.Text.{byte_length}
use hquizlet_platform.Study.Model.{
  Snapshot, answer_at, set_answer, QuizSession, SessionView, PeekView, Outcome, ok, err,
  unauthorized, forbidden, validation, not_found, internal, panic, TextFns,
}
use hquizlet_platform.Study.Answers.{valid_quiz_answer}
use hquizlet_platform.Study.View.{
  Content, content_from_snapshot, legacy_content, is_some, is_submitted, is_seen, page_of,
  page_items, build_view,
}

-- The columns of a study set that decide about the access.
pub record SetInfo : Type 0 where
  pub content_type : String
  pub user_id : ℕ
  pub visibility : String

-- access, with the set that the repository has found and the answer of the payment service: `none`
-- where it cannot be reached, refuses or answers nonsense.
unfoldable pub access : Outcome SetInfo → Option Bool → ℕ → Outcome {0} Unit
access found has_access uid = if uid == 0 then err unauthorized else elim found [
  | err e ↦ err e
  | ok set ↦
      if not (str_eq set.content_type "quiz")
      then err validation
      else if set.user_id == uid
      then ok tt
      else if not (str_eq set.visibility "public")
      then err forbidden
      else elim has_access [ none ↦ err internal | some b ↦ if b then ok tt else err forbidden ]
]

-- ProtectedQuizService.content, with the snapshots of a repository.
unfoldable pub content : (String → Outcome Snapshot) → QuizSession → Outcome Content
content get s =
    if str_eq s.snapshot_id ""
    then ok (legacy_content s)
    else elim (get s.snapshot_id) [ err e ↦ err e | ok snap ↦ ok (content_from_snapshot snap) ]

-- The index of a request: -1 is the current one; `none` where it is out of range.
unfoldable pub resolve_index : ℤ → ℕ → ℕ → Option ℕ
resolve_index (pos i) current total = if ltb i total then some i else none
resolve_index (negsuc zero) current total = if ltb current total then some current else none
resolve_index (negsuc (suc n)) current total = none

-- A session whose deadline has come is submitted as of the deadline.
unfoldable pub auto_submit : ℕ → QuizSession → QuizSession
auto_submit now s = elim s.deadline [
  | none ↦ s
  | some t ↦
      if not (is_submitted s) && not (ltb now t) then record s { submitted_at = some t } else s
]

-- The window of Peek: one page behind the current one, three ahead.
abbrev peek_look_behind : ℕ
peek_look_behind = 1

abbrev peek_look_ahead : ℕ
peek_look_ahead = 3

-- The index that Peek reads: any negative one is the current one.
abbrev pub peek_index : ℤ → ℕ → ℕ
peek_index (pos i) current = i
peek_index (negsuc n) current = current

module _ (t : TextFns) where
  -- The case "answer".
  unfoldable pub give_answer : Content → QuizSession → ℕ → String → Outcome QuizSession
  give_answer c s i answer =
      if is_submitted s
      then ok s
      else if not (is_seen i s.seen) || ltb 8000 (byte_length answer)
      then err validation
      else if s.instant && is_some (answer_at i s.answers)
      then ok s
      else elim (get_elem? c.items i) [
        | none ↦ err panic
        | some it ↦
            if not (valid_quiz_answer t it.question answer)
            then err validation
            else ok (record s { answers = set_answer i answer s.answers })
      ]

  -- The switch over the action.
  unfoldable pub perform : Content → QuizSession → String → ℕ → String → ℕ → Outcome QuizSession
  unfolding give_answer
  perform c s action i answer now =
      if str_eq action "page"
      then ok s
      else if str_eq action "answer"
      then give_answer c s i answer
      else if str_eq action "submit"
      then ok (if is_submitted s then s else record s { submitted_at = some now })
      else err validation

  -- The function that ActWith hands to Update.
  unfoldable pub act_on :
      Content → QuizSession → String → ℤ → String → ℕ → Bool → Outcome (QuizSession × SessionView)
  unfolding perform
  act_on c s action index answer now include_manifest =
      elim (resolve_index index s.current_index (length c.items)) [
        | none ↦ err validation
        | some i ↦ elim (perform c (auto_submit now s) action i answer now) [
          | err e ↦ err e
          | ok played ↦ elim (build_view t played c i now include_manifest) [
            | none ↦ err panic
            | some shown ↦ ok shown
          ]
        ]
      ]

  -- The function that ActWith hands to Update, with the content of the session.
  unfoldable pub act :
      (String → Outcome Snapshot)
      → QuizSession
      → String
      → ℤ
      → String
      → ℕ
      → Bool
      → Outcome (QuizSession × SessionView)
  unfolding content act_on
  act get s action index answer now include_manifest = elim (content get s) [
    | err e ↦ err e
    | ok c ↦ act_on c s action index answer now include_manifest
  ]

  -- The function that Peek hands to View.
  unfoldable pub peek_on : Content → QuizSession → ℤ → ℕ → Outcome PeekView
  peek_on c s index now =
      let i = peek_index index s.current_index in
      if ltb (i + peek_look_behind) s.current_index || ltb (s.current_index + peek_look_ahead) i
      then err forbidden
      else if leb (length c.items) i
      then err validation
      else elim (page_of c s.layout i) [
        | none ↦ err panic
        | some served ↦ elim (page_items t c s served) [
          | none ↦ err panic
          | some page ↦
              let view : PeekView = record {
                id = s.id;
                server_time = now;
                current_index = s.current_index;
                page = page;
              } in
              ok view
        ]
      ]

-- The function that Audio hands to View: the address of the recording.
unfoldable pub audio_on : Content → QuizSession → ℤ → Outcome String
audio_on c s (negsuc n) = err forbidden
audio_on c s (pos i) =
    if leb (length c.items) i || not (is_seen i s.seen)
    then err forbidden
    else elim (get_elem? c.items i) [
      | none ↦ err panic
      | some it ↦ elim it.question.audio_url [
        | none ↦ err not_found
        | some u ↦ if str_eq u "" then err not_found else ok u
      ]
    ]

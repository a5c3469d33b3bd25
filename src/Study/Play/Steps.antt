-- ===== src/Study/Play/Steps.antt =====
-- What lies behind an action that succeeds.
use hquizlet_platform.Prelude.{
  ℕ, ◌≡◌, ◌≤◌, ◌⊎◌, true, false, not, ◌&&◌, ◌||◌, ltb, str_eq, get_elem?, Bool-cases, Bool, String,
  some, length, arith, Option-cases, inl, inr,
}
use hquizlet_platform.Prelude.Int.{ℤ}
use hquizlet_platform.Study.Model.{
  Snapshot, SessionItem, answer_at, set_answer, QuizSession, SessionView, Outcome, Outcome-cases,
  ok, TextFns,
}
use hquizlet_platform.Study.View.{Content, is_some, is_submitted, is_seen, build_view}
use hquizlet_platform.Study.Answers.{valid_quiz_answer}
use hquizlet_platform.Prelude.Text.{byte_length}
use hquizlet_platform.Study.Play.{
  content, resolve_index, auto_submit, give_answer, perform, act_on, act,
}

-- The deadline has come for a session that is not submitted, or nothing happens.
pub auto_submit-cases :
    (now : ℕ) (s : QuizSession)
    → (auto_submit now s ≡ s)
      ⊎ ((d : ℕ) × (s.deadline ≡ some d)
          × (is_submitted s ≡ false)
          × (d ≤ now)
          × (auto_submit now s ≡ record s { submitted_at = some d }))
unfolding auto_submit
auto_submit-cases now s = elim (Option-cases s.deadline) [
  | inl never ↦ inl (ground (arith, never))
  | inr (d, due) ↦ elim (Bool-cases (not (is_submitted s) && not (ltb now d))) [
    | inl late ↦ inr (d, due, ground (arith, late), ground (arith, late), ground (arith, due, late))
    | inr early ↦ inl (ground (arith, due, early))
  ]
]

-- An answer that is stored.
pub record Given (t : TextFns) (c : Content) (s x : QuizSession) (i : ℕ) (answer : String)
    : Type 0 where
  pub running : is_submitted s ≡ false
  pub unmarked : (s.instant && is_some (answer_at i s.answers)) ≡ false
  pub served : is_seen i s.seen ≡ true
  pub short : byte_length answer ≤ 8000
  pub item : SessionItem
  pub found : get_elem? c.items i ≡ some item
  pub valid : valid_quiz_answer t item.question answer ≡ true
  pub effect : x ≡ record s { answers = set_answer i answer s.answers }

module _ (t : TextFns) where
  pub give_answer-cases :
      (c : Content) (s x : QuizSession) (i : ℕ) (answer : String)
      → give_answer t c s i answer ≡ ok x
      → (x ≡ s) ⊎ Given t c s x i answer
  unfolding give_answer
  give_answer-cases c s x i answer h = elim (Bool-cases (is_submitted s)) [
    | inl done ↦ inl (ground (arith, done))
    | inr running ↦ elim (Bool-cases (not (is_seen i s.seen) || ltb 8000 (byte_length answer))) [
      | inl refused ↦ absurd (ground (arith, running, refused))
      | inr fits ↦ elim (Bool-cases (s.instant && is_some (answer_at i s.answers))) [
        | inl locked ↦ inl (ground (arith, running, fits, locked))
        | inr free ↦ elim (Option-cases (get_elem? c.items i)) [
          | inl absent ↦ absurd (ground (arith, running, fits, free, absent))
          | inr (it, found) ↦ elim (Bool-cases (valid_quiz_answer t it.question answer)) [
            | inr bad ↦ absurd (ground (arith, running, fits, free, found, bad))
            | inl valid ↦ inr (record {
              running = running;
              unmarked = free;
              served = ground (arith, fits);
              short = ground (arith, fits);
              item = it;
              found = found;
              valid = valid;
              effect = ground (arith, running, fits, free, found, valid);
            })
          ]
        ]
      ]
    ]
  ]

  pub perform-cases :
      (c : Content) (s x : QuizSession) (action : String) (i : ℕ) (answer : String) (now : ℕ)
      → perform t c s action i answer now ≡ ok x
      → (x ≡ s)
        ⊎ ((give_answer t c s i answer ≡ ok x)
            ⊎ ((is_submitted s ≡ false) × (x ≡ record s { submitted_at = some now })))
  unfolding perform
  perform-cases c s x action i answer now h = elim (Bool-cases (str_eq action "page")) [
    | inl page ↦ inl (ground (arith, page))
    | inr other ↦ elim (Bool-cases (str_eq action "answer")) [
      | inl given ↦ inr (inl (ground (arith, other, given)))
      | inr last ↦ elim (Bool-cases (str_eq action "submit")) [
        | inr unknown ↦ absurd (ground (arith, other, last, unknown))
        | inl submit ↦ elim (Bool-cases (is_submitted s)) [
          | inl done ↦ inl (ground (arith, other, last, submit, done))
          | inr running ↦ inr (inr (running, ground (arith, other, last, submit, running)))
        ]
      ]
    ]
  ]

  -- The index, the session behind the switch, and the view.
  pub act_on-inv :
      (c : Content) (s x : QuizSession) (action : String) (index : ℤ) (answer : String) (now : ℕ)
      (inc : Bool) (v : SessionView)
      → act_on t c s action index answer now inc ≡ ok (x, v)
      → (i : ℕ) × (played : QuizSession) × (resolve_index index s.current_index (length c.items)
          ≡ some i)
        × (perform t c (auto_submit now s) action i answer now ≡ ok played)
        × (build_view t played c i now inc ≡ some (x, v))
  unfolding act_on
  act_on-inv c s x action index answer now inc v h =
      elim (Option-cases (resolve_index index s.current_index (length c.items))) [
        | inl absent ↦ ground (arith, absent)
        | inr (i, at) ↦ elim (Outcome-cases (perform t c (auto_submit now s) action i answer now)) [
          | inl (e, failed) ↦ ground (arith, at, failed)
          | inr (played, done) ↦ elim (Option-cases (build_view t played c i now inc)) [
            | inl absent ↦ ground (arith, at, done, absent)
            | inr (shown, built) ↦ (i, played, at, done, ground (arith, at, done, built))
          ]
        ]
      ]

  -- The content that the action reads.
  pub act-inv :
      (get : String → Outcome Snapshot) (s x : QuizSession) (action : String) (index : ℤ)
      (answer : String) (now : ℕ) (inc : Bool) (v : SessionView)
      → act t get s action index answer now inc ≡ ok (x, v)
      → (c : Content) × (content get s ≡ ok c)
        × (act_on t c s action index answer now inc ≡ ok (x, v))
  unfolding act
  act-inv get s x action index answer now inc v h = elim (Outcome-cases (content get s)) [
    | inl (e, failed) ↦ ground (arith, failed)
    | inr (c, found) ↦ (c, found, ground (arith, found))
  ]

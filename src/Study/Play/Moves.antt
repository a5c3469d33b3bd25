-- ===== src/Study/Play/Moves.antt =====
-- How an action may change a session.
use hquizlet_platform.Prelude.{
  ℕ, ◌≡◌, refl, ap, ◌∙◌, sym, Bool, true, false, ◌&&◌, String, [], ◌∷◌, Option, some, ◌==◌, arith,
  Bool-cases, inl, inr,
}
use hquizlet_platform.Prelude.Int.{ℤ}
use hquizlet_platform.Study.Model.{
  AnswerMap, answer_at, set_answer, QuizSession, SessionView, ok, TextFns,
}
use hquizlet_platform.Study.View.{Content, is_some, is_submitted}
use hquizlet_platform.Study.View.Kept.{Kept, build_view-Kept}
use hquizlet_platform.Study.Play.{auto_submit, give_answer, perform, act_on}
use hquizlet_platform.Study.Play.Steps.{
  auto_submit-cases, give_answer-cases, perform-cases, act_on-inv,
}

-- What no action changes, what it leaves alone once the session is submitted, and what it leaves
-- alone where answers are marked at once.
pub record Moves (s x : QuizSession) : Type 0 where
  pub same : x ≡ record s {
    submitted_at = x.submitted_at;
    completed_score = x.completed_score;
    answers = x.answers;
    seen = x.seen;
    current_index = x.current_index;
  }
  pub final : is_submitted s ≡ true → (x.answers ≡ s.answers) × (x.submitted_at ≡ s.submitted_at)
  pub marked :
      (i : ℕ) (a : String)
      → s.instant ≡ true
      → answer_at i s.answers ≡ some a
      → answer_at i x.answers ≡ some a

pub Moves-refl : (s : QuizSession) → Moves s s
Moves-refl s = record { same = refl; final = λ h. (refl, refl); marked = λ i a m h. h }

pub Moves-trans : (s x y : QuizSession) → Moves s x → Moves x y → Moves s y
Moves-trans s x y m n = record {
  same =
      n.same
      ∙ ap {A = QuizSession}
          (λ z. record z {
            submitted_at = y.submitted_at;
            completed_score = y.completed_score;
            answers = y.answers;
            seen = y.seen;
            current_index = y.current_index;
          })
          m.same;
  final = λ h.
      let later = n.final (ap is_some (m.final h).1 ∙ h) in
      (later.0 ∙ (m.final h).0, later.1 ∙ (m.final h).1);
  marked = λ i a k h. n.marked i a (ap (λ z. z.instant) m.same ∙ k) (m.marked i a k h);
}

-- A session that is not submitted may be so at any time.
submit-Moves :
    (s : QuizSession) (at : Option ℕ)
    → is_submitted s ≡ false
    → Moves s (record s { submitted_at = at })
submit-Moves s at h = record {
  same = refl;
  final = λ k. absurd (ground (arith, h, k));
  marked = λ i a m e. e;
}

auto_submit-Moves : (now : ℕ) (s : QuizSession) → Moves s (auto_submit now s)
auto_submit-Moves now s = elim (auto_submit-cases now s) [
  | inl kept ↦ rw kept (Moves-refl s)
  | inr (d, due, running, late, e) ↦ rw e (submit-Moves s (some d) running)
]

pub ==_eq : (i j : ℕ) → (i == j) ≡ true → i ≡ j
==_eq i j h = ground arith

answer_at-set_answer :
    (i j : ℕ) (a : String) (m : AnswerMap)
    → (i == j) ≡ false
    → answer_at j (set_answer i a m) ≡ answer_at j m
answer_at-set_answer i j a [] h = ground arith
answer_at-set_answer i j a ((k, b) ∷ m) h = ground (arith, answer_at-set_answer i j a m h)

module _ (t : TextFns) where
  set_answer-Moves :
      (s : QuizSession) (i : ℕ) (a : String)
      → is_submitted s ≡ false
      → (s.instant && is_some (answer_at i s.answers)) ≡ false
      → Moves s (record s { answers = set_answer i a s.answers })
  set_answer-Moves s i a h k = record {
    same = refl;
    final = λ m. absurd (ground (arith, h, m));
    marked = λ j b m e. elim (Bool-cases (i == j)) [
      | inl same ↦ absurd (ground (arith, k, m, e, ==_eq i j same))
      | inr other ↦ answer_at-set_answer i j a s.answers other ∙ e
    ];
  }

  give_answer-Moves :
      (c : Content) (s x : QuizSession) (i : ℕ) (answer : String)
      → give_answer t c s i answer ≡ ok x
      → Moves s x
  give_answer-Moves c s x i answer h = elim (give_answer-cases t c s x i answer h) [
    | inl kept ↦ rw kept (Moves-refl s)
    | inr g ↦ rw g.effect (set_answer-Moves s i answer g.running g.unmarked)
  ]

  perform-Moves :
      (c : Content) (s x : QuizSession) (action : String) (i : ℕ) (answer : String) (now : ℕ)
      → perform t c s action i answer now ≡ ok x
      → Moves s x
  perform-Moves c s x action i answer now h = elim (perform-cases t c s x action i answer now h) [
    | inl kept ↦ rw kept (Moves-refl s)
    | inr (inl given) ↦ give_answer-Moves c s x i answer given
    | inr (inr (running, e)) ↦ rw e (submit-Moves s (some now) running)
  ]

  Kept-Moves : (s x : QuizSession) → Kept s x → Moves s x
  Kept-Moves s x k = record {
    same =
        k
        ∙ ap {A = QuizSession}
            (λ z. record s {
              submitted_at = z.submitted_at;
              completed_score = x.completed_score;
              answers = z.answers;
              seen = x.seen;
              current_index = x.current_index;
            })
            (sym k);
    final = λ h. (ap (λ z. z.answers) k, ap (λ z. z.submitted_at) k);
    marked = λ i a m e. ap (λ z. answer_at i z.answers) k ∙ e;
  }

  pub act_on-Moves :
      (c : Content) (s x : QuizSession) (action : String) (index : ℤ) (answer : String) (now : ℕ)
      (inc : Bool) (v : SessionView)
      → act_on t c s action index answer now inc ≡ ok (x, v)
      → Moves s x
  act_on-Moves c s x action index answer now inc v h =
      let (i, played, at, done, built) = act_on-inv t c s x action index answer now inc v h in
      Moves-trans s (auto_submit now s) x (auto_submit-Moves now s) (
        Moves-trans (auto_submit now s) played x
          (perform-Moves c (auto_submit now s) played action i answer now done)
          (Kept-Moves played x (build_view-Kept t played x c i now inc v built)))

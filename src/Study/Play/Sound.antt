-- ===== src/Study/Play/Sound.antt =====
-- What holds of every session that has been played by actions.
use hquizlet_platform.Prelude.{
  ℕ, ◌≤◌, ◌≡◌, refl, ap, ◌∙◌, sym, Bool, true, false, ◌&&◌, String, List, [], ◌∷◌, Option, some,
  all, leb, ◌==◌, arith, Option-cases, Bool-cases, or_intro_right, inl, inr,
}
use hquizlet_platform.Prelude.Int.{ℤ}
use hquizlet_platform.Prelude.Text.{byte_length}
use hquizlet_platform.Study.Model.{
  AnswerMap, ManifestItem, PageItem, set_answer, QuizSession, SessionView, ok, TextFns,
}
use hquizlet_platform.Study.View.{
  Content, is_some, is_submitted, is_seen, mark_seen, mark_all_seen, assemble, build_view,
}
use hquizlet_platform.Study.View.Kept.{build_view-inv, build_view-Kept}
use hquizlet_platform.Study.Play.{auto_submit, give_answer, perform, act_on}
use hquizlet_platform.Study.Play.Moves.{==_eq}
use hquizlet_platform.Study.Play.Steps.{
  auto_submit-cases, give_answer-cases, perform-cases, act_on-inv,
}

-- An answer to a question that was served, of at most 8000 bytes.
abbrev pub may_stand : List ℕ → ℕ × String → Bool
may_stand seen p = is_seen p.0 seen && leb (byte_length p.1) 8000

-- Every answer may stand, and the session was submitted, if it was, at some time up to `now` and to
-- its deadline.
pub record Answered (now : ℕ) (s : QuizSession) : Type 0 where
  pub served : all (may_stand s.seen) s.answers ≡ true
  pub past : (a : ℕ) → s.submitted_at ≡ some a → a ≤ now
  pub on_time : (a d : ℕ) → s.submitted_at ≡ some a → s.deadline ≡ some d → a ≤ d

all-set_answer :
    (p : ℕ × String → Bool) (i : ℕ) (a : String) (m : AnswerMap)
    → all p m ≡ true
    → p (i, a) ≡ true
    → all p (set_answer i a m) ≡ true
all-set_answer p i a [] h k = ground (arith, k)
all-set_answer p i a ((j, b) ∷ m) h k = elim (Bool-cases (j == i)) [
  | inl same ↦ rw same (ground (arith, h, k, ap (λ n. p (n, a)) (==_eq j i same)))
  | inr other ↦ rw other (ground (arith, h, k, all-set_answer p i a m))
]

is_seen-mark_seen :
    (i j : ℕ) (seen : List ℕ) → is_seen j seen ≡ true → is_seen j (mark_seen i seen) ≡ true
is_seen-mark_seen i j seen h = elim (Bool-cases (is_seen i seen)) [
  | inl old ↦ rw old h
  | inr fresh ↦ rw fresh (or_intro_right (i == j) (is_seen j seen) h)
]

is_seen-mark_all_seen :
    (is : List ℕ) (j : ℕ) (seen : List ℕ)
    → is_seen j seen ≡ true
    → is_seen j (mark_all_seen is seen) ≡ true
is_seen-mark_all_seen [] j seen h = h
is_seen-mark_all_seen (i ∷ is) j seen h =
    is_seen-mark_all_seen is j (mark_seen i seen) (is_seen-mark_seen i j seen h)

all-mark_all_seen :
    (is seen : List ℕ) (m : AnswerMap)
    → all (may_stand seen) m ≡ true
    → all (may_stand (mark_all_seen is seen)) m ≡ true
all-mark_all_seen is seen [] h = refl
all-mark_all_seen is seen ((i, a) ∷ m) h =
    ground (arith, is_seen-mark_all_seen is i seen, all-mark_all_seen is seen m)

pub later-Answered :
    (last now : ℕ) (s : QuizSession) → last ≤ now → Answered last s → Answered now s
later-Answered last now s h a = record {
  served = a.served;
  past = λ b e. omega (arith, h, a.past b e);
  on_time = a.on_time;
}

auto_submit-Answered :
    (now : ℕ) (s : QuizSession) → Answered now s → Answered now (auto_submit now s)
auto_submit-Answered now s a = elim (auto_submit-cases now s) [
  | inl kept ↦ rw kept a
  | inr (d, due, running, late, e) ↦ rw e (record {
    served = a.served;
    past = λ b m. ground (arith, m, late);
    on_time = λ b f m k. ground (arith, m, k, due);
  })
]

auto_submit-on_time :
    (now d : ℕ) (s : QuizSession)
    → is_submitted (auto_submit now s) ≡ false
    → (auto_submit now s).deadline ≡ some d
    → now ≤ d
unfolding auto_submit
auto_submit-on_time now d s running due = elim (Option-cases s.deadline) [
  | inl never ↦ ground (arith, never, running, due)
  | inr (f, k) ↦ ground (arith, k, running, due)
]

module _ (t : TextFns) where
  assemble-Answered :
      (s : QuizSession) (total : ℕ) (manifest : List ManifestItem) (i now : ℕ) (served : List ℕ)
      (page : List PageItem) (final : List (ℕ × String × Bool))
      (marks : List (ℕ × String × Option Bool))
      → Answered now s
      → Answered now (assemble t s total manifest i now served page final marks).0
  unfolding assemble
  assemble-Answered s total manifest i now served page final marks h = record {
    served = all-mark_all_seen served s.seen s.answers h.served;
    past = h.past;
    on_time = h.on_time;
  }

  build_view-Answered :
      (s x : QuizSession) (c : Content) (i now : ℕ) (inc : Bool) (v : SessionView)
      → build_view t s c i now inc ≡ some (x, v)
      → Answered now s
      → Answered now x
  build_view-Answered s x c i now inc v h a =
      let (served, page, found, made, e) = build_view-inv t s x c i now inc v h in
      rw (ap (λ p. p.0) e) (assemble-Answered s _ _ i now served page _ _ a)

  give_answer-Answered :
      (c : Content) (s x : QuizSession) (i : ℕ) (answer : String) (now : ℕ)
      → give_answer t c s i answer ≡ ok x
      → Answered now s
      → Answered now x
  give_answer-Answered c s x i answer now h a = elim (give_answer-cases t c s x i answer h) [
    | inl kept ↦ rw kept a
    | inr g ↦ rw g.effect (record {
      served =
          all-set_answer (may_stand s.seen) i answer s.answers a.served
            (ground (arith, g.served, g.short));
      past = a.past;
      on_time = a.on_time;
    })
  ]

  -- Behind the check of the deadline: a session that is still running is within it.
  perform-Answered :
      (c : Content) (s x : QuizSession) (action : String) (i : ℕ) (answer : String) (now : ℕ)
      → perform t c (auto_submit now s) action i answer now ≡ ok x
      → Answered now s
      → Answered now x
  perform-Answered c s x action i answer now h a =
      let ready = auto_submit-Answered now s a in
      elim (perform-cases t c (auto_submit now s) x action i answer now h) [
        | inl kept ↦ rw kept ready
        | inr (inl given) ↦ give_answer-Answered c (auto_submit now s) x i answer now given ready
        | inr (inr (running, e)) ↦ rw e (record {
          served = ready.served;
          past = λ b m. ground (arith, m);
          on_time = λ b d m due. ground (arith, m, auto_submit-on_time now d s running due);
        })
      ]

  pub act_on-Answered :
      (last : ℕ) (c : Content) (s x : QuizSession) (action : String) (index : ℤ) (answer : String)
      (now : ℕ) (inc : Bool) (v : SessionView)
      → act_on t c s action index answer now inc ≡ ok (x, v)
      → last ≤ now
      → Answered last s
      → Answered now x
  act_on-Answered last c s x action index answer now inc v h le a =
      let (i, played, at, done, built) = act_on-inv t c s x action index answer now inc v h in
      build_view-Answered played x c i now inc v built
        (perform-Answered c s played action i answer now done (later-Answered last now s le a))

  assemble-scored :
      (s : QuizSession) (total : ℕ) (manifest : List ManifestItem) (i now : ℕ) (served : List ℕ)
      (page : List PageItem) (final : List (ℕ × String × Bool))
      (marks : List (ℕ × String × Option Bool))
      → is_submitted s ≡ true
      → is_some (assemble t s total manifest i now served page final marks).0.completed_score ≡ true
  unfolding assemble
  assemble-scored s total manifest i now served page final marks h = rw h refl

  -- A submitted session leaves an action with a score.
  pub act_on-scored :
      (c : Content) (s x : QuizSession) (action : String) (index : ℤ) (answer : String) (now : ℕ)
      (inc : Bool) (v : SessionView)
      → act_on t c s action index answer now inc ≡ ok (x, v)
      → is_submitted x ≡ true
      → is_some x.completed_score ≡ true
  act_on-scored c s x action index answer now inc v h m =
      let (i, played, at, done, built) = act_on-inv t c s x action index answer now inc v h in
      let (served, page, found, made, e) = build_view-inv t played x c i now inc v built in
      let kept = ap (λ z. is_submitted z) (build_view-Kept t played x c i now inc v built) in
      rw (ap (λ p. p.0) e) (assemble-scored played _ _ i now served page _ _ (sym kept ∙ m))

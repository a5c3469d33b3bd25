-- ===== src/Study/View.antt =====
-- What the learner is sent: quizContent and buildView of
-- services/study/internal/service/protected_quiz.go.
pub mod Kept
use hquizlet_platform.Prelude.{
  ℕ, ◌+◌, ◌-◌, ◌/◌, Bool, true, false, not, ◌&&◌, ◌||◌, String, List, [], ◌∷◌, Option, none, some,
  map, length, get_elem?, any, count, ltb, ◌==◌, str_eq, if◌then◌else◌,
}
use hquizlet_platform.Study.Model.{
  SessionItem, ManifestItem, Snapshot, AnswerMap, answer_at, QuizSession, PageItem, SessionView,
  TextFns,
}
use hquizlet_platform.Study.Pages.{snapshot_index}
use hquizlet_platform.Study.Answers.{quiz_correct, quiz_page_item}

-- quizContent; its total is the number of items.
pub record Content : Type 0 where
  pub items : List SessionItem
  pub pages : List (List ℕ)
  pub manifest : List ManifestItem
  pub sanitize : Bool

-- contentFromSnapshot
abbrev pub content_from_snapshot : Snapshot → Content
content_from_snapshot snap = record {
  items = snap.items;
  pages = snap.pages;
  manifest = snap.manifest;
  sanitize = false;
}

-- legacyContent
unfoldable pub legacy_content : QuizSession → Content
legacy_content s =
    let (pages, manifest) = snapshot_index s.items in
    record { items = s.items; pages = pages; manifest = manifest; sanitize = not s.sanitized }

-- quizContent.page; `none` where the index of a page is out of range.
unfoldable pub page_of : Content → String → ℕ → Option (List ℕ)
page_of c layout i =
    if not (ltb i (length c.items))
    then some []
    else if str_eq layout "toeic"
    then get_elem? c.pages i
    else some (i ∷ [])

abbrev pub is_some {ℓ} : {A : Type ℓ} → Option A → Bool
is_some none = false
is_some (some x) = true

abbrev pub is_submitted : QuizSession → Bool
is_submitted s = is_some s.submitted_at

abbrev pub is_seen : ℕ → List ℕ → Bool
is_seen i = any (λ j. j == i)

-- seen[i] = true
abbrev pub mark_seen : ℕ → List ℕ → List ℕ
mark_seen i seen = if is_seen i seen then seen else i ∷ seen

abbrev pub mark_all_seen : List ℕ → List ℕ → List ℕ
mark_all_seen [] seen = seen
mark_all_seen (i ∷ is) seen = mark_all_seen is (mark_seen i seen)

-- Whether the solution of a question may be shown.
unfoldable pub is_revealed : QuizSession → ℕ → Bool
is_revealed s i = is_some (answer_at i s.answers) && (is_submitted s || s.instant)

module _ (t : TextFns) where
  -- The page items of some indices; `none` where one is out of range.
  unfoldable pub page_items : Content → QuizSession → List ℕ → Option (List PageItem)
  page_items c s [] = some []
  page_items c s (i ∷ is) = elim (get_elem? c.items i) [
    | none ↦ none
    | some it ↦ elim (page_items c s is) [
      | none ↦ none
      | some rest ↦ some (quiz_page_item t it i (is_revealed s i) c.sanitize ∷ rest)
    ]
  ]

  -- The answers and the results of a submitted session, for the items from the index `i` on.
  unfoldable pub all_results : ℕ → List SessionItem → AnswerMap → List (ℕ × String × Bool)
  all_results i [] answers = []
  all_results i (it ∷ items) answers =
      let rest = all_results (i + 1) items answers in
      elim (answer_at i answers) [
        | none ↦ rest
        | some a ↦ (i, a, quiz_correct t it.question a) ∷ rest
      ]

  -- The answers and, where they are marked at once, the results of the questions served.
  unfoldable pub served_results : Content → QuizSession → List ℕ → List (ℕ × String × Option Bool)
  served_results c s [] = []
  served_results c s (i ∷ is) =
      let rest = served_results c s is in
      elim (get_elem? c.items i) [
        | none ↦ rest
        | some it ↦ elim (answer_at i s.answers) [
          | none ↦ rest
          | some a ↦ (i, a, if s.instant then some (quiz_correct t it.question a) else none) ∷ rest
        ]
      ]

  abbrev marks_of : List (ℕ × String × Option Bool) → List (ℕ × Bool)
  marks_of [] = []
  marks_of ((i, a, none) ∷ rs) = marks_of rs
  marks_of ((i, a, some b) ∷ rs) = (i, b) ∷ marks_of rs

  -- The number of true results.
  abbrev pub score_of : List (ℕ × String × Bool) → ℕ
  score_of = count (λ r. r.2)

  -- The results of the whole quiz, which only a submitted session has.
  unfoldable pub final_results : QuizSession → Content → List (ℕ × String × Bool)
  unfolding all_results
  final_results s c = if is_submitted s then all_results 0 c.items s.answers else []

  abbrev answers_of {ℓ} : {B : Type ℓ} → List (ℕ × String × B) → AnswerMap
  answers_of = map (λ r. (r.0, r.1))

  -- What buildView stores and answers for the indices served, once their page items and results are
  -- there.
  unfoldable pub assemble :
      QuizSession
      → ℕ
      → List ManifestItem
      → ℕ
      → ℕ
      → List ℕ
      → List PageItem
      → List (ℕ × String × Bool)
      → List (ℕ × String × Option Bool)
      → QuizSession × SessionView
  assemble s total manifest index now served page final marks =
      let submitted = is_submitted s in
      let score = if submitted then some (score_of final) else none in
      let after = record s {
        current_index = index;
        seen = mark_all_seen served s.seen;
        completed_score = if submitted then score else s.completed_score;
      } in
      let view : SessionView = record {
        id = s.id;
        mode = s.mode;
        instant = s.instant;
        layout = s.layout;
        server_time = now;
        deadline = s.deadline;
        submitted = submitted;
        current_index = index;
        total = total;
        answered = length s.answers;
        manifest = manifest;
        page = page;
        answers = if submitted then answers_of final else answers_of marks;
        results = if submitted then map (λ r. (r.0, r.2)) final else marks_of marks;
        score = score;
        time_used = elim s.submitted_at [ none ↦ 0 | some at ↦ (at - s.started_at) / 1000000000 ];
      } in
      (after, view)

  -- buildView: the session as it leaves it and the view; `none` where an index is out of range.
  unfoldable pub build_view :
      QuizSession → Content → ℕ → ℕ → Bool → Option (QuizSession × SessionView)
  unfolding assemble page_of page_items final_results served_results
  build_view s c index now include_manifest = elim (page_of c s.layout index) [
    | none ↦ none
    | some served ↦ elim (page_items c s served) [
      | none ↦ none
      | some page ↦
          let manifest = if include_manifest then c.manifest else [] in
          some (
            assemble s (length c.items) manifest index now served page (final_results s c)
              (served_results c s served))
    ]
  ]

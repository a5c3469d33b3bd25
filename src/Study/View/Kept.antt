-- ===== src/Study/View/Kept.antt =====
-- What buildView leaves of a session.
use hquizlet_platform.Prelude.{
  ℕ, ◌≡◌, refl, ap, Bool, String, Option, List, some, length, arith, Option-cases, inl, inr,
  if◌then◌else◌, [],
}
use hquizlet_platform.Study.Model.{ManifestItem, QuizSession, PageItem, SessionView, TextFns}
use hquizlet_platform.Study.View.{
  Content, is_revealed, page_of, page_items, final_results, served_results, assemble, build_view,
}

module _ (t : TextFns) where
  -- The indices served and their page items, behind a view.
  pub build_view-inv :
      (s x : QuizSession) (c : Content) (i now : ℕ) (inc : Bool) (v : SessionView)
      → build_view t s c i now inc ≡ some (x, v)
      → (served : List ℕ) × (page : List PageItem) × (page_of c s.layout i ≡ some served)
        × (page_items t c s served ≡ some page)
        × ((x, v)
            ≡ assemble t s
                (length c.items)
                (if inc then c.manifest else [])
                i
                now
                served
                page
                (final_results t s c)
                (served_results t c s served))
  unfolding build_view
  build_view-inv s x c i now inc v h = elim (Option-cases (page_of c s.layout i)) [
    | inl absent ↦ ground (arith, absent)
    | inr (served, found) ↦ elim (Option-cases (page_items t c s served)) [
      | inl absent ↦ ground (arith, found, absent)
      | inr (page, made) ↦ (served, page, found, made, ground (arith, found, made))
    ]
  ]

-- The sessions differ in nothing but the place, the questions seen and the score.
abbrev pub Kept : QuizSession → QuizSession → Type 0
Kept s x = x ≡ record s {
  current_index = x.current_index;
  seen = x.seen;
  completed_score = x.completed_score;
}

module _ (t : TextFns) where
  assemble-Kept :
      (s : QuizSession) (total : ℕ) (manifest : List ManifestItem) (i now : ℕ) (served : List ℕ)
      (page : List PageItem) (final : List (ℕ × String × Bool))
      (marks : List (ℕ × String × Option Bool))
      → Kept s (assemble t s total manifest i now served page final marks).0
  unfolding assemble
  assemble-Kept s total manifest i now served page final marks = refl

  pub build_view-Kept :
      (s x : QuizSession) (c : Content) (i now : ℕ) (inc : Bool) (v : SessionView)
      → build_view t s c i now inc ≡ some (x, v)
      → Kept s x
  build_view-Kept s x c i now inc v h =
      let (served, page, found, made, e) = build_view-inv t s x c i now inc v h in
      rw (ap (λ p. p.0) e) (assemble-Kept s _ _ i now served page _ _)

  pub build_view-shown :
      (s x : QuizSession) (c : Content) (i now : ℕ) (inc : Bool) (v : SessionView) (j : ℕ)
      → build_view t s c i now inc ≡ some (x, v)
      → is_revealed x j ≡ is_revealed s j
  unfolding is_revealed
  build_view-shown s x c i now inc v j h =
      ap (λ y. is_revealed y j) (build_view-Kept s x c i now inc v h)

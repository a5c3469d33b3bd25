-- ===== src/Study/Secrets.antt =====
-- A quiz without the solutions that a session may not show, and what of it the pages and results
-- need.
pub mod Replies
use hquizlet_platform.Prelude.{
  ℕ, zero, suc, ◌+◌, ◌≡◌, refl, ap, ◌∙◌, Bool, true, false, str_eq, ◌||◌, String, List, [], ◌∷◌,
  Option, none, some, map, length, get_elem?, any, arith, Bool-cases, Option-cases, inl, inr,
}
use hquizlet_platform.Prelude.Int.{ℤ}
use hquizlet_platform.Study.Model.{
  QuizOption, QuizQuestion, SessionItem, answer_at, QuizSession, SessionView, ok, TextFns,
}
use hquizlet_platform.Study.Answers.{
  hide_option, hide_solution, valid_quiz_answer, quiz_correct, quiz_page_item,
}
use hquizlet_platform.Study.View.Kept.{build_view-shown}
use hquizlet_platform.Study.View.{
  Content, is_submitted, is_revealed, page_of, page_items, all_results, served_results,
  final_results, build_view,
}
use hquizlet_platform.Study.Play.Steps.{act_on-inv}
use hquizlet_platform.Study.Play.{auto_submit, give_answer, perform, act_on, peek_on, peek_index}

-- The item, with its solution where that may be shown.
abbrev pub hide_at : Bool → SessionItem → SessionItem
hide_at true it = it
hide_at false it = record it { question = hide_solution it.question }

-- The items without the solutions of the questions that a test does not show, from the index `i` on.
abbrev pub hide_items : (ℕ → Bool) → ℕ → List SessionItem → List SessionItem
hide_items shown i [] = []
hide_items shown i (it ∷ items) = hide_at (shown i) it ∷ hide_items shown (i + 1) items

-- The content without the solutions that the session may not show.
abbrev pub hide_unrevealed : QuizSession → Content → Content
hide_unrevealed s c = record c { items = hide_items (is_revealed s) 0 c.items }

abbrev hide_opt : Bool → Option SessionItem → Option SessionItem
hide_opt shown none = none
hide_opt shown (some it) = some (hide_at shown it)

pub length-hide_items :
    (shown : ℕ → Bool) (i : ℕ) (items : List SessionItem)
    → length (hide_items shown i items) ≡ length items
length-hide_items shown i [] = refl
length-hide_items shown i (it ∷ items) = ap suc (length-hide_items shown (i + 1) items)

hide_option-twice :
    (os : List QuizOption) → map hide_option (map hide_option os) ≡ map hide_option os
hide_option-twice [] = refl
hide_option-twice (o ∷ os) = ap (λ r. hide_option o ∷ r) (hide_option-twice os)

any-hide_option :
    (p : String → Bool) (os : List QuizOption)
    → any (λ o. p o.text) (map hide_option os) ≡ any (λ o. p o.text) os
any-hide_option p [] = refl
any-hide_option p (o ∷ os) = ap (λ r. p o.text || r) (any-hide_option p os)

length-map {ℓ κ} :
    {A : Type ℓ} {B : Type κ} (f : A → B) (xs : List A) → length (map f xs) ≡ length xs
length-map f [] = refl
length-map f (x ∷ xs) = ap suc (length-map f xs)

module _ (shown : ℕ → Bool) where
  pub get_elem-hide_none :
      (k i : ℕ) (items : List SessionItem)
      → get_elem? items i ≡ none
      → get_elem? (hide_items shown k items) i ≡ none
  get_elem-hide_none k i [] h = refl
  get_elem-hide_none k zero (it ∷ items) h = cc
  get_elem-hide_none k (suc i) (it ∷ items) h = get_elem-hide_none (k + 1) i items h

  get_elem-hide_some :
      (k i : ℕ) (items : List SessionItem) (it : SessionItem)
      → get_elem? items i ≡ some it
      → get_elem? (hide_items shown k items) i ≡ some (hide_at (shown (k + i)) it)
  get_elem-hide_some k i [] it h = cc
  get_elem-hide_some k zero (x ∷ items) it h =
      ap (λ o. hide_opt (shown k) o) h ∙ ap (λ n. some (hide_at (shown n) it)) (omega arith)
  get_elem-hide_some k (suc i) (x ∷ items) it h =
      get_elem-hide_some (k + 1) i items it h ∙ ap (λ n. some (hide_at (shown n) it)) (omega arith)

  pub get_elem-hide_items :
      (i : ℕ) (items : List SessionItem) (it : SessionItem)
      → get_elem? items i ≡ some it
      → get_elem? (hide_items shown 0 items) i ≡ some (hide_at (shown i) it)
  get_elem-hide_items i items it h =
      get_elem-hide_some 0 i items it h ∙ ap (λ n. some (hide_at (shown n) it)) (omega arith)

module _ (t : TextFns) where
  pub valid-hide_solution :
      (q : QuizQuestion) (answer : String)
      → valid_quiz_answer t (hide_solution q) answer ≡ valid_quiz_answer t q answer
  unfolding valid_quiz_answer
  valid-hide_solution q answer =
      rw (length-map hide_option q.options, any-hide_option (λ s. str_eq answer s) q.options) refl

  page_item-hide_solution :
      (it : SessionItem) (i : ℕ) (sanitize : Bool)
      → quiz_page_item t (hide_at false it) i false sanitize ≡ quiz_page_item t it i false sanitize
  unfolding quiz_page_item
  page_item-hide_solution it i true = rw (hide_option-twice it.question.options) refl
  page_item-hide_solution it i false = rw (hide_option-twice it.question.options) refl

  page_item-hide_at :
      (it : SessionItem) (i : ℕ) (shown sanitize : Bool)
      → quiz_page_item t (hide_at shown it) i shown sanitize ≡ quiz_page_item t it i shown sanitize
  page_item-hide_at it i true sanitize = refl
  page_item-hide_at it i false sanitize = page_item-hide_solution it i sanitize

  pub page_items-hide :
      (s : QuizSession) (c : Content) (is : List ℕ)
      → page_items t (hide_unrevealed s c) s is ≡ page_items t c s is
  unfolding page_items
  page_items-hide s c [] = refl
  page_items-hide s c (i ∷ is) = elim (Option-cases (get_elem? c.items i)) [
    | inl absent ↦
        rw (page_items, absent, get_elem-hide_none (is_revealed s) 0 i c.items absent) refl
    | inr (it, found) ↦ ground (
      arith,
      found,
      get_elem-hide_items (is_revealed s) i c.items it found,
      page_items-hide s c is,
      page_item-hide_at it i (is_revealed s i) c.sanitize,
    )
  ]

  -- A marked answer is marked the same.
  correct-hide_at :
      (shown : Bool) (it : SessionItem) (answer : String)
      → shown ≡ true
      → quiz_correct t (hide_at shown it).question answer ≡ quiz_correct t it.question answer
  correct-hide_at true it answer h = refl
  correct-hide_at false it answer h = cc

  pub all_results-hide :
      (s : QuizSession) (k : ℕ) (items : List SessionItem)
      → is_submitted s ≡ true
      → all_results t k (hide_items (is_revealed s) k items) s.answers
        ≡ all_results t k items s.answers
  unfolding all_results is_revealed
  all_results-hide s k [] h = refl
  all_results-hide s k (it ∷ items) h = elim (Option-cases (answer_at k s.answers)) [
    | inl absent ↦ rw (all_results, absent, all_results-hide s (k + 1) items h) refl
    | inr (a, found) ↦
        rw
          (
            all_results,
            found,
            all_results-hide s (k + 1) items h,
            correct-hide_at (is_revealed s k) it a (ground (arith, found, h)),
          )
          refl
  ]

  pub served_results-hide :
      (s : QuizSession) (c : Content) (is : List ℕ)
      → served_results t (hide_unrevealed s c) s is ≡ served_results t c s is
  unfolding served_results is_revealed
  served_results-hide s c [] = refl
  served_results-hide s c (i ∷ is) = elim (Option-cases (get_elem? c.items i)) [
    | inl absent ↦
        rw
          (
            served_results,
            absent,
            get_elem-hide_none (is_revealed s) 0 i c.items absent,
            served_results-hide s c is,
          )
          refl
    | inr (it, found) ↦
        let hidden = get_elem-hide_items (is_revealed s) i c.items it found in
        elim (Option-cases (answer_at i s.answers)) [
          | inl blank ↦ rw (served_results, found, hidden, blank, served_results-hide s c is) refl
          | inr (a, given) ↦ elim (Bool-cases s.instant) [
            | inr later ↦
                rw (served_results, found, hidden, given, later, served_results-hide s c is) refl
            | inl now ↦ ground (
              arith,
              found,
              hidden,
              given,
              now,
              served_results-hide s c is,
              correct-hide_at (is_revealed s i) it a,
            )
          ]
        ]
  ]

  pub page_of-hide :
      (s : QuizSession) (c : Content) (layout : String) (i : ℕ)
      → page_of (hide_unrevealed s c) layout i ≡ page_of c layout i
  unfolding page_of
  page_of-hide s c layout i = rw (length-hide_items (is_revealed s) 0 c.items) refl

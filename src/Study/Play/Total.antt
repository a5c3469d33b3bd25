-- ===== src/Study/Play/Total.antt =====
-- Actions that cannot fail.
use hquizlet_platform.Prelude.{
  ℕ, zero, suc, ◌+◌, ◌≤◌, ◌<◌, ◌≡◌, ◌≢◌, refl, ap, ◌∙◌, Bool, true, String, List, [], ◌∷◌, Option,
  none, some, map, length, get_elem?, all, count-le-length, ltb, arith, str_eq, Bool-cases,
  Option-cases, inl, inr, if◌then◌else◌,
}
use hquizlet_platform.Prelude.Int.{ℤ, pos, negsuc}
use hquizlet_platform.Study.Model.{
  SessionItem, AnswerMap, answer_at, ManifestItem, QuizSession, SessionView, PageItem,
  Outcome-cases, ok, err, panic, TextFns,
}
use hquizlet_platform.Study.Pages.{snapshot_index}
use hquizlet_platform.Study.Pages.Groups.{is_grouped, members, snapshot_index_lem}
use hquizlet_platform.Study.View.{
  Content, is_some, is_submitted, page_of, page_items, all_results, final_results, score_of,
  assemble, build_view,
}
use hquizlet_platform.Study.View.Kept.{build_view-inv, build_view-Kept}
use hquizlet_platform.Study.Play.{resolve_index, auto_submit, give_answer, perform, act_on}

-- The content of a quiz with these items.
abbrev pub content_of : List SessionItem → Bool → Content
content_of items sanitize = record {
  items = items;
  pages = (snapshot_index items).0;
  manifest = (snapshot_index items).1;
  sanitize = sanitize;
}

abbrev in_range : ℕ → List ℕ → Bool
in_range n = all (λ j. ltb j n)

abbrev map_opt {ℓ κ} : {A : Type ℓ} {B : Type κ} → (A → B) → Option A → Option B
map_opt f none = none
map_opt f (some x) = some (f x)

get_elem-map {ℓ κ} :
    {A : Type ℓ} {B : Type κ} (f : A → B) (xs : List A) (i : ℕ) (x : A)
    → get_elem? xs i ≡ some x
    → get_elem? (map f xs) i ≡ some (f x)
get_elem-map f [] i x h = cc
get_elem-map f (y ∷ xs) zero x h = ap (map_opt f) h
get_elem-map f (y ∷ xs) (suc i) x h = get_elem-map f xs i x h

get_elem-lt {ℓ} :
    {A : Type ℓ} (xs : List A) (i : ℕ) → i < length xs → (x : A) × (get_elem? xs i ≡ some x)
get_elem-lt [] i h = absurd (omega (arith, h))
get_elem-lt (x ∷ xs) zero h = (x, refl)
get_elem-lt (x ∷ xs) (suc i) h = get_elem-lt xs i (omega (arith, h))

members-in_range :
    (g start n : ℕ) (xs : List SessionItem)
    → start + length xs ≤ n
    → in_range n (members g start xs) ≡ true
members-in_range g start n [] h = refl
members-in_range g start n (x ∷ xs) h = ground (arith, h, members-in_range g (start + 1) n xs)

page_of-total :
    (items : List SessionItem) (sanitize : Bool) (layout : String) (i : ℕ)
    → is_grouped 0 items ≡ true
    → (served : List ℕ) × (page_of (content_of items sanitize) layout i ≡ some served)
      × (in_range (length items) served ≡ true)
unfolding page_of
page_of-total items sanitize layout i h = elim (Bool-cases (ltb i (length items))) [
  | inr beyond ↦ ([], rw beyond refl, refl)
  | inl within ↦ elim (Bool-cases (str_eq layout "toeic")) [
    | inr single ↦ (i ∷ [], rw (within, single) refl, ground (arith, within))
    | inl grouped ↦
        let (it, found) = get_elem-lt items i (ground (arith, within)) in
        let pages = (snapshot_index_lem items (length items) h (omega arith)).0 in
        (
          members it.group 0 items,
          rw (within, grouped, pages)
              (get_elem-map (λ y. members y.group 0 items) items i it found),
          members-in_range it.group 0 (length items) items (omega arith),
        )
  ]
]

some_of {ℓ} : {A : Type ℓ} (o : Option A) → is_some o ≡ true → (x : A) × (o ≡ some x)
some_of none h = cc
some_of (some x) h = (x, refl)

module _ (t : TextFns) where
  page_items-total :
      (c : Content) (s : QuizSession) (is : List ℕ)
      → in_range (length c.items) is ≡ true
      → is_some (page_items t c s is) ≡ true
  unfolding page_items
  page_items-total c s [] h = refl
  page_items-total c s (i ∷ is) h =
      let (it, found) = get_elem-lt c.items i (ground (arith, h)) in
      let rest = page_items-total c s is (ground (arith, h)) in
      let (page, made) = some_of (page_items t c s is) rest in ground (arith, found, made)

  build_view-total :
      (items : List SessionItem) (sanitize : Bool) (s : QuizSession) (i now : ℕ) (inc : Bool)
      → is_grouped 0 items ≡ true
      → is_some (build_view t s (content_of items sanitize) i now inc) ≡ true
  unfolding build_view
  build_view-total items sanitize s i now inc h =
      let c = content_of items sanitize in
      let (served, found, within) = page_of-total items sanitize s.layout i h in
      let (page, made) = some_of (page_items t c s served) (page_items-total c s served within) in
      ground (arith, found, made)

  resolved-lt : (index : ℤ) (current n i : ℕ) → resolve_index index current n ≡ some i → i < n
  unfolding resolve_index
  resolved-lt (pos j) current n i h = ground (arith, h)
  resolved-lt (negsuc zero) current n i h = ground (arith, h)
  resolved-lt (negsuc (suc k)) current n i h = cc

  resolved_current : (i n : ℕ) → i < n → resolve_index (negsuc 0) i n ≡ some i
  unfolding resolve_index
  resolved_current i n h = ground (arith, h)

  perform-total :
      (c : Content) (s : QuizSession) (action : String) (i : ℕ) (answer : String) (now : ℕ)
      → i < length c.items
      → perform t c s action i answer now ≢ err panic
  unfolding perform give_answer
  perform-total c s action i answer now lt e =
      let (it, found) = get_elem-lt c.items i lt in ground (arith, found, e)

  -- On the items that sessionItems makes, no action of a learner reads a page or an item out of range.
  pub act_never_panics :
      (items : List SessionItem) (sanitize : Bool) (s : QuizSession) (action : String) (index : ℤ)
      (answer : String) (now : ℕ) (inc : Bool)
      → is_grouped 0 items ≡ true
      → act_on t (content_of items sanitize) s action index answer now inc ≢ err panic
  unfolding act_on
  act_never_panics items sanitize s action index answer now inc h e =
      let c = content_of items sanitize in
      elim (Option-cases (resolve_index index s.current_index (length items))) [
        | inl absent ↦ ground (arith, absent, e)
        | inr (i, at) ↦
            let lt = resolved-lt index s.current_index (length items) i at in
            elim (Outcome-cases (perform t c (auto_submit now s) action i answer now)) [
              | inl (f, failed) ↦
                  perform-total c (auto_submit now s) action i answer now lt
                    (ground (arith, at, failed, e))
              | inr (played, done) ↦
                  let (shown, built) =
                    some_of (build_view t played c i now inc)
                      (build_view-total items sanitize played i now inc h) in
                  ground (arith, at, done, built, e)
            ]
      ]

  length-all_results :
      (k : ℕ) (items : List SessionItem) (answers : AnswerMap)
      → length (all_results t k items answers) ≤ length items
  unfolding all_results
  length-all_results k [] answers = omega arith
  length-all_results k (it ∷ items) answers = elim (Option-cases (answer_at k answers)) [
    | inl blank ↦ ground (arith, blank, length-all_results (k + 1) items answers)
    | inr (a, given) ↦ ground (arith, given, length-all_results (k + 1) items answers)
  ]

  length-final_results :
      (s : QuizSession) (c : Content) → length (final_results t s c) ≤ length c.items
  unfolding final_results
  length-final_results s c =
      ground (arith, length-all_results 0 c.items s.answers, Bool-cases (is_submitted s))

  assemble-score :
      (s : QuizSession) (total : ℕ) (manifest : List ManifestItem) (i now : ℕ) (served : List ℕ)
      (page : List PageItem) (final : List (ℕ × String × Bool))
      (marks : List (ℕ × String × Option Bool))
      → is_submitted s ≡ true
      → (assemble t s total manifest i now served page final marks).1.score
        ≡ some (score_of t final)
  unfolding assemble
  assemble-score s total manifest i now served page final marks h = rw h refl

  -- The session that the action submit makes of one.
  submitted : ℕ → QuizSession → QuizSession
  submitted now s =
      let due = auto_submit now s in
      if is_submitted due then due else record due { submitted_at = some now }

  submitted-is_submitted : (now : ℕ) (s : QuizSession) → is_submitted (submitted now s) ≡ true
  unfolding submitted
  submitted-is_submitted now s = elim (Bool-cases (is_submitted (auto_submit now s))) [
    | inl done ↦ rw (submitted, done) done
    | inr running ↦ rw (submitted, running) refl
  ]

  perform-submit :
      (c : Content) (s : QuizSession) (i : ℕ) (answer : String) (now : ℕ)
      → perform t c (auto_submit now s) "submit" i answer now ≡ ok (submitted now s)
  unfolding perform submitted
  perform-submit c s i answer now = refl

  -- What Update runs on a session for the action submit, once the request has passed the checks of
  -- access and of the rate limit and the session and its items were found, succeeds whatever the
  -- time is: on items whose groups ascend, as those of sessionItems do, and a session whose current
  -- index is one of the items, it leaves the session submitted, with a score of at most their number.
  pub submit_succeeds :
      (items : List SessionItem) (sanitize : Bool) (s : QuizSession) (now : ℕ) (inc : Bool)
      → is_grouped 0 items ≡ true
      → s.current_index < length items
      → (x : QuizSession) × (v : SessionView) × (n : ℕ) × (act_on t
            (content_of items sanitize)
            s
            "submit"
            (negsuc 0)
            ""
            now
            inc
          ≡ ok (x, v))
        × (is_submitted x ≡ true)
        × (v.score ≡ some n)
        × (n ≤ length items)
  unfolding act_on
  submit_succeeds items sanitize s now inc h lt =
      let c = content_of items sanitize in
      let i = s.current_index in
      let played = submitted now s in
      let at : resolve_index (negsuc 0) i (length items) ≡ some i =
        resolved_current i (length items) lt in
      let ((x, v), built) =
        some_of (build_view t played c i now inc)
          (build_view-total items sanitize played i now inc h) in
      let (served, page, found, made, e) = build_view-inv t played x c i now inc v built in
      let final = final_results t played c in
      let kept = ap is_submitted (build_view-Kept t played x c i now inc v built) in
      (
        x,
        v,
        score_of t final,
        ground (arith, at, perform-submit c s i "" now, built),
        kept ∙ submitted-is_submitted now s,
        ap (λ p. p.1.score) e
            ∙ assemble-score played _ _ i now served page final _ (submitted-is_submitted now s),
        omega (arith, count-le-length (λ r. r.2) final, length-final_results played c),
      )

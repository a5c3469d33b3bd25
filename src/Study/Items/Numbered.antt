-- ===== src/Study/Items/Numbered.antt =====
-- How the items of a session are numbered, grouped and assigned to parts.
use hquizlet_platform.Prelude.{
  ℕ, zero, suc, ◌+◌, ◌≤◌, ◌≡◌, refl, ap, ap₂, ==_refl, ◌∙◌, sym, Bool, true, false, ◌&&◌, String,
  List, [], ◌∷◌, ◌++◌, Option, some, map, length, length-append, all, all-append, leb, ◌==◌, arith,
  Bool-cases, Option-cases, inl, inr,
}
use hquizlet_platform.Study.Model.{QuizQuestion, SessionItem, Outcome-cases, ok, err, TextFns}
use hquizlet_platform.Study.Items.{
  part_digit, part_tag, Decoder, quiz_part, part_of, complete, arrange_options, renumber,
  child_items, children_of, items_from, session_items,
}
use hquizlet_platform.Study.Pages.{indices_from, snapshot_index}
use hquizlet_platform.Study.Pages.Groups.{
  members, snapshot_index_lem, is_grouped, is_grouped-weaken,
}

-- One of the seven parts.
abbrev pub is_part : ℕ → Bool
is_part n = leb 1 n && leb n 7

part_digit-is_part : (s : String) (n : ℕ) → part_digit s ≡ some n → is_part n ≡ true
unfolding part_digit
part_digit-is_part String.[] n h = cc
part_digit-is_part (String.◌∷◌ c s) n h = ground (arith, part_digit-is_part s n)

part_tag-is_part : (s : String) (n : ℕ) → part_tag s ≡ some n → is_part n ≡ true
unfolding part_tag
part_tag-is_part String.[] n h = cc
part_tag-is_part (String.◌∷◌ c String.[]) n h = cc
part_tag-is_part (String.◌∷◌ c (String.◌∷◌ d String.[])) n h = cc
part_tag-is_part (String.◌∷◌ c (String.◌∷◌ d (String.◌∷◌ e String.[]))) n h = cc
part_tag-is_part (String.◌∷◌ c (String.◌∷◌ d (String.◌∷◌ e (String.◌∷◌ f s)))) n h =
    ground (arith, part_digit-is_part s n)

module _ (t : TextFns) where
  quiz_part-is_part :
      (tags : List String) → (quiz_part t tags == 0) ≡ false → is_part (quiz_part t tags) ≡ true
  unfolding quiz_part
  quiz_part-is_part [] h = cc
  quiz_part-is_part (tag ∷ tags) h = elim (Option-cases (part_tag (t.trim_space tag))) [
    | inl absent ↦ ground (arith, absent, h, quiz_part-is_part tags)
    | inr (n, found) ↦ ground (arith, found, part_tag-is_part (t.trim_space tag) n found)
  ]

  part_of-is_part :
      (q child : QuizQuestion) (number : ℕ) → is_part (part_of t q child number) ≡ true
  unfolding part_of
  part_of-is_part q child number = ground (
    arith,
    quiz_part-is_part child.tags,
    quiz_part-is_part q.tags,
    Bool-cases (quiz_part t child.tags == 0),
    Bool-cases (quiz_part t q.tags == 0),
  )

  -- Items of one group, one for each child, numbered from a number on.
  record Run (number group : ℕ) (children : List QuizQuestion) (items : List SessionItem)
      : Type 0 where
    origins : map (λ i. i.group) items ≡ map (λ _. group) children
    numbers : map (λ i. i.number) items ≡ indices_from number (length items)
    groups : all (λ i. i.group == group) items ≡ true
    parts : all (λ i. is_part i.part) items ≡ true

  child_items-Run :
      (sanitize : Bool) (number group : ℕ) (q : QuizQuestion) (children : List QuizQuestion)
      (bytes left : List (Option ℕ)) (items : List SessionItem)
      → child_items t sanitize number group q children bytes ≡ ok (items, left)
      → Run number group children items
  unfolding child_items
  child_items-Run sanitize number group q [] bytes left items h =
      let e : items ≡ [] = ground (arith, h) in
      rw e (record { origins = refl; numbers = refl; groups = refl; parts = refl })
  child_items-Run sanitize number group q (child ∷ children) bytes left items h =
      let kind = (complete t sanitize q child).question_type in
      elim (Option-cases (arrange_options kind child.options bytes)) [
        | inl failed ↦ absurd (ground (arith, failed))
        | inr ((options, unused), arranged) ↦
            elim (Outcome-cases (child_items t sanitize (number + 1) group q children unused)) [
              | inl (e, failed) ↦ absurd (ground (arith, arranged, failed))
              | inr ((rest, over), made) ↦
                  let run =
                    child_items-Run sanitize (number + 1) group q children unused over rest made in
                  let item : SessionItem = record {
                    number = number;
                    part = part_of t q child number;
                    group = group;
                    question = record (complete t sanitize q child) {
                      options = renumber 0 options;
                    };
                  } in
                  let e : items ≡ item ∷ rest = ground (arith, arranged, made) in
                  rw e (record {
                    origins = ap (λ r. group ∷ r) run.origins;
                    numbers = ap (λ r. number ∷ r) run.numbers;
                    groups = ground (arith, ==_refl group, run.groups);
                    parts = ground (arith, part_of-is_part q child number, run.parts);
                  })
            ]
      ]

suc_add : (m n : ℕ) → suc m + n ≡ suc (m + n)
suc_add m n = omega arith

map-append {ℓ κ} :
    {A : Type ℓ} {B : Type κ} (f : A → B) (xs ys : List A) → map f (xs ++ ys) ≡ map f xs ++ map f ys
map-append f [] ys = refl
map-append f (x ∷ xs) ys = ap (λ r. f x ∷ r) (map-append f xs ys)

indices_from-append :
    (start m n : ℕ)
    → indices_from start (m + n) ≡ indices_from start m ++ indices_from (start + m) n
indices_from-append start zero n = ap₂ indices_from (omega arith) (omega arith)
indices_from-append start (suc m) n =
    ap (indices_from start) (suc_add m n)
    ∙ ap (λ r. start ∷ r)
        (indices_from-append (start + 1) m n
          ∙ ap (λ k. indices_from (start + 1) m ++ indices_from k n) (omega arith))

is_grouped-append :
    (low g : ℕ) (xs ys : List SessionItem)
    → low ≤ g
    → all (λ i. i.group == g) xs ≡ true
    → is_grouped g ys ≡ true
    → is_grouped low (xs ++ ys) ≡ true
is_grouped-append low g [] ys le h k = is_grouped-weaken g low ys le k
is_grouped-append low g (x ∷ xs) ys le h k =
    ground (arith, h, le, is_grouped-append x.group g xs ys)

module _ (t : TextFns) (json : Decoder) where
  -- The index of the question that each item comes from: a question with children gives as many.
  abbrev pub origins_from : ℕ → List QuizQuestion → List ℕ
  origins_from i [] = []
  origins_from i (q ∷ questions) =
      let rest = origins_from (i + 1) questions in
      elim (children_of t json q) [ err _ ↦ rest | ok children ↦ map (λ _. i) children ++ rest ]

  -- Items numbered from a number on, in groups that do not descend, each of its own question.
  record Numbered (number group : ℕ) (questions : List QuizQuestion) (items : List SessionItem)
      : Type 0 where
    origins : map (λ i. i.group) items ≡ origins_from group questions
    numbers : map (λ i. i.number) items ≡ indices_from number (length items)
    grouped : is_grouped group items ≡ true
    parts : all (λ i. is_part i.part) items ≡ true

  join :
      (number group : ℕ) (q : QuizQuestion) (questions children : List QuizQuestion)
      (front rest : List SessionItem)
      → children_of t json q ≡ ok children
      → Run t number group children front
      → Numbered (number + length front) (group + 1) questions rest
      → Numbered number group (q ∷ questions) (front ++ rest)
  join number group q questions children front rest found run more = record {
    origins =
        rw (origins_from, found)
          (map-append (λ i. i.group) front rest ∙ ap₂ (λ a b. a ++ b) run.origins more.origins);
    numbers =
        map-append (λ i. i.number) front rest
        ∙ ap₂ (λ a b. a ++ b) run.numbers more.numbers
        ∙ sym (indices_from-append number (length front) (length rest))
        ∙ ap (indices_from number) (sym (length-append front rest));
    grouped =
        is_grouped-append group group front rest (omega arith) run.groups
          (is_grouped-weaken (group + 1) group rest (omega arith) more.grouped);
    parts = all-append (λ i. is_part i.part) front rest ∙ ground (arith, run.parts, more.parts);
  }

  items_from-Numbered :
      (sanitize : Bool) (number group : ℕ) (questions : List QuizQuestion) (bytes : List (Option ℕ))
      (items : List SessionItem)
      → items_from t json sanitize number group questions bytes ≡ ok items
      → Numbered number group questions items
  unfolding items_from
  items_from-Numbered sanitize number group [] bytes items h =
      let e : items ≡ [] = ground (arith, h) in
      rw e (record { origins = refl; numbers = refl; grouped = refl; parts = refl })
  items_from-Numbered sanitize number group (q ∷ questions) bytes items h =
      elim (Outcome-cases (children_of t json q)) [
        | inl (e, failed) ↦ absurd (ground (arith, failed))
        | inr (children, found) ↦
            elim (Outcome-cases (child_items t sanitize number group q children bytes)) [
              | inl (e, failed) ↦ absurd (ground (arith, found, failed))
              | inr ((front, left), made) ↦
                  elim (Outcome-cases (
                    items_from t json sanitize (number + length front) (group + 1) questions
                      left)) [
                        | inl (e, failed) ↦ absurd (ground (arith, found, made, failed))
                        | inr (rest, last) ↦
                            let run =
                              child_items-Run t sanitize number group q children bytes left front
                                made in
                            let more =
                              items_from-Numbered sanitize (number + length front) (group + 1)
                                questions left rest last in
                            let e : items ≡ front ++ rest = ground (arith, found, made, last) in
                            rw e (join number group q questions children front rest found run more)
                      ]
            ]
      ]

  -- The items that sessionItems makes of any questions are numbered from 1 on without a gap, each has
  -- one of the seven parts and, as its group, the index of the question that it comes from: in the
  -- order of the questions, each gives one item for each of its children. The page of an item holds
  -- the indices of exactly the items of the same group, so of the same question, in their order.
  pub session_items-pages :
      (sanitize : Bool) (questions : List QuizQuestion) (bytes : List (Option ℕ))
      (items : List SessionItem)
      → session_items t json sanitize questions bytes ≡ ok items
      → (map (λ i. i.number) items ≡ indices_from 1 (length items))
        × (all (λ i. is_part i.part) items ≡ true)
        × (map (λ i. i.group) items ≡ origins_from 0 questions)
        × ((snapshot_index items).0 ≡ map (λ y. members y.group 0 items) items)
  unfolding session_items
  session_items-pages sanitize questions bytes items h =
      let n = items_from-Numbered sanitize 1 0 questions bytes items h in
      (
        n.numbers,
        n.parts,
        n.origins,
        (snapshot_index_lem items (length items) n.grouped (omega arith)).0,
      )

  pub session_items-grouped :
      (sanitize : Bool) (questions : List QuizQuestion) (bytes : List (Option ℕ))
      (items : List SessionItem)
      → session_items t json sanitize questions bytes ≡ ok items
      → is_grouped 0 items ≡ true
  unfolding session_items
  session_items-grouped sanitize questions bytes items h =
      (items_from-Numbered sanitize 1 0 questions bytes items h).grouped

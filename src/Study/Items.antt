-- ===== src/Study/Items.antt =====
-- sessionItems of services/study/internal/service/protected_quiz.go: the questions of a set as the
-- numbered items of a session. The JSON decoder and the random bytes are arguments.
pub mod Numbered
use Prim.Native.Char.{Char, code}
use hquizlet_platform.Prelude.{
  ℕ, zero, suc, ◌+◌, ◌-◌, ◌%◌, Bool, true, not, ◌&&◌, ◌||◌, String, List, [], ◌∷◌, ◌++◌, Option,
  none, some, length, ltb, leb, ◌==◌, str_eq, if◌then◌else◌,
}
use hquizlet_platform.Prelude.Int.{pos, ltb_ℤ}
use hquizlet_platform.Quiz.Shuffle.{swap_at}
use hquizlet_platform.Study.Model.{
  QuizOption, QuizQuestion, SessionItem, Outcome, ok, err, validation, internal, TextFns,
}

-- The letter of the tag "part", in either case.
abbrev is_letter : Char → ℕ → Bool
is_letter c n = (code c == n) || (code c + 32 == n)

-- `[\s_-]*([1-7])$`: the digit at the end, behind white space, underscores and dashes.
unfoldable pub part_digit : String → Option ℕ
part_digit String.[] = none
part_digit (String.◌∷◌ c s) =
    let rest = part_digit s in
    let n = code c in
    if str_eq s "" && leb b'1' n && leb n b'7'
    then some (n - b'0')
    else if (n == b' ') || (leb 9 n && leb n 13 && not (n == 11)) || (n == b'_') || (n == b'-')
    then rest
    else none

-- partTag.FindStringSubmatch
unfoldable pub part_tag : String → Option ℕ
unfolding part_digit
part_tag (String.◌∷◌ c (String.◌∷◌ d (String.◌∷◌ e (String.◌∷◌ f s)))) =
    if is_letter c b'p' && is_letter d b'a' && is_letter e b'r' && is_letter f b't'
    then part_digit s
    else none
part_tag _ = none

-- inferredPart
abbrev pub inferred_part : ℕ → ℕ
inferred_part number =
    if leb number 6
    then 1
    else if leb number 31
    then 2
    else if leb number 70
    then 3
    else if leb number 100
    then 4
    else if leb number 130
    then 5
    else if leb number 146
    then 6
    else 7

abbrev pub is_blank : Option String → Bool
is_blank none = true
is_blank (some s) = str_eq s ""

-- sort.SliceStable by the position.
abbrev insert_option : QuizOption → List QuizOption → List QuizOption
insert_option o [] = o ∷ []
insert_option o (p ∷ ps) =
    if ltb_ℤ p.position o.position then p ∷ insert_option o ps else o ∷ p ∷ ps

unfoldable pub sort_options : List QuizOption → List QuizOption
sort_options [] = []
sort_options (o ∷ os) = insert_option o (sort_options os)

-- The loop that shuffles a sorting question, from the index `i` down to 1, one random byte at a time;
-- `none` where rand.Read fails.
unfoldable pub shuffle_options :
    ℕ → List (Option ℕ) → List QuizOption → Option (List QuizOption × List (Option ℕ))
shuffle_options zero bytes os = some (os, bytes)
shuffle_options (suc i) [] os = none
shuffle_options (suc i) (none ∷ bytes) os = none
shuffle_options (suc i) (some b ∷ bytes) os =
    shuffle_options i bytes (swap_at (suc i) (b % (i + 2)) os)

-- The options in their order, or shuffled where the question asks for the order.
unfoldable pub arrange_options :
    String → List QuizOption → List (Option ℕ) → Option (List QuizOption × List (Option ℕ))
unfolding sort_options shuffle_options
arrange_options kind os bytes =
    let sorted = sort_options os in
    if str_eq kind "sorting"
    then shuffle_options (length sorted - 1) bytes sorted
    else some (sorted, bytes)

-- The loop that renumbers the options from `i` on.
unfoldable pub renumber : ℕ → List QuizOption → List QuizOption
renumber i [] = []
renumber i (o ∷ os) = record o { position = pos i; id = 0; question_id = 0 } ∷ renumber (i + 1) os

-- json.Unmarshal into a text, and into a slice of questions that holds some questions before; `none`
-- where it fails.
pub record Decoder : Type 0 where
  pub text_of : String → Option String
  pub questions_of : List QuizQuestion → String → Option (List QuizQuestion)

abbrev or_parent : Option String → Option String → Option String
or_parent child parent = if is_blank child then parent else child

module _ (t : TextFns) where
  -- quizPart; 0 where no tag names a part.
  unfoldable pub quiz_part : List String → ℕ
  unfolding part_tag
  quiz_part [] = 0
  quiz_part (tag ∷ tags) =
      let rest = quiz_part tags in elim (part_tag (t.trim_space tag)) [ some n ↦ n | none ↦ rest ]

  -- The part of a child with this number: its own tag, its parent's, or the usual one.
  unfoldable pub part_of : QuizQuestion → QuizQuestion → ℕ → ℕ
  unfolding quiz_part
  part_of q child number =
      let own = quiz_part child.tags in
      let above = quiz_part q.tags in
      if not (own == 0) then own else if not (above == 0) then above else inferred_part number

  abbrev sanitize_opt : Option String → Option String
  sanitize_opt none = none
  sanitize_opt (some s) = some (t.safe_html s)

  -- The texts of a question behind the filter.
  abbrev pub sanitize_question : QuizQuestion → QuizQuestion
  sanitize_question q = record q {
    question_text = t.safe_html q.question_text;
    paragraph_text = sanitize_opt q.paragraph_text;
    answer_explanation = sanitize_opt q.answer_explanation;
  }

  abbrev is_paragraph : QuizQuestion → Bool
  is_paragraph q = str_eq q.question_type "paragraph"

  -- The paragraph that a child shows.
  abbrev paragraph_of : QuizQuestion → QuizQuestion → Option String
  paragraph_of q child =
      if is_paragraph q
      then elim q.paragraph_text [ some p ↦ some p | none ↦ some q.question_text ]
      else child.paragraph_text

  -- The child without its sub-questions, with what it takes from its parent; the options are still
  -- those of the child.
  abbrev pub complete : Bool → QuizQuestion → QuizQuestion → QuizQuestion
  complete sanitize q child =
      let whole = record child {
        question_type =
            if str_eq child.question_type "" then "multiple_choice" else child.question_type;
        image_url = or_parent child.image_url q.image_url;
        audio_url = or_parent child.audio_url q.audio_url;
        paragraph_text = paragraph_of q child;
        sub_questions = "";
      } in
      if sanitize then sanitize_question whole else whole

  -- The loop over the children of one question.
  unfoldable pub child_items :
      Bool
      → ℕ
      → ℕ
      → QuizQuestion
      → List QuizQuestion
      → List (Option ℕ)
      → Outcome (List SessionItem × List (Option ℕ))
  unfolding part_of arrange_options renumber
  child_items sanitize number group q [] bytes = ok ([], bytes)
  child_items sanitize number group q (child ∷ children) bytes =
      let whole = complete sanitize q child in
      elim (arrange_options whole.question_type child.options bytes) [
        | none ↦ err internal
        | some (options, left) ↦ elim (child_items sanitize (number + 1) group q children left) [
          | err e ↦ err e
          | ok (items, rest) ↦
              let item : SessionItem = record {
                number = number;
                part = part_of q child number;
                group = group;
                question = record whole { options = renumber 0 options };
              } in
              ok (item ∷ items, rest)
        ]
      ]

  module _ (json : Decoder) where
    -- The children of a question: itself, or the sub-questions of a paragraph; at most 100.
    unfoldable pub children_of : QuizQuestion → Outcome (List QuizQuestion)
    children_of q =
        let raw : String = elim (json.text_of q.sub_questions) [
          | some s ↦ s
          | none ↦ q.sub_questions
        ] in
        if not (is_paragraph q) then ok (q ∷ []) else elim (json.questions_of (q ∷ []) raw) [
          | none ↦ err validation
          | some children ↦ if ltb 100 (length children) then err validation else ok children
        ]

    -- The loop over the questions, from the number and the group of the next item on.
    unfoldable pub items_from :
        Bool → ℕ → ℕ → List QuizQuestion → List (Option ℕ) → Outcome (List SessionItem)
    unfolding child_items children_of
    items_from sanitize number group [] bytes = ok []
    items_from sanitize number group (q ∷ questions) bytes = elim (children_of q) [
      | err e ↦ err e
      | ok children ↦ elim (child_items sanitize number group q children bytes) [
        | err e ↦ err e
        | ok (items, left) ↦
            elim (items_from sanitize (number + length items) (group + 1) questions left) [
              | err e ↦ err e
              | ok rest ↦ ok (items ++ rest)
            ]
      ]
    ]

    -- sessionItems
    unfoldable pub session_items :
        Bool → List QuizQuestion → List (Option ℕ) → Outcome (List SessionItem)
    unfolding items_from
    session_items sanitize questions bytes = items_from sanitize 1 0 questions bytes

-- ===== src/Quiz/Engine.antt =====
-- services/quiz/internal/engine/engine.go: the questions of a study set, and the marking of answers.
pub mod Pages
pub mod Options
use Prim.Native.Nat.{bit_xor}
use hquizlet_platform.Prelude.{
  ℕ, zero, suc, ◌+◌, ◌%◌, ◌^◌, Bool, true, false, not, ◌&&◌, ◌||◌, String, List, [], ◌∷◌, ◌++◌,
  Option, none, some, length, take, drop, any, leb, ltb, ◌==◌, str_eq, if◌then◌else◌,
}
use hquizlet_platform.Prelude.Int.{ℤ, pos, negsuc, pos_part, eq_ℤ, ltb_ℤ, is_positive}
use hquizlet_platform.Prelude.Text.{append}
use hquizlet_platform.Prelude.Decimal.{format_int}
use hquizlet_platform.Quiz.Shuffle.{shuffle}

-- Flashcard of internal/studyclient/client.go
pub record Flashcard : Type 0 where
  pub id : ℤ
  pub study_set_id : ℤ
  pub term : String
  pub definition : String
  pub starred : Bool
  pub position : ℤ

pub record Item : Type 0 where
  pub id : String
  pub flashcard_id : ℤ
  pub kind : String
  pub text : String
  pub term : String
  pub definition : String
  pub choices : List String
  pub pair_id : String
  pub starred : Bool
  pub position : ℕ

-- The modes that validMode accepts.
pub data Mode : Type 0 where
  flashcards learn test match : Mode

pub data EngineError : Type 0 where
  invalid duplicate : EngineError

pub data Outcome {ℓ} (A : Type ℓ) : Type ℓ where
  ok : A → Outcome A
  err : EngineError → Outcome A

-- validMode, with the mode that was found.
unfoldable pub parse_mode : String → Option Mode
parse_mode mode =
    if str_eq mode "flashcards"
    then some flashcards
    else if str_eq mode "learn"
    then some learn
    else if str_eq mode "test"
    then some test
    else if str_eq mode "match"
    then some match
    else none

abbrev pub max_limit : Mode → ℕ
max_limit flashcards = 5000
max_limit _ = 500

-- id: the loop leaves the text of a negative number empty.
unfoldable pub id_text : ℤ → String
id_text (pos n) = format_int n
id_text (negsuc n) = ""

-- The map `seen` of choices has the texts of `unique` as its keys.
abbrev pub seen : List String → String → Bool
seen unique d = any (λ s. str_eq s d) unique

-- The loop of choices.
unfoldable pub gather : ℤ → List Flashcard → List String → List String
gather target [] unique = unique
gather target (c ∷ cs) unique =
    let fresh = not (eq_ℤ c.id target) && not (seen unique c.definition) in
    let grown = if fresh then unique ++ c.definition ∷ [] else unique in
    let rest = gather target cs grown in if fresh && (length grown == 4) then grown else rest

-- choices
unfoldable pub choices : List Flashcard → Flashcard → ℕ → List String
unfolding gather
choices cards target seed =
    shuffle (gather target.id (shuffle cards seed) (target.definition ∷ []))
      (bit_xor seed 0xd1b54a32d192ed03)

-- The items of one card of the page; the seed of its choices wraps around at 2^64.
unfoldable pub card_items : Mode → List Flashcard → ℕ → ℕ → Flashcard → List Item
card_items mode cards seed i card =
    let base : Item = record {
      id = id_text card.id;
      flashcard_id = card.id;
      kind = "question";
      text = "";
      term = card.term;
      definition = card.definition;
      choices = [];
      pair_id = "";
      starred = card.starred;
      position = i;
    } in
    let pair = append "card-" (id_text card.id) in
    let half : String → String → String → Item = λ suffix kind text. record {
      id = append pair suffix;
      flashcard_id = card.id;
      kind = kind;
      text = text;
      term = "";
      definition = "";
      choices = [];
      pair_id = pair;
      starred = false;
      position = i;
    } in
    elim mode [
      | flashcards ↦ base ∷ []
      | learn ↦ base ∷ []
      | test ↦
          record base { definition = ""; choices = choices cards card ((seed + i + 1) % 2 ^ 64) }
          ∷ []
      | match ↦ half "-term" "term" card.term ∷ half "-definition" "definition" card.definition ∷ []
    ]

-- The loop of Generate.
unfoldable pub page_items : Mode → List Flashcard → ℕ → ℕ → List Flashcard → List Item
page_items mode cards seed i [] = []
page_items mode cards seed i (card ∷ deck) =
    card_items mode cards seed i card ++ page_items mode cards seed (i + 1) deck

abbrev pub is_match : Mode → Bool
is_match match = true
is_match _ = false

-- Generate
unfoldable pub generate : List Flashcard → String → ℕ → ℤ → ℤ → Outcome (List Item)
unfolding page_items
generate cards name seed limit offset = elim (parse_mode name) [
  | none ↦ err invalid
  | some mode ↦
      let deck = shuffle cards seed in
      let page = take (pos_part limit) (drop (pos_part offset) deck) in
      let items = page_items mode cards seed 0 page in
      if ltb_ℤ limit (pos 1) || ltb_ℤ (pos (max_limit mode)) limit || ltb_ℤ offset (pos 0)
      then err invalid
      else if leb (length deck) (pos_part offset)
      then ok []
      else ok (if is_match mode then shuffle items (bit_xor seed 0x9e3779b97f4a7c15) else items)
]

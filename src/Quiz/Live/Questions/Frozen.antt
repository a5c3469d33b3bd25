-- ===== src/Quiz/Live/Questions/Frozen.antt =====
-- The right choice of a frozen question.
use Prim.Native.Nat.{bit_xor}
use hquizlet_platform.Prelude.{
  ℕ, zero, suc, ◌+◌, ◌≡◌, refl, ap, ◌∙◌, Bool, true, not, ◌&&◌, String, List, [], ◌∷◌, ◌++◌, take,
  drop, all, arith, count-append, count-perm, all-perm, str_eq, eq_iff, ◌==◌, ◌%◌, ◌^◌,
}
use hquizlet_platform.Prelude.Int.{ℤ, pos, pos_part}
use hquizlet_platform.Quiz.Shuffle.{shuffle}
use hquizlet_platform.Quiz.Shuffle.Permutes.{shuffle-perm}
use hquizlet_platform.Quiz.Engine.{
  Flashcard, Item, test, ok, parse_mode, gather, choices, card_items, page_items, generate,
}
use hquizlet_platform.Quiz.Engine.Options.{occurrences}
use hquizlet_platform.Quiz.Live.Questions.{correct_choice, freeze}

-- The card has a definition.
abbrev pub has_text : Flashcard → Bool
has_text c = not (str_eq c.definition "")

gather-text :
    (target : ℤ) (cs : List Flashcard) (unique : List String)
    → all has_text cs ≡ true
    → occurrences "" unique ≡ 0
    → occurrences "" (gather target cs unique) ≡ 0
unfolding gather
gather-text target [] unique h k = k
gather-text target (c ∷ cs) unique h k = ground (
  arith,
  count-append (λ s. str_eq s "") unique (c.definition ∷ []),
  gather-text target cs unique,
  gather-text target cs (unique ++ c.definition ∷ []),
)

choices-text :
    (cards : List Flashcard) (target : Flashcard) (seed : ℕ)
    → all has_text cards ≡ true
    → has_text target ≡ true
    → occurrences "" (choices cards target seed) ≡ 0
unfolding choices
choices-text cards target seed h k =
    count-perm (λ s. str_eq s "") (shuffle-perm _ (bit_xor seed 0xd1b54a32d192ed03))
    ∙ gather-text target.id (shuffle cards seed) (target.definition ∷ [])
        (all-perm has_text (shuffle-perm cards seed) ∙ h) (ground arith)

-- The item has lost its definition, and no choice of it is empty.
abbrev is_blank : Item → Bool
is_blank i = str_eq i.definition "" && (occurrences "" i.choices == 0)

page_items-blank :
    (cards : List Flashcard) (seed i : ℕ) (deck : List Flashcard)
    → all has_text cards ≡ true
    → all has_text deck ≡ true
    → all is_blank (page_items test cards seed i deck) ≡ true
unfolding page_items card_items
page_items-blank cards seed i [] h k = refl
page_items-blank cards seed i (c ∷ deck) h k = ground (
  arith,
  choices-text cards c ((seed + i + 1) % 2 ^ 64) h,
  page_items-blank cards seed (i + 1) deck h,
)

correct_choice-zero :
    (ci : ℕ) (cs : List String) → occurrences "" cs ≡ 0 → correct_choice "" ci cs ≡ 0
unfolding correct_choice
correct_choice-zero ci [] h = refl
correct_choice-zero ci (c ∷ cs) h = ground (arith, correct_choice-zero (ci + 1) cs)

freeze-zero :
    (i : ℕ) (items : List Item)
    → all is_blank items ≡ true
    → all (λ q. q.correct_index == 0) (freeze i items) ≡ true
unfolding freeze
freeze-zero i [] h = refl
freeze-zero i (item ∷ items) h = ground (
  arith,
  (eq_iff item.definition "").0,
  λ (e : item.definition ≡ ""). ap (λ d. correct_choice d 0 item.choices) e,
  correct_choice-zero 0 item.choices,
  freeze-zero (i + 1) items,
)

freeze-nil : freeze 0 [] ≡ []
unfolding freeze
freeze-nil = refl

all-take : (n : ℕ) (cs : List Flashcard) → all has_text cs ≡ true → all has_text (take n cs) ≡ true
all-take zero cs h = refl
all-take (suc n) [] h = refl
all-take (suc n) (c ∷ cs) h = ground (arith, all-take n cs)

all-drop : (n : ℕ) (cs : List Flashcard) → all has_text cs ≡ true → all has_text (drop n cs) ≡ true
all-drop zero cs h = h
all-drop (suc n) [] h = refl
all-drop (suc n) (c ∷ cs) h = ground (arith, all-drop n cs)

-- Every question that is frozen for a live session takes the choice 0 for the right one, whatever its
-- choices are: the mode test leaves the definition of an item empty, and the loop looks for it. The
-- cards are supposed to have definitions.
pub frozen_choice_is_zero :
    (cards : List Flashcard) (seed : ℕ) (limit : ℤ) (items : List Item)
    → all has_text cards ≡ true
    → generate cards "test" seed limit (pos 0) ≡ ok items
    → all (λ q. q.correct_index == 0) (freeze 0 items) ≡ true
unfolding generate parse_mode
frozen_choice_is_zero cards seed limit items h made =
    let deck = shuffle cards seed in
    let page = take (pos_part limit) (drop 0 deck) in
    let blank : all is_blank (page_items test cards seed 0 page) ≡ true =
      page_items-blank cards seed 0 page h (
        all-take (pos_part limit) (drop 0 deck)
          (all-drop 0 deck (all-perm has_text (shuffle-perm cards seed) ∙ h))) in
    ground (arith, made, freeze-zero 0 (page_items test cards seed 0 page) blank, freeze-nil)

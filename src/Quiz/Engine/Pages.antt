-- ===== src/Quiz/Engine/Pages.antt =====
-- Generate page by page: the pages of a quiz share out the cards.
use mathlib.Core.List.{Perm}
use hquizlet_platform.Prelude.{
  ℕ, zero, suc, ◌+◌, ◌*◌, ◌≤◌, ◌≡◌, refl, sym, ap, ap₂, ◌∙◌, false, String, List, [], ◌∷◌, ◌++◌,
  some, map, length, take, drop, arith, length-perm, map-perm,
}
use hquizlet_platform.Prelude.Int.{ℤ, pos}
use hquizlet_platform.Quiz.Shuffle.{shuffle}
use hquizlet_platform.Quiz.Shuffle.Permutes.{shuffle-perm}
use hquizlet_platform.Quiz.Engine.{
  Flashcard, Item, Mode, max_limit, is_match, parse_mode, Outcome, ok, err, card_items, page_items,
  generate,
}

-- The cards that a page asks about.
abbrev pub card_ids : Outcome (List Item) → List ℤ
card_ids (ok items) = map (λ i. i.flashcard_id) items
card_ids (err _) = []

-- The cards of `n` pages in a row.
abbrev pub paged_ids : List Flashcard → String → ℕ → ℕ → ℕ → ℕ → List ℤ
paged_ids cards mode seed limit zero offset = []
paged_ids cards mode seed limit (suc n) offset =
    card_ids (generate cards mode seed (pos limit) (pos offset))
    ++ paged_ids cards mode seed limit n (offset + limit)

module _ {ℓ} {A : Type ℓ} where
  drop_all : (xs : List A) (n : ℕ) → length xs ≤ n → drop n xs ≡ []
  drop_all [] zero h = refl
  drop_all [] (suc n) h = refl
  drop_all (x ∷ xs) zero h = absurd (omega arith)
  drop_all (x ∷ xs) (suc n) h = drop_all xs n (omega arith)

  take-nil : (n : ℕ) → take {A = A} n [] ≡ []
  take-nil zero = refl
  take-nil (suc n) = refl

  take_all : (xs : List A) (n : ℕ) → length xs ≤ n → take n xs ≡ xs
  take_all [] zero h = refl
  take_all [] (suc n) h = refl
  take_all (x ∷ xs) zero h = absurd (omega arith)
  take_all (x ∷ xs) (suc n) h = ap (λ r. x ∷ r) (take_all xs n (omega arith))

  drop-drop : (xs : List A) (m o : ℕ) → drop m (drop o xs) ≡ drop (o + m) xs
  drop-drop xs m zero = ap (λ k. drop k xs) (omega arith)
  drop-drop [] zero (suc o) = rw (drop_all [] (suc o + zero) (omega arith)) refl
  drop-drop [] (suc m) (suc o) = rw (drop_all [] (suc o + suc m) (omega arith)) refl
  drop-drop (x ∷ xs) m (suc o) =
      let e : suc o + m ≡ suc (o + m) = omega arith in rw e (drop-drop xs m o)

  take-append-take : (xs : List A) (m n : ℕ) → take m xs ++ take n (drop m xs) ≡ take (m + n) xs
  take-append-take xs zero n = ap (λ k. take k xs) (omega arith)
  take-append-take [] (suc m) zero = rw (take_all [] (suc m + zero) (omega arith)) refl
  take-append-take [] (suc m) (suc n) = rw (take_all [] (suc m + suc n) (omega arith)) refl
  take-append-take (x ∷ xs) (suc m) n =
      let e : suc m + n ≡ suc (m + n) = omega arith in
      rw e (ap (λ r. x ∷ r) (take-append-take xs m n))

map-append : (f : Flashcard → ℤ) (xs ys : List Flashcard) → map f (xs ++ ys) ≡ map f xs ++ map f ys
map-append f [] ys = refl
map-append f (x ∷ xs) ys = ap (λ r. f x ∷ r) (map-append f xs ys)

page_items-ids :
    (mode : Mode) (cards : List Flashcard) (seed i : ℕ) (deck : List Flashcard)
    → is_match mode ≡ false
    → map (λ x. x.flashcard_id) (page_items mode cards seed i deck) ≡ map (λ c. c.id) deck
unfolding page_items card_items
page_items-ids mode cards seed i [] h = refl
page_items-ids mode cards seed i (c ∷ deck) h =
    ground (arith, page_items-ids mode cards seed (i + 1) deck)

module _ (cards : List Flashcard) (name : String) (mode : Mode) (seed limit : ℕ)
    (known : parse_mode name ≡ some mode) (single : is_match mode ≡ false) (lower : 1 ≤ limit)
    (upper : limit ≤ max_limit mode) where
  abbrev deck : List Flashcard
  deck = shuffle cards seed

  abbrev deck_ids : ℕ → ℕ → List ℤ
  deck_ids n offset = map (λ c. c.id) (take n (drop offset deck))

  generate-ids :
      (offset : ℕ)
      → card_ids (generate cards name seed (pos limit) (pos offset)) ≡ deck_ids limit offset
  unfolding generate
  generate-ids offset = ground (
    arith,
    known,
    page_items-ids mode cards seed 0 (take limit (drop offset deck)) single,
    drop_all deck offset,
    take-nil {A = Flashcard} limit,
  )

  paged_ids-deck :
      (n offset : ℕ) → paged_ids cards name seed limit n offset ≡ deck_ids (n * limit) offset
  paged_ids-deck zero offset = let e : 0 ≡ 0 * limit = omega arith in ap (λ k. deck_ids k offset) e
  paged_ids-deck (suc n) offset =
      let rest = drop offset deck in
      let e : limit + n * limit ≡ suc n * limit = omega arith in
      let ids : List Flashcard → List ℤ = map (λ c. c.id) in
      ap₂ (λ a b. a ++ b) (generate-ids offset)
        (paged_ids-deck n (offset + limit)
          ∙ ap (λ r. ids (take (n * limit) r)) (sym (drop-drop deck limit offset)))
      ∙ sym (map-append (λ c. c.id) (take limit rest) (take (n * limit) (drop limit rest)))
      ∙ ap ids (take-append-take rest limit (n * limit))
      ∙ ap (λ k. ids (take k rest)) e

-- The pages of one seed, read one after the other with the same limit until they reach past the end
-- of the deck, ask about every card once: no page repeats a card of another, and none is lost. This is
-- for the modes with one item for each card, and a limit that Generate accepts.
pub pages_share_cards :
    (cards : List Flashcard) (name : String) (mode : Mode) (seed limit n : ℕ)
    → parse_mode name ≡ some mode
    → is_match mode ≡ false
    → 1 ≤ limit
    → limit ≤ max_limit mode
    → length cards ≤ n * limit
    → Perm (paged_ids cards name seed limit n 0) (map (λ c. c.id) cards)
pages_share_cards cards name mode seed limit n known single lower upper enough =
    let mixed = shuffle-perm cards seed in
    rw
      (
        paged_ids-deck cards name mode seed limit known single lower upper n 0,
        take_all (shuffle cards seed) (n * limit) (omega (arith, length-perm mixed)),
      )
      (map-perm (λ c. c.id) mixed)

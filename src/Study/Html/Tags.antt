-- ===== src/Study/Html/Tags.antt =====
-- Which tags the filtered HTML has.
use Prim.Native.Char.{code}
use hquizlet_platform.Prelude.{
  ◌≡◌, refl, ap, ◌∙◌, Bool, true, false, not, ◌&&◌, ◌||◌, String, List, [], ◌∷◌, any, all, arith,
  ◌==◌, str_eq, eq_iff, Bool-cases, inl, inr, or_intro_right, if◌then◌else◌,
}
use hquizlet_platform.Prelude.Text.{append, has_prefix, has_prefix-append}
use hquizlet_platform.Study.Html.{
  Node, Nodes, text_node, element_node, other_node, nil, cons, allowed_tags, blocked_tags, has_tag,
  has_less_than, open_tag, close_tag, tagged, alt_texts, visit, visit_all,
}

-- The text after a character '<' begins with an allowed tag that has no attributes.
abbrev pub is_tag : String → Bool
is_tag s =
    any (λ t. has_prefix s (append t ">") || has_prefix s (append "/" (append t ">"))) allowed_tags

-- Every character '<' opens an allowed tag, without attributes.
abbrev pub only_tags : String → Bool
only_tags String.[] = true
only_tags (String.◌∷◌ c s) = (if code c == b'<' then is_tag s else true) && only_tags s

append_assoc : (r s t : String) → append (append r s) t ≡ append r (append s t)
append_assoc String.[] s t = refl
append_assoc (String.◌∷◌ c r) s t = ap (λ x. String.◌∷◌ c x) (append_assoc r s t)

-- What holds at one of the texts holds at some of them.
any-has_tag :
    (p : String → Bool) (t : String) (ts : List String)
    → has_tag t ts ≡ true
    → p t ≡ true
    → any p ts ≡ true
any-has_tag p t [] h k = cc
any-has_tag p t (x ∷ ts) h k = elim (Bool-cases (str_eq t x)) [
  | inl same ↦ ground (arith, k, ap p ((eq_iff t x).0 same))
  | inr differs ↦ ground (arith, differs, any-has_tag p t ts)
]

all-has_tag :
    (p : String → Bool) (t : String) (ts : List String)
    → has_tag t ts ≡ true
    → all p ts ≡ true
    → p t ≡ true
all-has_tag p t [] h k = cc
all-has_tag p t (x ∷ ts) h k = elim (Bool-cases (str_eq t x)) [
  | inl same ↦ ground (arith, ap p ((eq_iff t x).0 same))
  | inr differs ↦ ground (arith, differs, all-has_tag p t ts)
]

plain : String → Bool
plain s = not (has_less_than s)

tag-plain : (t : String) → has_tag t allowed_tags ≡ true → has_less_than t ≡ false
unfolding plain allowed_tags
tag-plain t h = ground (arith, all-has_tag plain t allowed_tags h refl)

-- A text without the character '<' changes nothing.
only_tags-plain : (s r : String) → has_less_than s ≡ false → only_tags (append s r) ≡ only_tags r
only_tags-plain String.[] r h = refl
only_tags-plain (String.◌∷◌ c s) r h = ground (arith, only_tags-plain s r)

-- In front of any text, an allowed tag between its brackets is a tag.
is_tag-open :
    (t r : String) → has_tag t allowed_tags ≡ true → is_tag (append (append t ">") r) ≡ true
is_tag-open t r h =
    any-has_tag _ t allowed_tags h (ground (arith, has_prefix-append (append t ">") r))

is_tag-close :
    (t r : String)
    → has_tag t allowed_tags ≡ true
    → is_tag (append (append "/" (append t ">")) r) ≡ true
is_tag-close t r h =
    any-has_tag _ t allowed_tags h
      (or_intro_right _ _ (has_prefix-append (append "/" (append t ">")) r))

only_tags-closing :
    (t r : String)
    → has_tag t allowed_tags ≡ true
    → only_tags (append (append t ">") r) ≡ only_tags r
only_tags-closing t r h =
    ap only_tags (append_assoc t ">" r) ∙ only_tags-plain t (append ">" r) (tag-plain t h)

only_tags-open_tag :
    (t r : String) → has_tag t allowed_tags ≡ true → only_tags (append (open_tag t) r) ≡ only_tags r
only_tags-open_tag t r h = ground (arith, is_tag-open t r h, only_tags-closing t r h)

only_tags-close_tag :
    (t r : String)
    → has_tag t allowed_tags ≡ true
    → only_tags (append (close_tag t) r) ≡ only_tags r
only_tags-close_tag t r h = ground (arith, is_tag-close t r h, only_tags-closing t r h)

-- A text that, in front of any other, brings only allowed tags.
abbrev IsClean : String → Type 0
IsClean s = (r : String) → only_tags (append s r) ≡ only_tags r

append-IsClean : (s t : String) → IsClean s → IsClean t → IsClean (append s t)
append-IsClean s t hs ht r = ap only_tags (append_assoc s t r) ∙ hs (append t r) ∙ ht r

tagged-IsClean : (t inner : String) → IsClean inner → IsClean (tagged t inner)
tagged-IsClean t inner h = elim (Bool-cases (has_tag t allowed_tags)) [
  | inr other ↦ rw other h
  | inl allowed ↦
      let opened : IsClean (open_tag t) = λ r. only_tags-open_tag t r allowed in
      let closed : IsClean (close_tag t) = λ r. only_tags-close_tag t r allowed in
      elim (Bool-cases (str_eq t "br")) [
        | inl void ↦
            rw (allowed, void)
              (append-IsClean (open_tag t) _ opened (append-IsClean inner "" h (λ r. refl)))
        | inr normal ↦
            rw (allowed, normal)
              (append-IsClean (open_tag t) _ opened (append-IsClean inner (close_tag t) h closed))
      ]
]

module _ (escape : String → String)
    (escaped : (s : String) → has_less_than (escape s) ≡ false) where
  alt_texts-IsClean : (attrs : List (String × String)) → IsClean (alt_texts escape attrs)
  unfolding alt_texts
  alt_texts-IsClean [] = λ r. refl
  alt_texts-IsClean ((key, value) ∷ attrs) = elim (Bool-cases (str_eq key "alt")) [
    | inl alt ↦ rw alt (
        append-IsClean (escape value) _ (λ r. only_tags-plain (escape value) r (escaped value))
          (alt_texts-IsClean attrs))
    | inr other ↦ rw other (alt_texts-IsClean attrs)
  ]

  mutual
    unfolding visit visit_all

    visit-IsClean : (n : Node) → IsClean (visit escape n)
    visit-IsClean (text_node s) = λ r. only_tags-plain (escape s) r (escaped s)
    visit-IsClean (element_node t attrs children) =
        let inside = visit_all-IsClean children in
        elim (Bool-cases (has_tag t blocked_tags)) [
          | inl blocked ↦ rw blocked (λ r. refl)
          | inr shown ↦ elim (Bool-cases (str_eq t "img")) [
            | inl image ↦ rw (shown, image) (alt_texts-IsClean attrs)
            | inr other ↦ rw (shown, other) (tagged-IsClean t (visit_all escape children) inside)
          ]
        ]
    visit-IsClean (other_node children) = visit_all-IsClean children

    visit_all-IsClean : (ns : Nodes) → IsClean (visit_all escape ns)
    visit_all-IsClean nil = λ r. refl
    visit_all-IsClean (cons n ns) =
        append-IsClean (visit escape n) (visit_all escape ns) (visit-IsClean n)
          (visit_all-IsClean ns)

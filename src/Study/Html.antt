-- ===== src/Study/Html.antt =====
-- services/study/internal/service/quiz_html.go: the HTML that a learner may be sent. html.Parse and
-- html.EscapeString are arguments; a parsed document is a tree of nodes.
pub mod Tags
use Prim.Native.Char.{code}
use hquizlet_platform.Prelude.{
  Bool, true, false, not, ◌&&◌, ◌||◌, String, List, [], ◌∷◌, Option, none, some, any, ◌==◌, str_eq,
  if◌then◌else◌,
}
use hquizlet_platform.Prelude.Text.{append}

-- html.Node: a text, an element with its attributes and children, or another node with children.
mutual
  pub data Node : Type 0 where
    text_node : String → Node
    element_node : String → List (String × String) → Nodes → Node
    other_node : Nodes → Node

  pub data Nodes : Type 0 where
    nil : Nodes
    cons : Node → Nodes → Nodes

unfoldable pub allowed_tags : List String
allowed_tags =
    "p" ∷ "br" ∷ "b" ∷ "strong" ∷ "em" ∷ "i" ∷ "u" ∷ "ul" ∷ "ol" ∷ "li" ∷ "table" ∷ "tbody"
    ∷ "thead" ∷ "tr" ∷ "td" ∷ "th" ∷ "blockquote" ∷ "span" ∷ "div" ∷ "sup" ∷ "sub" ∷ []

unfoldable pub blocked_tags : List String
blocked_tags =
    "head" ∷ "script" ∷ "style" ∷ "iframe" ∷ "object" ∷ "embed" ∷ "audio" ∷ "video" ∷ "source"
    ∷ "link" ∷ "meta" ∷ []

abbrev pub has_tag : String → List String → Bool
has_tag t = any (λ x. str_eq t x)

-- strings.Contains(s, "<")
abbrev pub has_less_than : String → Bool
has_less_than String.[] = false
has_less_than (String.◌∷◌ c s) = (code c == b'<') || has_less_than s

abbrev pub open_tag : String → String
open_tag t = append "<" (append t ">")

abbrev pub close_tag : String → String
close_tag t = append "</" (append t ">")

-- What is written for an element around what its children write.
abbrev pub tagged : String → String → String
tagged t inner =
    if has_tag t allowed_tags
    then append (open_tag t) (append inner (if not (str_eq t "br") then close_tag t else ""))
    else inner

module _ (escape : String → String) where
  -- The alternative texts of an image.
  unfoldable pub alt_texts : List (String × String) → String
  alt_texts [] = ""
  alt_texts ((key, value) ∷ attrs) =
      append (if str_eq key "alt" then escape value else "") (alt_texts attrs)

  -- visit: the text that it writes.
  unfoldable mutual
    unfolding alt_texts

    pub visit : Node → String
    visit (text_node s) = escape s
    visit (element_node t attrs children) =
        let inner = visit_all children in
        if has_tag t blocked_tags
        then ""
        else if str_eq t "img"
        then alt_texts attrs
        else tagged t inner
    visit (other_node children) = visit_all children

    pub visit_all : Nodes → String
    visit_all nil = ""
    visit_all (cons n ns) = append (visit n) (visit_all ns)

  -- safeQuizHTML; `parse` gives `none` where html.Parse fails.
  unfoldable pub safe_quiz_html : (String → Option Node) → String → String
  unfolding visit
  safe_quiz_html parse raw =
      if not (has_less_than raw) then raw else elim (parse raw) [ none ↦ "" | some doc ↦ visit doc ]

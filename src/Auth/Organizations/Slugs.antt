-- ===== src/Auth/Organizations/Slugs.antt =====
-- What a slug is made of.
use Prim.Native.Char.{Char, code}
use hquizlet_platform.Prelude.{
  ◌≡◌, refl, Bool, true, false, not, ◌&&◌, ◌||◌, String, List, [], ◌∷◌, Option, none, some, all,
  arith, ltb, ◌==◌, Bool-cases, inl, inr,
}
use hquizlet_platform.Prelude.Text.{has_prefix}
use hquizlet_platform.Auth.Model.{AuthFns}
use hquizlet_platform.Auth.Organizations.{
  vietnamese_fold, fold_in, write_letter, trim_left, cons_trimmed, trim_right, slug_of, slugify,
}

abbrev pub all_chars : (Char → Bool) → String → Bool
all_chars p String.[] = true
all_chars p (String.◌∷◌ c s) = p c && all_chars p s

abbrev pub is_ascii : Char → Bool
is_ascii c = ltb (code c) 128

ascii_fold :
    (c a : Char) (table : List (Char × String))
    → all (λ e. is_ascii e.0) table ≡ true
    → fold_in c table ≡ some a
    → is_ascii a ≡ true
ascii_fold c a [] h e = cc
ascii_fold c a ((to, from) ∷ table) h e = ground (arith, ascii_fold c a table)

ascii_letter :
    (c : Char) (o : Option Char) (s : String)
    → ((a : Char) → o ≡ some a → is_ascii a ≡ true)
    → all_chars is_ascii s ≡ true
    → all_chars is_ascii (write_letter c o s) ≡ true
ascii_letter c none s h e = ground arith
ascii_letter c (some a) s h e = ground (arith, h a refl)

ascii-trim_left :
    (s : String) → all_chars is_ascii s ≡ true → all_chars is_ascii (trim_left s) ≡ true
ascii-trim_left String.[] e = refl
ascii-trim_left (String.◌∷◌ c s) e = ground (arith, ascii-trim_left s)

ascii-cons_trimmed :
    (c : Char) (s : String)
    → is_ascii c ≡ true
    → all_chars is_ascii s ≡ true
    → all_chars is_ascii (cons_trimmed c s) ≡ true
ascii-cons_trimmed c String.[] h e = elim (Bool-cases (code c == b'-')) [
  | inl dashed ↦ rw dashed refl
  | inr other ↦ rw other (ground (arith, h))
]
ascii-cons_trimmed c (String.◌∷◌ d s) h e = ground arith

ascii-trim_right :
    (s : String) → all_chars is_ascii s ≡ true → all_chars is_ascii (trim_right s) ≡ true
ascii-trim_right String.[] e = refl
ascii-trim_right (String.◌∷◌ c s) e =
    ground (arith, ascii-trim_right s, ascii-cons_trimmed c (trim_right s))

no_dash-trim_left : (s : String) → has_prefix (trim_left s) "-" ≡ false
no_dash-trim_left String.[] = refl
no_dash-trim_left (String.◌∷◌ c s) = ground (arith, no_dash-trim_left s)

no_dash-cons_trimmed :
    (c : Char) (s : String) → (code c == b'-') ≡ false → has_prefix (cons_trimmed c s) "-" ≡ false
no_dash-cons_trimmed c String.[] h = ground arith
no_dash-cons_trimmed c (String.◌∷◌ d s) h = ground arith

no_dash-trim_right : (s : String) → has_prefix s "-" ≡ false → has_prefix (trim_right s) "-" ≡ false
no_dash-trim_right String.[] h = refl
no_dash-trim_right (String.◌∷◌ c s) h = ground (arith, no_dash-cons_trimmed c (trim_right s))

module _ (t : AuthFns) where
  ascii-slug_of : (b : Bool) (s : String) → all_chars is_ascii (slug_of t b s) ≡ true
  unfolding slug_of
  ascii-slug_of b String.[] = refl
  ascii-slug_of b (String.◌∷◌ r s) =
      let table : all (λ e. is_ascii e.0) vietnamese_fold ≡ true = unfold vietnamese_fold in refl in
      let named = t.is_letter r || t.is_digit r in
      let rest = ascii-slug_of (not named) s in
      ground (
        arith,
        rest,
        ascii_letter r (fold_in r vietnamese_fold) (slug_of t (not named) s)
            (λ a e. ascii_fold r a vietnamese_fold table e) rest,
      )

  -- The slug that is made of a name has only ASCII characters, also where the name has letters of
  -- other alphabets, and does not begin with a dash.
  pub slugify_clean :
      (name : String)
      → (all_chars is_ascii (slugify t name) ≡ true) × (has_prefix (slugify t name) "-" ≡ false)
  unfolding slugify
  slugify_clean name =
      let s = slug_of t true (t.lower name) in
      (
        ascii-trim_right (trim_left s) (ascii-trim_left s (ascii-slug_of true (t.lower name))),
        no_dash-trim_right (trim_left s) (no_dash-trim_left s),
      )

-- ===== src/Authz/Headers/Words.antt =====
-- The texts of the role headers: words of printing ASCII.
use Prim.Native.Char.{Char, code}
use hquizlet_platform.Prelude.{
  ℕ, ◌<◌, suc, ◌≡◌, refl, ap, Bool, true, false, not, ◌&&◌, String, List, [], ◌∷◌, some, All, arith,
  leb, ◌==◌, str_eq, eq_iff, Bool-cases, inl, inr,
}
use hquizlet_platform.Prelude.Text.{append}
use hquizlet_platform.Prelude.Decimal.{digit_char, format_int}
use hquizlet_platform.Prelude.Trim.{all_chars, join_comma, is_blank, digit_code, format-digits_only}
use hquizlet_platform.Authz.Headers.{format_org_role, cut_colon}

-- What unicode.IsSpace says of printing ASCII.
abbrev pub SparesAscii : (Char → Bool) → Type 0
SparesAscii is_space = (c : Char) → leb 33 (code c) && leb (code c) 126 ≡ true → is_space c ≡ false

-- A role key as the platform names them: printing ASCII without a comma or a colon, and not empty.
abbrev pub is_word : Char → Bool
is_word c = leb 33 (code c) && leb (code c) 126 && not (code c == b',') && not (code c == b':')

abbrev pub is_key : String → Bool
is_key s = not (is_blank s) && all_chars is_word s

pub all_chars-imp :
    (p q : Char → Bool) (s : String)
    → ((c : Char) → p c ≡ true → q c ≡ true)
    → all_chars p s ≡ true
    → all_chars q s ≡ true
all_chars-imp p q String.[] f h = refl
all_chars-imp p q (String.◌∷◌ c s) f h = ground (arith, f c, all_chars-imp p q s f)

pub all_chars-append :
    (p : Char → Bool) (s r : String)
    → all_chars p s ≡ true
    → all_chars p r ≡ true
    → all_chars p (append s r) ≡ true
all_chars-append p String.[] r h k = k
all_chars-append p (String.◌∷◌ c s) r h k = ground (arith, all_chars-append p s r)

pub not_blank-nonempty : (s : String) → is_blank s ≡ false → str_eq s "" ≡ false
not_blank-nonempty String.[] h = cc
not_blank-nonempty (String.◌∷◌ c s) h = elim (Bool-cases (str_eq (String.◌∷◌ c s) "")) [
  | inl e ↦ cc (ap is_blank ((eq_iff (String.◌∷◌ c s) "").0 e))
  | inr differs ↦ differs
]

pub not_blank-append : (s r : String) → is_blank s ≡ false → is_blank (append s r) ≡ false
not_blank-append String.[] r h = cc
not_blank-append (String.◌∷◌ c s) r h = refl

-- Text that may stand in a header: printing ASCII.
abbrev pub dense : Char → Bool
dense c = leb 33 (code c) && leb (code c) 126

pub join-dense :
    (l : List String)
    → All (λ x. all_chars dense x ≡ true) l
    → all_chars dense (join_comma l) ≡ true
join-dense [] h = refl
join-dense (s ∷ []) h = h.0
join-dense (s ∷ (t ∷ l)) h =
    all_chars-append dense s (String.◌∷◌ "," (join_comma (t ∷ l))) h.0
      (ground (arith, join-dense (t ∷ l) h.1))

pub join-not_blank :
    (s : String) (l : List String) → is_blank s ≡ false → is_blank (join_comma (s ∷ l)) ≡ false
join-not_blank s [] h = h
join-not_blank s (t ∷ l) h = not_blank-append s _ h

pub cut_colon-append :
    (s r : String)
    → all_chars (λ c. not (code c == b':')) s ≡ true
    → cut_colon (append s (String.◌∷◌ ":" r)) ≡ some (s, r)
unfolding cut_colon
cut_colon-append String.[] r h = refl
cut_colon-append (String.◌∷◌ c s) r h = ground (arith, cut_colon-append s r)

-- A digit is a character of a word.
pub digit_words : (d : ℕ) → d < 10 → is_word (digit_char d) ≡ true
digit_words d h = ground (arith, digit_code d h)

pub format-words : (n : ℕ) → all_chars is_word (format_int n) ≡ true
unfolding format_int
format-words n = format-digits_only (suc n) n "" is_word digit_words (omega arith) refl

pub word-dense : (c : Char) → is_word c ≡ true → dense c ≡ true
word-dense c h = ground arith

pub word-no_colon : (c : Char) → is_word c ≡ true → not (code c == b':') ≡ true
word-no_colon c h = ground arith

pub words-dense : (s : String) → all_chars is_word s ≡ true → all_chars dense s ≡ true
words-dense s h = all_chars-imp is_word dense s word-dense h

pub format-dense :
    (org : ℕ) (role : String)
    → is_key role ≡ true
    → all_chars dense (format_org_role org role) ≡ true
unfolding format_org_role
format-dense org role key =
    all_chars-append dense (format_int org) (append ":" role)
      (words-dense (format_int org) (format-words org)) (words-dense role (ground (arith, key)))

-- ===== src/Prelude/Text.antt =====
-- The functions of Go's package strings that the program calls, on native texts. A text is read by
-- its characters; all separators here are ASCII, so Go's byte positions give the same pieces.
use Prim.Native.Char.{Char, code}
use hquizlet_platform.Prelude.{
  ℕ, ◌+◌, ltb, String, ◌≡◌, refl, Bool, true, false, ◌&&◌, ◌||◌, List, [], ◌∷◌, arith, ◌==◌,
  ==_refl, str_eq, if◌then◌else◌,
}

-- s + t
abbrev pub append : String → String → String
append String.[] t = t
append (String.◌∷◌ c s) t = String.◌∷◌ c (append s t)

-- len(s): the bytes of the text in UTF-8.
abbrev pub byte_length : String → ℕ
byte_length String.[] = 0
byte_length (String.◌∷◌ c s) =
    (if ltb (code c) 128
      then 1
      else if ltb (code c) 2048
      then 2
      else if ltb (code c) 65536
      then 3
      else 4)
    + byte_length s

-- strings.HasPrefix(s, p)
abbrev pub has_prefix : String → String → Bool
has_prefix s String.[] = true
has_prefix String.[] (String.◌∷◌ d p) = false
has_prefix (String.◌∷◌ c s) (String.◌∷◌ d p) = code c == code d && has_prefix s p

-- strings.HasSuffix(s, t)
abbrev pub has_suffix : String → String → Bool
has_suffix String.[] t = str_eq "" t
has_suffix (String.◌∷◌ c s) t = str_eq (String.◌∷◌ c s) t || has_suffix s t

-- strings.TrimSuffix(s, t)
abbrev pub trim_suffix : String → String → String
trim_suffix String.[] t = ""
trim_suffix (String.◌∷◌ c s) t =
    let rest = trim_suffix s t in if str_eq (String.◌∷◌ c s) t then "" else String.◌∷◌ c rest

abbrev cons_first : Char → List String → List String
cons_first c [] = String.◌∷◌ c "" ∷ []
cons_first c (s ∷ rest) = String.◌∷◌ c s ∷ rest

-- strings.Split(s, ",")
abbrev pub split_comma : String → List String
split_comma String.[] = "" ∷ []
split_comma (String.◌∷◌ c s) =
    let rest = split_comma s in if code c == b',' then "" ∷ rest else cons_first c rest

pub has_prefix-append : (p s : String) → has_prefix (append p s) p ≡ true
has_prefix-append String.[] s = refl
has_prefix-append (String.◌∷◌ c p) s = ground (arith, ==_refl (code c), has_prefix-append p s)

split_two : split_comma "Teacher,Admin" ≡ "Teacher" ∷ "Admin" ∷ []
split_two = refl

trim_star : (trim_suffix "hq:class/*" "/*" ≡ "hq:class") × (trim_suffix "live:*" ":" ≡ "live:*")
trim_star = (refl, refl)

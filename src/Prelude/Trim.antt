-- ===== src/Prelude/Trim.antt =====
-- strings.TrimSpace, strings.Join and strconv.ParseInt on native texts. What counts as white space is
-- an argument: unicode.IsSpace.
use Prim.Native.Char.{Char, code}
use hquizlet_platform.Prelude.{
  ℕ, zero, suc, ◌+◌, ◌-◌, ◌*◌, ◌/◌, ◌%◌, ◌^◌, ◌<◌, ◌≡◌, refl, ap, ◌∙◌, Bool, true, false, not, ◌&&◌,
  String, List, [], ◌∷◌, Option, none, some, All, arith, ltb, leb, ◌==◌, Bool-cases, inl, inr,
  if◌then◌else◌,
}
use hquizlet_platform.Prelude.Text.{append, split_comma}
use hquizlet_platform.Prelude.Decimal.{digit_char, format_digits, format_int}
use hquizlet_platform.Prelude.Int.{ℤ, pos, negsuc}

abbrev pub all_chars : (Char → Bool) → String → Bool
all_chars p String.[] = true
all_chars p (String.◌∷◌ c s) = p c && all_chars p s

module _ (is_space : Char → Bool) where
  unfoldable pub trim_left : String → String
  trim_left String.[] = ""
  trim_left (String.◌∷◌ c s) = let rest = trim_left s in if is_space c then rest else String.◌∷◌ c s

  abbrev cons_trimmed : Char → String → String
  cons_trimmed c String.[] = if is_space c then "" else String.◌∷◌ c ""
  cons_trimmed c (String.◌∷◌ d s) = String.◌∷◌ c (String.◌∷◌ d s)

  unfoldable pub trim_right : String → String
  trim_right String.[] = ""
  trim_right (String.◌∷◌ c s) = cons_trimmed c (trim_right s)

  unfoldable pub trim : String → String
  unfolding trim_left trim_right
  trim s = trim_right (trim_left s)

  cons_trimmed-dense :
      (c : Char) (s : String) → is_space c ≡ false → cons_trimmed c s ≡ String.◌∷◌ c s
  cons_trimmed-dense c String.[] h = rw h refl
  cons_trimmed-dense c (String.◌∷◌ d s) h = refl

  trim_right-dense : (s : String) → all_chars (λ c. not (is_space c)) s ≡ true → trim_right s ≡ s
  unfolding trim_right
  trim_right-dense String.[] h = refl
  trim_right-dense (String.◌∷◌ c s) h = ground (arith, trim_right-dense s, cons_trimmed-dense c s)

  trim_left-dense : (s : String) → all_chars (λ c. not (is_space c)) s ≡ true → trim_left s ≡ s
  unfolding trim_left
  trim_left-dense String.[] h = refl
  trim_left-dense (String.◌∷◌ c s) h = ground arith

  -- A text without white space is trimmed to itself.
  pub trim-dense : (s : String) → all_chars (λ c. not (is_space c)) s ≡ true → trim s ≡ s
  unfolding trim
  trim-dense s h = rw (trim_left-dense s h) (trim_right-dense s h)

-- strings.Join(l, ",")
abbrev pub join_comma : List String → String
join_comma [] = ""
join_comma (s ∷ []) = s
join_comma (s ∷ (t ∷ l)) = append s (String.◌∷◌ "," (join_comma (t ∷ l)))

abbrev pub has_no_comma : String → Bool
has_no_comma = all_chars (λ c. not (code c == b','))

split_comma-plain : (s : String) → has_no_comma s ≡ true → split_comma s ≡ s ∷ []
split_comma-plain String.[] h = refl
split_comma-plain (String.◌∷◌ c s) h = ground (arith, split_comma-plain s)

split_comma-append :
    (s r : String)
    → has_no_comma s ≡ true
    → split_comma (append s (String.◌∷◌ "," r)) ≡ s ∷ split_comma r
split_comma-append String.[] r h = refl
split_comma-append (String.◌∷◌ c s) r h = ground (arith, split_comma-append s r)

-- Splitting a joined list gives its texts back.
pub split-join :
    (s : String) (l : List String)
    → All (λ x. has_no_comma x ≡ true) (s ∷ l)
    → split_comma (join_comma (s ∷ l)) ≡ s ∷ l
split-join s [] h = split_comma-plain s h.0
split-join s (t ∷ l) h =
    split_comma-append s (join_comma (t ∷ l)) h.0 ∙ ap (λ r. s ∷ r) (split-join t l h.1)

abbrev pub is_digit : Char → Bool
is_digit c = leb b'0' (code c) && leb (code c) b'9'

-- The digits of a text after a number that is read already.
unfoldable pub parse_digits : ℕ → String → Option ℕ
parse_digits n String.[] = some n
parse_digits n (String.◌∷◌ c s) =
    let rest = parse_digits (n * 10 + (code c - b'0')) s in if is_digit c then rest else none

unfoldable pub parse_nat : String → Option ℕ
parse_nat String.[] = none
parse_nat (String.◌∷◌ c s) = parse_digits 0 (String.◌∷◌ c s)

abbrev in_range : ℕ → Option ℕ → Option ℕ
in_range bound none = none
in_range bound (some n) = if ltb n bound then some n else none

abbrev negate : Option ℕ → Option ℤ
negate none = none
negate (some zero) = some (pos 0)
negate (some (suc n)) = some (negsuc n)

abbrev positive : Option ℕ → Option ℤ
positive none = none
positive (some n) = some (pos n)

-- strconv.ParseInt(s, 10, 64); `none` is an error.
unfoldable pub parse_int : String → Option ℤ
unfolding parse_nat
parse_int String.[] = none
parse_int (String.◌∷◌ c s) =
    if code c == b'-'
    then negate (in_range (2 ^ 63 + 1) (parse_nat s))
    else if code c == b'+'
    then positive (in_range (2 ^ 63) (parse_nat s))
    else positive (in_range (2 ^ 63) (parse_nat (String.◌∷◌ c s)))

pub digit_code :
    (d : ℕ) → d < 10 → (is_digit (digit_char d) ≡ true) × (code (digit_char d) - b'0' ≡ d)
digit_code zero h = (refl, refl)
digit_code (suc zero) h = (refl, refl)
digit_code (suc (suc zero)) h = (refl, refl)
digit_code (suc (suc (suc zero))) h = (refl, refl)
digit_code (suc (suc (suc (suc zero)))) h = (refl, refl)
digit_code (suc (suc (suc (suc (suc zero))))) h = (refl, refl)
digit_code (suc (suc (suc (suc (suc (suc zero)))))) h = (refl, refl)
digit_code (suc (suc (suc (suc (suc (suc (suc zero))))))) h = (refl, refl)
digit_code (suc (suc (suc (suc (suc (suc (suc (suc zero)))))))) h = (refl, refl)
digit_code (suc (suc (suc (suc (suc (suc (suc (suc (suc zero))))))))) h = (refl, refl)
digit_code (suc (suc (suc (suc (suc (suc (suc (suc (suc (suc n)))))))))) h = absurd (omega arith)

parse_digits-digit :
    (n d : ℕ) (s : String)
    → d < 10
    → parse_digits n (String.◌∷◌ (digit_char d) s) ≡ parse_digits (n * 10 + d) s
unfolding parse_digits
parse_digits-digit n d s h = rw ((digit_code d h).0, (digit_code d h).1) refl

parse_digits-format :
    (fuel n : ℕ) (s : String)
    → n < fuel
    → parse_digits 0 (format_digits fuel n s) ≡ parse_digits n s
unfolding format_digits
parse_digits-format zero n s h = elim h [ ]
parse_digits-format (suc fuel) n s h = elim (Bool-cases (ltb n 10)) [
  | inl small ↦
      let same : 0 * 10 + n ≡ n = omega arith in
      rw small (parse_digits-digit 0 n s (ground arith) ∙ ap (λ k. parse_digits k s) same)
  | inr large ↦
      let back : n / 10 * 10 + n % 10 ≡ n = omega arith in
      rw large (
        parse_digits-format fuel (n / 10) (String.◌∷◌ (digit_char (n % 10)) s) (ground arith)
        ∙ parse_digits-digit (n / 10) (n % 10) s (omega arith)
        ∙ ap (λ k. parse_digits k s) back)
]

parse-format : (n : ℕ) → parse_digits 0 (format_int n) ≡ some n
unfolding format_int parse_digits
parse-format n = parse_digits-format (suc n) n "" (omega arith)

abbrev pub is_blank : String → Bool
is_blank String.[] = true
is_blank (String.◌∷◌ c s) = false

pub format-not_blank :
    (fuel n : ℕ) (s : String) → n < fuel → is_blank (format_digits fuel n s) ≡ false
unfolding format_digits
format-not_blank zero n s h = elim h [ ]
format-not_blank (suc fuel) n s h = elim (Bool-cases (ltb n 10)) [
  | inl small ↦ rw small refl
  | inr large ↦
      rw large (format-not_blank fuel (n / 10) (String.◌∷◌ (digit_char (n % 10)) s) (ground arith))
]

parse_int-digits :
    (s : String) (n : ℕ)
    → is_blank s ≡ false
    → parse_digits 0 s ≡ some n
    → n < 2 ^ 63
    → parse_int s ≡ some (pos n)
unfolding parse_int parse_digits
parse_int-digits String.[] n h e b = cc
parse_int-digits (String.◌∷◌ c s) n h e b = ground arith

-- A number of 63 bits that is written is read back.
pub parse_int-format : (n : ℕ) → n < 2 ^ 63 → parse_int (format_int n) ≡ some (pos n)
unfolding format_int
parse_int-format n h =
    parse_int-digits (format_int n) n (format-not_blank (suc n) n "" (omega arith)) (parse-format n)
      h

-- The digits of a number are digits.
pub format-digits_only :
    (fuel n : ℕ) (s : String) (p : Char → Bool)
    → ((d : ℕ) → d < 10 → p (digit_char d) ≡ true)
    → n < fuel
    → all_chars p s ≡ true
    → all_chars p (format_digits fuel n s) ≡ true
unfolding format_digits
format-digits_only zero n s p good h e = elim h [ ]
format-digits_only (suc fuel) n s p good h e = elim (Bool-cases (ltb n 10)) [
  | inl small ↦ rw small (ground (arith, good n))
  | inr large ↦ rw large (
      format-digits_only fuel (n / 10) (String.◌∷◌ (digit_char (n % 10)) s) p good (ground arith)
        (ground (arith, good (n % 10), e)))
]

-- ===== src/Authz/Headers/Trips.antt =====
-- Roles that are written into a header are read back.
use Prim.Native.Char.{Char, code}
use hquizlet_platform.Prelude.{
  ℕ, ◌<◌, ◌^◌, suc, ◌≡◌, refl, ap, ◌∙◌, Bool, true, false, not, ◌&&◌, ◌||◌, String, List, [], ◌∷◌,
  map, some, All, any, arith, ◌==◌, str_eq,
}
use hquizlet_platform.Prelude.Int.{ℤ, pos}
use hquizlet_platform.Prelude.Text.{append}
use hquizlet_platform.Prelude.Decimal.{format_int}
use hquizlet_platform.Prelude.Trim.{
  all_chars, trim, trim-dense, join_comma, has_no_comma, split-join, parse_int-format, is_blank,
  format-not_blank,
}
use hquizlet_platform.Authz.Principal.{contains, org_entry}
use hquizlet_platform.Authz.Headers.{
  format_org_role, cut_colon, add_role, keep_roles, parse_platform_roles, parse_entry, note_entry,
  collect, parse_org_roles,
}
use hquizlet_platform.Authz.Headers.Words.{
  SparesAscii, is_word, is_key, all_chars-imp, all_chars-append, not_blank-nonempty,
  not_blank-append, dense, join-dense, join-not_blank, cut_colon-append, format-words,
  word-no_colon, words-dense, format-dense,
}
use hquizlet_platform.Authz.Headers.Entries.{contains-add_role}

-- A role of an organization, with an id of 63 bits.
abbrev pub IsGrant : ℕ × String → Type 0
IsGrant (org, role) = (0 < org) × (org < 2 ^ 63) × (is_key role ≡ true)

abbrev pub wire : ℕ × String → String
wire (org, role) = format_org_role org role

module _ (is_space : Char → Bool) (spares : SparesAscii is_space) where
  trim_plain : (s : String) → all_chars dense s ≡ true → trim is_space s ≡ s
  trim_plain s h =
      trim-dense is_space s
        (all_chars-imp dense (λ c. not (is_space c)) s (λ c d. ground (arith, spares c d)) h)

  -- The entry of a role key is read as written.
  parse_entry-format :
      (org : ℕ) (role : String)
      → 0 < org
      → org < 2 ^ 63
      → is_key role ≡ true
      → parse_entry is_space (format_org_role org role) ≡ some (pos org, role)
  unfolding parse_entry
  parse_entry-format org role h b key =
      let words : all_chars is_word role ≡ true = ground (arith, key) in
      let solid : is_blank role ≡ false = ground (arith, key) in
      let num = format_int org in
      rw
        (
          trim_plain (format_org_role org role) (format-dense org role key),
          not_blank-nonempty (format_org_role org role) (format_org-not_blank org role),
          cut_format org role,
          not_blank-nonempty num (format_int-not_blank org),
          not_blank-nonempty role solid,
          trim_plain num (words-dense num (format-words org)),
          parse_int-format org b,
          trim_plain role (words-dense role words),
          not_blank-nonempty role solid,
        )
        (ground arith)
    where
      format_int-not_blank : (n : ℕ) → is_blank (format_int n) ≡ false
      format_int-not_blank n = unfold format_int in format-not_blank (suc n) n "" (omega arith)

      format_org-not_blank : (n : ℕ) (r : String) → is_blank (format_org_role n r) ≡ false
      format_org-not_blank n r =
          unfold format_org_role in not_blank-append (format_int n) _ (format_int-not_blank n)

      cut_format : (n : ℕ) (r : String) → cut_colon (format_org_role n r) ≡ some (format_int n, r)
      cut_format n r =
          unfold format_org_role in
          cut_colon-append (format_int n) r (
            all_chars-imp is_word (λ c. not (code c == b':')) (format_int n) word-no_colon
              (format-words n))

  collect-format :
      (l : List (ℕ × String)) (m : List (ℤ × List String)) (k : ℕ) (r : String)
      → All IsGrant l
      → contains (org_entry (pos k) (collect is_space (map wire l) m)) r
        ≡ (contains (org_entry (pos k) m) r || any (λ e. (e.0 == k) && str_eq e.1 r) l)
  unfolding collect
  collect-format [] m k r h = ground arith
  collect-format ((org, role) ∷ l) m k r h =
      let (low, high, key) = h.0 in
      let first =
        ap
          (λ e.
            contains (org_entry (pos k) (collect is_space (map wire l) (note_entry is_space e m)))
              r)
          (parse_entry-format org role low high key) in
      first
      ∙ ground (
        arith,
        collect-format l (add_role (pos org) role m) k r h.1,
        contains-add_role (pos org) role m (pos k) r,
      )

  -- The texts of a header: no white space, no comma, not empty.
  abbrev IsPart : String → Type 0
  IsPart s = (all_chars dense s ≡ true) × (has_no_comma s ≡ true) × (is_blank s ≡ false)

  parts-dense : (l : List String) → All IsPart l → All (λ x. all_chars dense x ≡ true) l
  parts-dense [] h = tt
  parts-dense (s ∷ l) h = (h.0.0, parts-dense l h.1)

  parts-no_comma : (l : List String) → All IsPart l → All (λ x. has_no_comma x ≡ true) l
  parts-no_comma [] h = tt
  parts-no_comma (s ∷ l) h = (h.0.1, parts-no_comma l h.1)

  trim-join : (l : List String) → All IsPart l → trim is_space (join_comma l) ≡ join_comma l
  trim-join l h = trim_plain (join_comma l) (join-dense l (parts-dense l h))

  join-nonempty :
      (s : String) (l : List String) → All IsPart (s ∷ l) → str_eq (join_comma (s ∷ l)) "" ≡ false
  join-nonempty s l h = not_blank-nonempty (join_comma (s ∷ l)) (join-not_blank s l h.0.2)

  word-no_comma : (c : Char) → is_word c ≡ true → not (code c == b',') ≡ true
  word-no_comma c h = ground arith

  key-IsPart : (s : String) → is_key s ≡ true → IsPart s
  key-IsPart s h =
      let words : all_chars is_word s ≡ true = ground (arith, h) in
      (
        words-dense s words,
        all_chars-imp is_word (λ c. not (code c == b',')) s word-no_comma words,
        ground (arith, h),
      )

  keys-IsPart : (l : List String) → All (λ x. is_key x ≡ true) l → All IsPart l
  keys-IsPart [] h = tt
  keys-IsPart (s ∷ l) h = (key-IsPart s h.0, keys-IsPart l h.1)

  grant-IsPart : (org : ℕ) (role : String) → is_key role ≡ true → IsPart (format_org_role org role)
  unfolding format_org_role
  grant-IsPart org role key =
      let num = format_int org in
      let part = key-IsPart role key in
      (
        format-dense org role key,
        all_chars-append (λ c. not (code c == b',')) num (append ":" role)
            (all_chars-imp is_word (λ c. not (code c == b',')) num word-no_comma (format-words org))
            (ground (arith, part.1)),
        not_blank-append num (append ":" role)
            (unfold format_int in format-not_blank (suc org) org "" (omega arith)),
      )

  grants-IsPart : (l : List (ℕ × String)) → All IsGrant l → All IsPart (map wire l)
  grants-IsPart [] h = tt
  grants-IsPart ((org, role) ∷ l) h = (grant-IsPart org role h.0.2, grants-IsPart l h.1)

  keep_roles-keys : (l : List String) → All (λ x. is_key x ≡ true) l → keep_roles is_space l ≡ l
  unfolding keep_roles
  keep_roles-keys [] h = refl
  keep_roles-keys (s ∷ l) h =
      let part = key-IsPart s h.0 in
      rw (trim_plain s part.0, not_blank-nonempty s part.2, keep_roles-keys l h.1) refl

  -- The organization roles of a user are read from the header as they were written into it: for
  -- ids of 63 bits and role keys of printing ASCII without a comma or a colon, a service that parses
  -- the joined entries finds a role in an organization exactly if an entry names the two.
  pub org_roles_round_trip :
      (l : List (ℕ × String)) (k : ℕ) (r : String)
      → All IsGrant l
      → contains (org_entry (pos k) (parse_org_roles is_space (join_comma (map wire l)))) r
        ≡ any (λ e. (e.0 == k) && str_eq e.1 r) l
  unfolding parse_org_roles
  org_roles_round_trip [] k r h = rw (trim_plain "" refl) refl
  org_roles_round_trip ((org, role) ∷ l) k r h =
      let parts = grants-IsPart ((org, role) ∷ l) h in
      let texts = map wire ((org, role) ∷ l) in
      rw
        (
          trim-join texts parts,
          join-nonempty (wire (org, role)) (map wire l) parts,
          split-join (wire (org, role)) (map wire l) (parts-no_comma texts parts),
        )
        (collect-format ((org, role) ∷ l) [] k r h)

  -- The platform roles of a user are read from the header as they were written into it.
  pub platform_roles_round_trip :
      (roles : List String)
      → All (λ x. is_key x ≡ true) roles
      → parse_platform_roles is_space (join_comma roles) ≡ roles
  unfolding parse_platform_roles
  platform_roles_round_trip [] h = rw (trim_plain "" refl) refl
  platform_roles_round_trip (s ∷ l) h =
      let parts = keys-IsPart (s ∷ l) h in
      rw
        (
          trim-join (s ∷ l) parts,
          join-nonempty s l parts,
          split-join s l (parts-no_comma (s ∷ l) parts),
        )
        (keep_roles-keys (s ∷ l) h)

-- ===== src/Authz/Headers.antt =====
-- packages/authz/principal.go: the roles of an actor on the wire between the services.
pub mod Words
pub mod Entries
pub mod Trips
use Prim.Native.Char.{Char, code}
use hquizlet_platform.Prelude.{
  ℕ, Bool, true, false, not, ◌&&◌, ◌||◌, String, List, [], ◌∷◌, ◌++◌, Option, none, some, ◌==◌,
  str_eq, if◌then◌else◌,
}
use hquizlet_platform.Prelude.Int.{ℤ, eq_ℤ, is_positive}
use hquizlet_platform.Prelude.Text.{append, split_comma}
use hquizlet_platform.Prelude.Decimal.{format_int}
use hquizlet_platform.Prelude.Trim.{trim, parse_int}
use hquizlet_platform.Authz.Principal.{contains, org_entry}

-- FormatOrgRole, of a positive id.
unfoldable pub format_org_role : ℕ → String → String
format_org_role org role = append (format_int org) (append ":" role)

abbrev put_first : Char → String × String → String × String
put_first c (l, r) = (String.◌∷◌ c l, r)

abbrev map_first : Char → Option (String × String) → Option (String × String)
map_first c none = none
map_first c (some p) = some (put_first c p)

-- The text before and behind the first colon, as strings.Index finds it.
unfoldable pub cut_colon : String → Option (String × String)
cut_colon String.[] = none
cut_colon (String.◌∷◌ c s) =
    let rest = cut_colon s in if code c == b':' then some ("", s) else map_first c rest

-- out[orgID] = append(out[orgID], role), of a role that is not there yet.
unfoldable pub add_role : ℤ → String → List (ℤ × List String) → List (ℤ × List String)
add_role org role [] = (org, role ∷ []) ∷ []
add_role org role ((j, roles) ∷ m) =
    let rest = add_role org role m in
    if eq_ℤ j org
    then (j, if contains roles role then roles else roles ++ role ∷ []) ∷ m
    else (j, roles) ∷ rest

module _ (is_space : Char → Bool) where
  -- The loop of ParsePlatformRoles.
  unfoldable pub keep_roles : List String → List String
  keep_roles [] = []
  keep_roles (p ∷ ps) =
      let rest = keep_roles ps in
      if str_eq (trim is_space p) "" then rest else trim is_space p ∷ rest

  -- ParsePlatformRoles
  unfoldable pub parse_platform_roles : String → List String
  unfolding keep_roles
  parse_platform_roles header =
      let h = trim is_space header in if str_eq h "" then [] else keep_roles (split_comma h)

  -- The organization and the role of an entry, unless it is skipped.
  unfoldable pub parse_entry : String → Option (ℤ × String)
  parse_entry raw =
      let e = trim is_space raw in
      if str_eq e "" then none else elim (cut_colon e) [
        | none ↦ none
        | some (l, r) ↦
            if str_eq l "" || str_eq r "" then none else elim (parse_int (trim is_space l)) [
              | none ↦ none
              | some org ↦
                  if not (is_positive org)
                  then none
                  else if str_eq (trim is_space r) ""
                  then none
                  else some (org, trim is_space r)
            ]
      ]

  abbrev pub note_entry : Option (ℤ × String) → List (ℤ × List String) → List (ℤ × List String)
  note_entry none m = m
  note_entry (some (org, role)) m = add_role org role m

  -- The loop of ParseOrgRoles.
  unfoldable pub collect : List String → List (ℤ × List String) → List (ℤ × List String)
  unfolding parse_entry
  collect [] m = m
  collect (entry ∷ entries) m = collect entries (note_entry (parse_entry entry) m)

  -- ParseOrgRoles
  unfoldable pub parse_org_roles : String → List (ℤ × List String)
  unfolding collect
  parse_org_roles header =
      let h = trim is_space header in if str_eq h "" then [] else collect (split_comma h) []

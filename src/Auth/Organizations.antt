-- ===== src/Auth/Organizations.antt =====
-- services/auth/internal/service/organizations.go, with CreateOrganization of repository/iam.go.
pub mod Slugs
pub mod Kept
use Prim.Native.Char.{Char, code}
use hquizlet_platform.Prelude.{
  ℕ, ◌+◌, Bool, true, false, not, ◌&&◌, ◌||◌, String, List, [], ◌∷◌, Option, none, some, any, ltb,
  ◌==◌, str_eq, if◌then◌else◌,
}
use hquizlet_platform.Prelude.Int.{ℤ, pos, is_positive}
use hquizlet_platform.Authz.Actions.{org_create}
use hquizlet_platform.Authz.Principal.{Actor}
use hquizlet_platform.Auth.Model.{
  Organization, AuthDb, conflict, internal, validation, Reply, ok, err, create_org, Faults, AuthFns,
}
use hquizlet_platform.Auth.Sessions.{audit}
use hquizlet_platform.Auth.Iam.{require_platform, entry, audit_denied}

-- vietnameseFold, by the letter that it gives.
unfoldable pub vietnamese_fold : List (Char × String)
vietnamese_fold =
    ("a", "àáảãạăằắẳẵặâầấẩẫậ")
    ∷ ("d", "đ")
    ∷ ("e", "èéẻẽẹêềếểễệ")
    ∷ ("i", "ìíỉĩị")
    ∷ ("o", "òóỏõọôồốổỗộơờớởỡợ")
    ∷ ("u", "ùúủũụưừứửữự")
    ∷ ("y", "ỳýỷỹỵ")
    ∷ []

abbrev pub has_char : Char → String → Bool
has_char c String.[] = false
has_char c (String.◌∷◌ d s) = (code c == code d) || has_char c s

-- transliterate
abbrev pub fold_in : Char → List (Char × String) → Option Char
fold_in c [] = none
fold_in c ((to, from) ∷ table) = if has_char c from then some to else fold_in c table

-- What is written for a letter or a digit, in front of the rest.
abbrev pub write_letter : Char → Option Char → String → String
write_letter c (some a) rest = String.◌∷◌ a rest
write_letter c none rest = if ltb (code c) 128 then String.◌∷◌ c rest else rest

abbrev pub dash : String → String
dash s = String.◌∷◌ "-" s

-- strings.Trim(s, "-")
abbrev pub trim_left : String → String
trim_left String.[] = ""
trim_left (String.◌∷◌ c s) =
    let rest = trim_left s in if code c == b'-' then rest else String.◌∷◌ c s

abbrev pub cons_trimmed : Char → String → String
cons_trimmed c String.[] = if code c == b'-' then "" else String.◌∷◌ c ""
cons_trimmed c (String.◌∷◌ d s) = String.◌∷◌ c (String.◌∷◌ d s)

abbrev pub trim_right : String → String
trim_right String.[] = ""
trim_right (String.◌∷◌ c s) = cons_trimmed c (trim_right s)

module _ (t : AuthFns) where
  -- The loop of SlugifyOrgName; `last_dash` after a turn is whether it was no letter and no digit.
  unfoldable pub slug_of : Bool → String → String
  slug_of last_dash String.[] = ""
  slug_of last_dash (String.◌∷◌ r s) =
      let named = t.is_letter r || t.is_digit r in
      let rest = slug_of (not named) s in
      if named
      then write_letter r (fold_in r vietnamese_fold) rest
      else if last_dash
      then rest
      else dash rest

  -- SlugifyOrgName
  unfoldable pub slugify : String → String
  slugify name = trim_right (trim_left (slug_of true (t.lower name)))

  -- The number of runes.
  abbrev pub rune_count : String → ℕ
  rune_count String.[] = 0
  rune_count (String.◌∷◌ _ s) = rune_count s + 1

  abbrev pub kind_of : String → String
  kind_of kind = if str_eq kind "" then "school" else kind

  -- The insert of CreateOrganization, which reports a slug that is taken.
  unfoldable pub insert_organization :
      Faults → Actor → String → String → String → ℤ → AuthDb → AuthDb × Reply {0} Unit
  insert_organization fault actor name slug kind owner db =
      if fault create_org
      then (db, err internal)
      else if any (λ o. str_eq o.slug slug) db.organizations
      then (db, err conflict)
      else (
        audit fault (entry actor org_create (pos db.next_organization) true) (record db {
          organizations =
              record {
                id = db.next_organization;
                name = name;
                slug = slug;
                kind = kind;
                owner_user_id = owner;
              }
              ∷ db.organizations;
          next_organization = db.next_organization + 1;
        }),
        ok tt,
      )

  -- CreateOrganization
  unfoldable pub create_organization :
      Faults → Actor → String → String → String → ℤ → AuthDb → AuthDb × Reply {0} Unit
  unfolding slugify insert_organization
  create_organization fault actor raw_name raw_slug raw_kind owner db =
      elim (require_platform actor org_create) [
        | err e ↦ (audit_denied fault actor org_create (pos 0) db, err e)
        | ok _ ↦
            let name = t.trim raw_name in
            let kind = kind_of (t.trim raw_kind) in
            let given = t.trim raw_slug in
            let slug = if str_eq given "" then slugify name else given in
            if str_eq name "" || ltb 120 (rune_count name)
            then (db, err (validation "name"))
            else if not (str_eq kind "school" || str_eq kind "company" || str_eq kind "other")
            then (db, err (validation "kind"))
            else if str_eq slug ""
            then (db, err (validation "slug"))
            else insert_organization fault actor name slug kind
                (if is_positive owner then owner else actor.user_id) db
      ]

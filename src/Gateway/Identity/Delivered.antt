-- ===== src/Gateway/Identity/Delivered.antt =====
-- The actor that a service sees is the one that the gateway has verified.
use Prim.Native.Char.{Char}
use hquizlet_platform.Prelude.{
  ℕ, ◌<◌, ◌^◌, ◌≡◌, refl, sym, ap, ◌∙◌, Bool, true, false, ◌&&◌, String, List, [], ◌∷◌, map, Option,
  none, some, any, All, arith, ◌==◌, str_eq, eq_iff, Bool-cases, inl, inr, if◌then◌else◌,
}
use hquizlet_platform.Prelude.Int.{pos}
use hquizlet_platform.Prelude.Decimal.{format_int}
use hquizlet_platform.Prelude.Trim.{join_comma, parse_int, parse_int-format}
use hquizlet_platform.Authz.Principal.{contains, org_entry}
use hquizlet_platform.Authz.Headers.{parse_platform_roles, parse_org_roles}
use hquizlet_platform.Authz.Headers.Words.{SparesAscii, is_key}
use hquizlet_platform.Authz.Headers.Trips.{
  IsGrant, wire, org_roles_round_trip, platform_roles_round_trip,
}
use hquizlet_platform.Auth.Model.{Identity}
use hquizlet_platform.Gateway.Identity.{
  Headers, get, del, set_header, del_all, identity_headers, set_nonempty, named_headers,
  inject_identity_headers, user_id_of, principal_from_request,
}

get-del_self : (n : String) (h : Headers) → get n (del n h) ≡ ""
unfolding get del
get-del_self n [] = refl
get-del_self n ((k, v) ∷ h) = ground (arith, get-del_self n h)

get-del_ne : (n m : String) (h : Headers) → str_eq m n ≡ false → get n (del m h) ≡ get n h
unfolding get del
get-del_ne n m [] d = refl
get-del_ne n m ((k, v) ∷ h) d = elim (Bool-cases (str_eq k m)) [
  | inl same ↦ ground (arith, same, get-del_ne n m h d, ap (λ x. str_eq x n) ((eq_iff k m).0 same))
  | inr other ↦ ground (arith, other, get-del_ne n m h d)
]

-- A header that is set is read; another is read as before.
get-set_header :
    (n m v : String) (h : Headers) → get n (set_header m v h) ≡ (if str_eq m n then v else get n h)
unfolding get set_header
get-set_header n m v h = elim (Bool-cases (str_eq m n)) [
  | inl same ↦ rw same refl
  | inr other ↦ rw other (get-del_ne n m h other)
]

get-set_nonempty :
    (n m v : String) (h : Headers)
    → get n (set_nonempty m v h)
      ≡ (if str_eq m n then (if str_eq v "" then get n h else v) else get n h)
get-set_nonempty n m v h = ground (arith, get-set_header n m v h)

-- What was deleted reads as nothing.
get-del_gone :
    (n : String) (names : List String) (h : Headers) → get n h ≡ "" → get n (del_all names h) ≡ ""
unfolding del_all
get-del_gone n [] h e = e
get-del_gone n (m ∷ names) h e = elim (Bool-cases (str_eq m n)) [
  | inl same ↦
      get-del_gone n names (del m h)
        (ap (λ x. get n (del x h)) ((eq_iff m n).0 same) ∙ get-del_self n h)
  | inr other ↦ get-del_gone n names (del m h) (get-del_ne n m h other ∙ e)
]

get-del_all :
    (n : String) (names : List String) (h : Headers)
    → contains names n ≡ true
    → get n (del_all names h) ≡ ""
unfolding del_all
get-del_all n [] h c = cc
get-del_all n (m ∷ names) h c = elim (Bool-cases (str_eq m n)) [
  | inl same ↦
      get-del_gone n names (del m h)
        (ap (λ x. get n (del x h)) ((eq_iff m n).0 same) ∙ get-del_self n h)
  | inr other ↦ get-del_all n names (del m h) (ground (arith, other, c))
]

or_empty : (v : String) → (if str_eq v "" then "" else v) ≡ v
or_empty v = elim (Bool-cases (str_eq v "")) [
  | inl e ↦ rw e (sym ((eq_iff v "").0 e))
  | inr d ↦ rw d refl
]

-- The signature touches no header that a service reads the actor from.
read-signed :
    (n : String) (sign : Option (String → String)) (ts : ℕ) (i : Identity) (h : Headers)
    → str_eq "X-Internal-Sig" n ≡ false
    → str_eq "X-Internal-Ts" n ≡ false
    → get n (inject_identity_headers sign ts i h) ≡ get n (named_headers i h)
unfolding inject_identity_headers
read-signed n none ts i h a b = refl
read-signed n (some f) ts i h a b = rw (get-set_header, a, get-set_header, b) refl

module _ (i : Identity) (h : Headers) where
  read_id : get "X-User-ID" (named_headers i h) ≡ format_int i.user_id
  unfolding named_headers
  read_id = rw (get-set_nonempty, get-set_nonempty, get-set_header, get-set_header) refl

  read_role : get "X-User-Role" (named_headers i h) ≡ i.role
  unfolding named_headers
  read_role = rw (get-set_nonempty, get-set_nonempty, get-set_header) refl

  read_roles : get "X-User-Roles" (named_headers i h) ≡ join_comma i.platform_roles
  unfolding named_headers
  read_roles =
      rw
        (
          get-set_nonempty,
          get-set_nonempty,
          get-set_header,
          get-set_header,
          get-del_all "X-User-Roles" identity_headers h refl,
        )
        (or_empty (join_comma i.platform_roles))

  read_orgs : get "X-User-Org-Roles" (named_headers i h) ≡ join_comma i.org_roles
  unfolding named_headers
  read_orgs =
      rw
        (
          get-set_nonempty,
          get-set_nonempty,
          get-set_header,
          get-set_header,
          get-del_all "X-User-Org-Roles" identity_headers h refl,
        )
        (or_empty (join_comma i.org_roles))

-- Whatever identity headers a client sends, a service that reads its headers behind the gateway sees
-- the actor that was verified, where the id has 63 bits and the role keys are printing ASCII
-- without a comma or a colon: the same id, legacy role and platform roles, and in each organization
-- exactly the roles of the identity's entries.
pub verified_actor_is_delivered :
    (is_space : Char → Bool) (sign : Option (String → String)) (ts : ℕ) (i : Identity) (h : Headers)
    (grants : List (ℕ × String)) (org : ℕ) (role : String)
    → SparesAscii is_space
    → i.user_id < 2 ^ 63
    → All (λ x. is_key x ≡ true) i.platform_roles
    → All IsGrant grants
    → i.org_roles ≡ map wire grants
    → let p = principal_from_request is_space (inject_identity_headers sign ts i h) in
      (p.user_id ≡ pos i.user_id)
      × (p.legacy_role ≡ i.role)
      × (p.platform_roles ≡ i.platform_roles)
      × (contains (org_entry (pos org) p.org_roles) role
          ≡ any (λ e. (e.0 == org) && str_eq e.1 role) grants)
unfolding principal_from_request
verified_actor_is_delivered is_space sign ts i h grants org role spares small keys good e = (
  ap (λ x. user_id_of (parse_int x)) (read-signed "X-User-ID" sign ts i h refl refl ∙ read_id i h)
      ∙ ap user_id_of (parse_int-format i.user_id small),
  read-signed "X-User-Role" sign ts i h refl refl ∙ read_role i h,
  ap (parse_platform_roles is_space)
        (read-signed "X-User-Roles" sign ts i h refl refl ∙ read_roles i h)
      ∙ platform_roles_round_trip is_space spares i.platform_roles keys,
  ap (λ x. contains (org_entry (pos org) (parse_org_roles is_space x)) role)
        (read-signed "X-User-Org-Roles" sign ts i h refl refl ∙ read_orgs i h ∙ ap join_comma e)
      ∙ org_roles_round_trip is_space spares grants org role good,
)

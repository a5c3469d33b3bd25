-- ===== src/Gateway/Identity.antt =====
-- services/gateway/main.go: the identity headers of a request that goes on to a service, and the actor
-- that the service reads from them (services/study/internal/http/authz.go, handler.go).
pub mod Delivered
use Prim.Native.Char.{Char}
use hquizlet_platform.Prelude.{
  ℕ, Bool, true, false, not, ◌&&◌, String, List, [], ◌∷◌, Option, none, some, str_eq, if◌then◌else◌,
}
use hquizlet_platform.Prelude.Int.{ℤ, pos}
use hquizlet_platform.Prelude.Text.{append}
use hquizlet_platform.Prelude.Decimal.{format_int}
use hquizlet_platform.Prelude.Trim.{join_comma, parse_int}
use hquizlet_platform.Authz.Principal.{Actor}
use hquizlet_platform.Authz.Headers.{parse_platform_roles, parse_org_roles}
use hquizlet_platform.Auth.Model.{Identity}

-- http.Header, with one value for each name.
abbrev pub Headers : Type 0
Headers = List (String × String)

-- Header.Get, Header.Del and Header.Set
unfoldable pub get : String → Headers → String
get name [] = ""
get name ((k, v) ∷ h) = if str_eq k name then v else get name h

unfoldable pub del : String → Headers → Headers
del name [] = []
del name ((k, v) ∷ h) = let rest = del name h in if str_eq k name then rest else (k, v) ∷ rest

unfoldable pub set_header : String → String → Headers → Headers
unfolding del
set_header name v h = (name, v) ∷ del name h

-- The headers that injectIdentityHeaders deletes.
abbrev pub identity_headers : List String
identity_headers =
    "X-User-ID" ∷ "X-User-Role" ∷ "X-User-Roles" ∷ "X-User-Org-Roles" ∷ "X-Participant-ID"
    ∷ "X-Live-Role" ∷ "X-Class-Role" ∷ "X-Member-ID" ∷ []

unfoldable pub del_all : List String → Headers → Headers
unfolding del
del_all [] h = h
del_all (n ∷ names) h = del_all names (del n h)

abbrev pub set_nonempty : String → String → Headers → Headers
set_nonempty name v h = if str_eq v "" then h else set_header name v h

-- The message that is signed.
abbrev pub signed_text : ℕ → String → String → String → ℕ → String
signed_text uid role roles orgs ts = append (format_int uid) (
    append "|" (
      append role (
        append "|" (
          append roles (
            append "|"
              (append (if str_eq orgs "" then "" else append orgs "|") (format_int ts)))))))

-- The headers of injectIdentityHeaders without the signature.
unfoldable pub named_headers : Identity → Headers → Headers
unfolding del_all set_header
named_headers i h = set_nonempty "X-User-Roles" (join_comma i.platform_roles) (
    set_nonempty "X-User-Org-Roles" (join_comma i.org_roles) (
      set_header "X-User-Role" i.role
        (set_header "X-User-ID" (format_int i.user_id) (del_all identity_headers h))))

-- injectIdentityHeaders; `sign` is the HMAC under the signing key, `none` where there is no key.
unfoldable pub inject_identity_headers : Option (String → String) → ℕ → Identity → Headers → Headers
unfolding named_headers
inject_identity_headers none ts i h = named_headers i h
inject_identity_headers (some f) ts i h =
    let text =
      signed_text i.user_id i.role (join_comma i.platform_roles) (join_comma i.org_roles) ts in
    set_header "X-Internal-Sig" (f text)
      (set_header "X-Internal-Ts" (format_int ts) (named_headers i h))

-- userIDFromHeader; a text that is no number gives 0.
abbrev pub user_id_of : Option ℤ → ℤ
user_id_of none = pos 0
user_id_of (some n) = n

-- principalFromRequest of the study service.
unfoldable pub principal_from_request : (Char → Bool) → Headers → Actor
principal_from_request is_space h = record {
  user_id = user_id_of (parse_int (get "X-User-ID" h));
  legacy_role = get "X-User-Role" h;
  platform_roles = parse_platform_roles is_space (get "X-User-Roles" h);
  class_role = "";
  class_id = pos 0;
  org_roles = parse_org_roles is_space (get "X-User-Org-Roles" h);
}

-- The three headers that participantProxy and rateLimitProxy delete.
abbrev pub participant_headers : List String
participant_headers = "X-User-ID" ∷ "X-Participant-ID" ∷ "X-Live-Role" ∷ []

-- ===== src/Authz/Resource.antt =====
-- packages/authz/resource.go: the target of a check, and the matching of policy patterns.
pub mod Wildcards
use hquizlet_platform.Prelude.{Bool, true, ◌&&◌, ◌||◌, String, List, any, str_eq, if◌then◌else◌}
use hquizlet_platform.Prelude.Int.{ℤ, pos_part, is_positive}
use hquizlet_platform.Prelude.Text.{append, has_prefix, has_suffix, trim_suffix}
use hquizlet_platform.Prelude.Decimal.{format_int}
use hquizlet_platform.Authz.Actions.{Action}

-- Resource; `kind` is the field Type.
pub record Target : Type 0 where
  pub kind : String
  pub id : ℤ
  pub owner_user_id : ℤ
  pub class_id : ℤ
  pub org_id : ℤ

-- Resource.ARN
unfoldable pub arn : Target → String
arn r =
    if str_eq r.kind ""
    then "hq:*"
    else if is_positive r.id
    then append "hq:" (append r.kind (append "/" (format_int (pos_part r.id))))
    else append "hq:" (append r.kind "/*")

-- One turn of the loop of matchResource: whether it returns true at this pattern.
abbrev pub resource_pattern : String → String → Bool
resource_pattern p name =
    let prefix = trim_suffix p "/*" in
    if str_eq p "hq:*" || str_eq p "*"
    then true
    else if has_suffix p "/*"
    then has_prefix name (append prefix "/") || str_eq name (append prefix "/*")
    else str_eq p name

unfoldable pub match_resource : List String → Target → Bool
match_resource patterns res = any (λ p. resource_pattern p (arn res)) patterns

-- One turn of the loop of matchAction. The source trims ":" (not ":*") off the pattern.
abbrev pub action_pattern : String → Action → Bool
action_pattern p a =
    let prefix = append (trim_suffix p ":") ":" in
    if str_eq p "*" || str_eq p a then true else has_suffix p ":*" && has_prefix a prefix

unfoldable pub match_action : List String → Action → Bool
match_action patterns a = any (λ p. action_pattern p a) patterns

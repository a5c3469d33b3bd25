-- ===== src/Auth/Model.antt =====
-- services/auth/internal: the rows of migration/migration.go and model/model.go, the errors of the
-- service, and what it takes from libraries. Times are numbers of a clock. A row's principal_type is
-- always user and is left out, as are names for display and time stamps of creation.
use Prim.Native.Char.{Char}
use hquizlet_platform.Prelude.{ℕ, Bool, false, String, List, Option}
use hquizlet_platform.Prelude.Int.{ℤ}

-- users; `role` is the role of the time before the assignments, user or admin.
pub record User : Type 0 where
  pub id : ℕ
  pub name : String
  pub email : String
  pub password_hash : String
  pub role : String
  pub disabled : Bool

-- sessions
pub record Session : Type 0 where
  pub user_id : ℕ
  pub token_hash : String
  pub expires_at : ℕ
  pub revoked_at : Option ℕ

-- iam_assignments
pub record Assignment : Type 0 where
  pub id : ℕ
  pub principal_id : ℕ
  pub role_key : String
  pub scope_type : String
  pub scope_id : Option ℕ
  pub created_by : ℤ
  pub expires_at : Option ℕ

-- organizations
pub record Organization : Type 0 where
  pub id : ℕ
  pub name : String
  pub slug : String
  pub kind : String
  pub owner_user_id : ℤ

pub data AuditResult : Type 0 where
  allowed refused : AuditResult

-- audit_log, with the user or the row that an entry is about in place of its text.
pub record AuditEntry : Type 0 where
  pub actor_id : ℤ
  pub action : String
  pub subject : ℤ
  pub result : AuditResult

pub record AuthDb : Type 0 where
  pub users : List User
  pub sessions : List Session
  pub assignments : List Assignment
  pub organizations : List Organization
  pub audit_log : List AuditEntry
  pub next_user : ℕ
  pub next_assignment : ℕ
  pub next_organization : ℕ

-- The errors of the service, with `internal` for a failed call.
pub data AuthError : Type 0 where
  email_taken invalid_credential invalid_session expired_session revoked_session : AuthError
  disabled_user forbidden unauthorized not_found conflict internal : AuthError
  validation : String → AuthError

pub data Reply {ℓ} (A : Type ℓ) : Type ℓ where
  ok : A → Reply A
  err : AuthError → Reply A

-- The calls of the database that may fail for reasons of its own.
pub data Call : Type 0 where
  get_user create_user create_assignment insert_audit create_session get_session : Call
  update_session list_roles has_assignment list_org_roles org_exists create_org : Call
  update_user admin_tx : Call

-- Which calls fail in one run of an operation.
abbrev pub Faults : Type 0
Faults = Call → Bool

abbrev pub no_faults : Faults
no_faults _ = false

-- The functions of packages strings, unicode, regexp and bcrypt, HashToken, and the order of ORDER BY.
pub record AuthFns : Type 0 where
  pub trim : String → String
  pub lower : String → String
  pub valid_email : String → Bool
  pub hash_password : String → Option String
  pub matches : String → String → Bool
  pub hash_token : String → String
  pub is_letter : Char → Bool
  pub is_digit : Char → Bool
  pub by_scope_and_role : List Assignment → List Assignment

-- VerifiedIdentity; `org_roles` are the entries of FormatOrgRole.
pub record Identity : Type 0 where
  pub user_id : ℕ
  pub email : String
  pub name : String
  pub role : String
  pub platform_roles : List String
  pub org_roles : List String
  pub expires_at : ℕ

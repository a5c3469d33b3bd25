-- ===== src/Class/Model.antt =====
-- services/class/internal: the rows of classes and class_members (model/model.go, migrations), the
-- errors of the service, and what it takes from libraries. Names for display and times are left out.
use hquizlet_platform.Prelude.{ℕ, Bool, String, List}
use hquizlet_platform.Prelude.Int.{ℤ}

pub record Class : Type 0 where
  pub id : ℤ
  pub owner_user_id : ℤ
  pub invite_code : String
  pub max_members : ℕ

pub record Member : Type 0 where
  pub class_id : ℤ
  pub user_id : ℤ
  pub role : String

pub record ClassDb : Type 0 where
  pub classes : List Class
  pub members : List Member

pub data ClassError : Type 0 where
  unauthorized forbidden not_found conflict invalid full_class own_class internal : ClassError

pub data Checked {ℓ} (A : Type ℓ) : Type ℓ where
  passed : A → Checked A
  refused : ClassError → Checked A

-- The calls of the database that may fail for reasons of its own.
pub data Call : Type 0 where
  get_class get_caller_role count_rows get_role insert_row update_row delete_row : Call

abbrev pub Faults : Type 0
Faults = Call → Bool

-- TrimSpace of ToLower and of ToUpper.
pub record ClassFns : Type 0 where
  pub lower : String → String
  pub upper : String → String

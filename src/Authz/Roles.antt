-- ===== src/Authz/Roles.antt =====
-- packages/authz/roles.go: the managed role keys, and the types of a policy.
use hquizlet_platform.Prelude.{String, List, str_eq, if◌then◌else◌}

abbrev pub platform_admin : String
platform_admin = "PlatformAdmin"

abbrev pub platform_support : String
platform_support = "PlatformSupport"

abbrev pub teacher : String
teacher = "Teacher"

abbrev pub student : String
student = "Student"

abbrev pub class_owner : String
class_owner = "ClassOwner"

abbrev pub class_teacher : String
class_teacher = "ClassTeacher"

abbrev pub class_student : String
class_student = "ClassStudent"

abbrev pub org_admin : String
org_admin = "OrgAdmin"

abbrev pub org_teacher : String
org_teacher = "OrgTeacher"

abbrev pub org_student : String
org_student = "OrgStudent"

-- ClassMemberRole
abbrev pub class_member_role : String → String
class_member_role member_role =
    if str_eq member_role "owner"
    then class_owner
    else if str_eq member_role "teacher"
    then class_teacher
    else if str_eq member_role "student"
    then class_student
    else ""

pub data Effect : Type 0 where
  allow deny : Effect

-- `condition` is the Go map, as the list of its entries in some order.
pub record Statement : Type 0 where
  pub effect : Effect
  pub actions : List String
  pub resources : List String
  pub condition : List (String × String)

pub record Policy : Type 0 where
  pub version : String
  pub statements : List Statement

-- ===== src/Class/Members.antt =====
-- services/class/internal/service/member.go, with repository/member.go: members of classes. An
-- operation decides on what it has read, `seen`, and writes to the database as it is by then, `db`.
pub mod Rows
pub mod Owner
use hquizlet_platform.Prelude.{
  ℕ, ◌+◌, Bool, true, false, not, ◌&&◌, ◌||◌, String, List, [], ◌∷◌, Option, none, some, any, ltb,
  str_eq, if◌then◌else◌,
}
use hquizlet_platform.Prelude.Int.{ℤ, pos, eq_ℤ, is_positive}
use hquizlet_platform.Authz.Actions.{
  Action, class_member_add, class_member_update_role, class_member_remove,
}
use hquizlet_platform.Authz.Resource.{Target}
use hquizlet_platform.Authz.Principal.{Actor}
use hquizlet_platform.Authz.Evaluator.{can}
use hquizlet_platform.Class.Model.{
  Class, Member, ClassDb, ClassError, unauthorized, forbidden, not_found, conflict, invalid,
  full_class, own_class, internal, Checked, passed, refused, get_class, get_caller_role, count_rows,
  get_role, insert_row, update_row, delete_row, Faults, ClassFns,
}

-- ClassRepository.GetByID
unfoldable pub class_by_id : ℤ → List Class → Option Class
class_by_id id [] = none
class_by_id id (k ∷ ks) = if eq_ℤ k.id id then some k else class_by_id id ks

-- ClassRepository.GetByInviteCode
unfoldable pub class_by_code : String → List Class → Option Class
class_by_code code [] = none
class_by_code code (k ∷ ks) = if str_eq k.invite_code code then some k else class_by_code code ks

abbrev pub is_row : ℤ → ℤ → Member → Bool
is_row c u m = eq_ℤ m.class_id c && eq_ℤ m.user_id u

-- MemberRepository.GetRole: no text where there is no row.
unfoldable pub role_of : ℤ → ℤ → List Member → String
role_of c u [] = ""
role_of c u (m ∷ ms) = if is_row c u m then m.role else role_of c u ms

-- MemberRepository.CountByClass
unfoldable pub count_by_class : ℤ → List Member → ℕ
count_by_class c [] = 0
count_by_class c (m ∷ ms) =
    let rest = count_by_class c ms in if eq_ℤ m.class_id c then rest + 1 else rest

-- MemberRepository.Add, with the foreign key to the class.
unfoldable pub add_row : Faults → ℤ → ℤ → String → ClassDb → ClassDb × Option ClassError
add_row fault c u role db =
    if fault insert_row || not (any (λ k. eq_ℤ k.id c) db.classes)
    then (db, some internal)
    else if any (is_row c u) db.members
    then (db, some conflict)
    else (
      record db { members = record { class_id = c; user_id = u; role = role } ∷ db.members },
      none,
    )

unfoldable pub set_role : ℤ → ℤ → String → List Member → List Member
set_role c u role [] = []
set_role c u role (m ∷ ms) =
    (if is_row c u m then record m { role = role } else m) ∷ set_role c u role ms

-- MemberRepository.UpdateRole
unfoldable pub update_member : Faults → ℤ → ℤ → String → ClassDb → ClassDb × Option ClassError
update_member fault c u role db =
    if fault update_row
    then (db, some internal)
    else if not (any (is_row c u) db.members)
    then (db, some not_found)
    else (record db { members = set_role c u role db.members }, none)

unfoldable pub drop_row : ℤ → ℤ → List Member → List Member
drop_row c u [] = []
drop_row c u (m ∷ ms) = let rest = drop_row c u ms in if is_row c u m then rest else m ∷ rest

-- MemberRepository.Remove
unfoldable pub remove_row : Faults → ℤ → ℤ → ClassDb → ClassDb × Option ClassError
remove_row fault c u db =
    if fault delete_row
    then (db, some internal)
    else if not (any (is_row c u) db.members)
    then (db, some not_found)
    else (record db { members = drop_row c u db.members }, none)

abbrev pub class_target : Class → Target
class_target k = record {
  kind = "class";
  id = k.id;
  owner_user_id = k.owner_user_id;
  class_id = k.id;
  org_id = pos 0;
}

-- The role of the caller: the owner of a class needs no row.
abbrev pub caller_role : Faults → ℤ → Class → ClassDb → String
caller_role fault u k seen =
    let role = if fault get_caller_role then "" else role_of k.id u seen.members in
    if str_eq role "" && eq_ℤ k.owner_user_id u then "owner" else role

-- MemberService.authorize
unfoldable pub authorize : Faults → Actor → ℤ → Action → ClassDb → Checked Class
unfolding class_by_id role_of
authorize fault p c action seen =
    if not (is_positive p.user_id)
    then refused unauthorized
    else if fault get_class
    then refused internal
    else elim (class_by_id c seen.classes) [
      | none ↦ refused not_found
      | some k ↦
          let role = caller_role fault p.user_id k seen in
          if str_eq role ""
          then refused forbidden
          else if not (can (record p { class_id = c; class_role = role }) action (class_target k))
          then refused forbidden
          else passed k
    ]

-- Whether a role may be given: ValidRoles but owner.
abbrev pub is_given_role : String → Bool
is_given_role role = str_eq role "teacher" || str_eq role "student"

module _ (t : ClassFns) where
  -- MemberService.AddMember
  unfoldable pub add_member :
      Faults → Actor → ℤ → ℤ → String → ClassDb → ClassDb → ClassDb × Option ClassError
  unfolding authorize count_by_class add_row
  add_member fault p c target role seen db = elim (authorize fault p c class_member_add seen) [
    | refused e ↦ (db, some e)
    | passed k ↦
        if not (is_given_role (t.lower role))
        then (db, some invalid)
        else if fault count_rows
        then (db, some internal)
        else if ltb k.max_members (count_by_class c seen.members + 1)
        then (db, some full_class)
        else add_row fault c target (t.lower role) db
  ]

  -- MemberService.JoinByCode
  unfoldable pub join_by_code :
      Faults → String → ℤ → ClassDb → ClassDb → ClassDb × Option ClassError
  unfolding class_by_code count_by_class role_of add_row
  join_by_code fault code u seen db =
      if not (is_positive u)
      then (db, some unauthorized)
      else if str_eq (t.upper code) ""
      then (db, some invalid)
      else if fault get_class
      then (db, some internal)
      else elim (class_by_code (t.upper code) seen.classes) [
        | none ↦ (db, some not_found)
        | some k ↦
            if eq_ℤ k.owner_user_id u
            then (db, some own_class)
            else if fault count_rows
            then (db, some internal)
            else if ltb k.max_members (count_by_class k.id seen.members + 1)
            then (db, some full_class)
            else if fault get_role
            then (db, some internal)
            else if not (str_eq (role_of k.id u seen.members) "")
            then (db, some conflict)
            else add_row fault k.id u "student" db
      ]

  -- MemberService.UpdateRole
  unfoldable pub update_role :
      Faults → Actor → ℤ → ℤ → String → ClassDb → ClassDb → ClassDb × Option ClassError
  unfolding authorize update_member
  update_role fault p c target role seen db =
      elim (authorize fault p c class_member_update_role seen) [
        | refused e ↦ (db, some e)
        | passed k ↦
            if not (is_given_role (t.lower role))
            then (db, some invalid)
            else if eq_ℤ target k.owner_user_id
            then (db, some forbidden)
            else if eq_ℤ target p.user_id
            then (db, some invalid)
            else update_member fault c target (t.lower role) db
      ]

-- MemberService.RemoveMember
unfoldable pub remove_member :
    Faults → Actor → ℤ → ℤ → ClassDb → ClassDb → ClassDb × Option ClassError
unfolding authorize remove_row
remove_member fault p c target seen db = elim (authorize fault p c class_member_remove seen) [
  | refused e ↦ (db, some e)
  | passed k ↦
      if eq_ℤ target k.owner_user_id
      then (db, some forbidden)
      else if eq_ℤ target p.user_id
      then (db, some invalid)
      else remove_row fault c target db
]

-- MemberService.LeaveClass
unfoldable pub leave_class : Faults → ℤ → ℤ → ClassDb → ClassDb → ClassDb × Option ClassError
unfolding class_by_id remove_row
leave_class fault c u seen db =
    if not (is_positive u)
    then (db, some unauthorized)
    else if fault get_class
    then (db, some internal)
    else elim (class_by_id c seen.classes) [
      | none ↦ (db, some not_found)
      | some k ↦ if eq_ℤ k.owner_user_id u then (db, some own_class) else remove_row fault c u db
    ]

-- The requests of MemberService that write.
pub data Request : Type 0 where
  adding : Actor → ℤ → ℤ → String → Request
  joining : String → ℤ → Request
  updating : Actor → ℤ → ℤ → String → Request
  removing : Actor → ℤ → ℤ → Request
  leaving : ℤ → ℤ → Request

-- A request with the calls that fail in it and the database that it has read.
pub record Turn : Type 0 where
  pub fault : Faults
  pub seen : ClassDb
  pub request : Request

module _ (t : ClassFns) where
  unfoldable pub serve : Faults → ClassDb → Request → ClassDb → ClassDb × Option ClassError
  serve fault seen (adding p c target role) db = add_member t fault p c target role seen db
  serve fault seen (joining code u) db = join_by_code t fault code u seen db
  serve fault seen (updating p c target role) db = update_role t fault p c target role seen db
  serve fault seen (removing p c target) db = remove_member fault p c target seen db
  serve fault seen (leaving c u) db = leave_class fault c u seen db

  unfoldable pub run : List Turn → ClassDb → ClassDb
  run [] db = db
  run (x ∷ xs) db = run xs (serve x.fault x.seen x.request db).0

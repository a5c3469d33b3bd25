-- ===== src/Class/Examples.antt =====
-- Witnesses and tests for the class service.
use hquizlet_platform.Prelude.{◌≡◌, refl, arith, true, false, List, [], ◌∷◌, some, any}
use hquizlet_platform.Prelude.Int.{pos}
use hquizlet_platform.Authz.Principal.{
  Actor, effective_role_keys, resolved_platform_roles, org_role_keys,
}
use hquizlet_platform.Authz.Policies.{find_policy, managed_policies}
use hquizlet_platform.Authz.Resource.{match_resource, match_action, arn}
use hquizlet_platform.Authz.Evaluator.{can, scan_roles, scan_statements, applies, eval_conditions}
use hquizlet_platform.Class.Model.{Class, Member, ClassDb, Faults, ClassFns, forbidden}
use hquizlet_platform.Class.Members.{
  class_by_id, is_row, role_of, remove_row, add_row, count_by_class, class_by_code, authorize,
  remove_member, join_by_code, leave_class, joining, removing, leaving, Turn, serve, run,
}
use hquizlet_platform.Class.Members.Rows.{is_owner}
use hquizlet_platform.Class.Members.Owner.{IsOwnedBy, owner_keeps_class}

abbrev fns : ClassFns
fns = record { lower = λ s. s; upper = λ s. s }

abbrev no_faults : Faults
no_faults _ = false

abbrev room : Class
room = record { id = pos 1; owner_user_id = pos 5; invite_code = "C"; max_members = 30 }

abbrev owner_row : Member
owner_row = record { class_id = pos 1; user_id = pos 5; role = "owner" }

abbrev helper_row : Member
helper_row = record { class_id = pos 1; user_id = pos 6; role = "teacher" }

abbrev start : ClassDb
start = record { classes = room ∷ []; members = helper_row ∷ owner_row ∷ [] }

abbrev helper : Actor
helper = record {
  user_id = pos 6;
  legacy_role = "user";
  platform_roles = "Teacher" ∷ [];
  class_role = "";
  class_id = pos 0;
  org_roles = [];
}

abbrev turns : List Turn
turns =
    record { fault = no_faults; seen = start; request = joining "C" (pos 7) }
    ∷ record { fault = no_faults; seen = start; request = removing helper (pos 1) (pos 5) }
    ∷ record { fault = no_faults; seen = start; request = leaving (pos 1) (pos 5) }
    ∷ []

start-IsOwnedBy : IsOwnedBy (pos 1) (pos 5) start
unfolding class_by_id
start-IsOwnedBy k h = ground arith

owner_keeps_class_example :
    let n = run fns turns start in
    (any (is_row (pos 1) (pos 5)) start.members ≡ true
      → (any (is_row (pos 1) (pos 5)) n.members ≡ true)
        × (role_of (pos 1) (pos 5) n.members ≡ role_of (pos 1) (pos 5) start.members))
    × (is_owner (pos 1) (pos 7) n.members ≡ true → is_owner (pos 1) (pos 7) start.members ≡ true)
owner_keeps_class_example =
    owner_keeps_class fns (pos 1) (pos 5) (pos 7) turns start
      (start-IsOwnedBy, (start-IsOwnedBy, (start-IsOwnedBy, tt)))

joined : role_of (pos 1) (pos 7) (run fns turns start).members ≡ "student"
unfolding run serve join_by_code class_by_code count_by_class role_of add_row remove_member
    authorize leave_class class_by_id remove_row can scan_roles scan_statements applies
    eval_conditions effective_role_keys resolved_platform_roles org_role_keys match_resource
    match_action arn find_policy managed_policies
joined = refl

owner_not_removed : (remove_member no_faults helper (pos 1) (pos 5) start start).1 ≡ some forbidden
unfolding remove_member authorize class_by_id role_of remove_row can scan_roles scan_statements
    applies eval_conditions effective_role_keys resolved_platform_roles org_role_keys match_resource
    match_action arn find_policy managed_policies
owner_not_removed = refl

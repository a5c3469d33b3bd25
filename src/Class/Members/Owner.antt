-- ===== src/Class/Members/Owner.antt =====
-- The owner of a class among its members, over the requests of MemberService in any order.
use hquizlet_platform.Prelude.{
  ◌⊎◌, ◌≡◌, refl, ap, ◌∙◌, true, false, String, List, [], ◌∷◌, some, any, All, arith, str_eq,
  eq_iff, Bool-cases, Option-cases, inl, inr,
}
use hquizlet_platform.Prelude.Int.{ℤ, pos, negsuc, eq_ℤ, eq_ℤ→≡}
use hquizlet_platform.Authz.Actions.{class_member_update_role, class_member_remove, Action}
use hquizlet_platform.Authz.Principal.{Actor}
use hquizlet_platform.Class.Model.{
  Class, Member, ClassDb, ClassError, Checked, passed, refused, Faults, ClassFns,
}
use hquizlet_platform.Class.Members.{
  class_by_id, is_row, role_of, add_row, update_member, remove_row, authorize, is_given_role,
  add_member, join_by_code, update_role, remove_member, leave_class,
}
use hquizlet_platform.Class.Members.{
  Request, adding, joining, updating, removing, leaving, Turn, serve, run,
}
use hquizlet_platform.Class.Members.Rows.{
  is_same, is_owner, is_row-same, role_of-set_role, any-set_role, owner-set_role, role_of-drop_row,
  any-drop_row, owner-drop_row,
}

eq_ℤ-comm : (a b : ℤ) → eq_ℤ a b ≡ eq_ℤ b a
eq_ℤ-comm (pos m) (pos n) = ground arith
eq_ℤ-comm (pos m) (negsuc n) = refl
eq_ℤ-comm (negsuc m) (pos n) = refl
eq_ℤ-comm (negsuc m) (negsuc n) = ground arith

Checked-cases {ℓ} :
    {A : Type ℓ} (x : Checked A) → ((e : ClassError) × (x ≡ refused e)) ⊎ ((a : A) × (x ≡ passed a))
Checked-cases (passed a) = inr (a, refl)
Checked-cases (refused e) = inl (e, refl)

-- The row of a user in a class is as before, and who is owner of the class was it before.
pub record IsKept (c o : ℤ) (db n : ClassDb) : Type 0 where
  pub rows :
      any (is_row c o) db.members ≡ true
      → (any (is_row c o) n.members ≡ true) × (role_of c o n.members ≡ role_of c o db.members)
  pub owners : (u : ℤ) → is_owner c u n.members ≡ true → is_owner c u db.members ≡ true

-- The class that a request reads under an id is the user's.
abbrev pub IsOwnedBy : ℤ → ℤ → ClassDb → Type 0
IsOwnedBy c o seen = (k : Class) → class_by_id c seen.classes ≡ some k → k.owner_user_id ≡ o

module _ (c o : ℤ) where
  keep : (db : ClassDb) → IsKept c o db db
  keep db = record { rows = λ h. (h, refl); owners = λ u e. e }

  IsKept-trans : (a b d : ClassDb) → IsKept c o a b → IsKept c o b d → IsKept c o a d
  IsKept-trans a b d first second = record {
    rows = λ h. let x = first.rows h in let y = second.rows x.0 in (y.0, y.1 ∙ x.1);
    owners = λ u e. first.owners u (second.owners u e);
  }

  absent-differs :
      (d v : ℤ) (ms : List Member)
      → any (is_row c o) ms ≡ true
      → any (is_row d v) ms ≡ false
      → is_same d v c o ≡ false
  absent-differs d v [] h a = cc
  absent-differs d v (m ∷ ms) h a = ground (arith, is_row-same d v c o m, absent-differs d v ms)

  add_row-IsKept :
      (fault : Faults) (d v : ℤ) (role : String) (db : ClassDb)
      → str_eq role "owner" ≡ false
      → IsKept c o db (add_row fault d v role db).0
  unfolding add_row role_of
  add_row-IsKept fault d v role db plain = record {
    rows = λ h. ground (arith, absent-differs d v db.members h);
    owners = λ u e. ground arith;
  }

  update_member-IsKept :
      (fault : Faults) (d v : ℤ) (role : String) (db : ClassDb)
      → is_same c o d v ≡ false
      → str_eq role "owner" ≡ false
      → IsKept c o db (update_member fault d v role db).0
  unfolding update_member
  update_member-IsKept fault d v role db other plain = record {
    rows = λ h. ground (
      arith,
      any-set_role c o d v role db.members,
      role_of-set_role c o d v role db.members other,
    );
    owners = λ u e. ground (arith, owner-set_role c u d v role db.members plain);
  }

  remove_row-IsKept :
      (fault : Faults) (d v : ℤ) (db : ClassDb)
      → is_same c o d v ≡ false
      → IsKept c o db (remove_row fault d v db).0
  unfolding remove_row
  remove_row-IsKept fault d v db other = record {
    rows = λ h.
        ground
          (arith, any-drop_row c o d v db.members other, role_of-drop_row c o d v db.members other);
    owners = λ u e. ground (arith, owner-drop_row c u d v db.members);
  }

  -- A target that is not the owner of the class that was read.
  guard-differs :
      (d v : ℤ) (seen : ClassDb) (k : Class)
      → IsOwnedBy c o seen
      → class_by_id d seen.classes ≡ some k
      → eq_ℤ k.owner_user_id v ≡ false
      → is_same c o d v ≡ false
  guard-differs d v seen k owned found h = elim (Bool-cases (is_same c o d v)) [
    | inr no_ ↦ no_
    | inl yes_ ↦
        let here : class_by_id c seen.classes ≡ some k =
          ap (λ x. class_by_id x seen.classes) (eq_ℤ→≡ c d (ground (arith, yes_))) ∙ found in
        let mine = ap (λ x. eq_ℤ x v) (owned k here) in ground (arith, mine)
  ]

  authorize-found :
      (fault : Faults) (p : Actor) (d : ℤ) (a : Action) (seen : ClassDb) (k : Class)
      → authorize fault p d a seen ≡ passed k
      → class_by_id d seen.classes ≡ some k
  unfolding authorize
  authorize-found fault p d a seen k h = elim (Option-cases (class_by_id d seen.classes)) [
    | inl none_ ↦ ground (arith, none_)
    | inr (j, found) ↦ ground (arith, found)
  ]

  given-plain : (role : String) → is_given_role role ≡ true → str_eq role "owner" ≡ false
  given-plain role h = elim (Bool-cases (str_eq role "owner")) [
    | inr no_ ↦ no_
    | inl yes_ ↦ cc (h, ap is_given_role ((eq_iff role "owner").0 yes_))
  ]

  module _ (t : ClassFns) (fault : Faults) (seen : ClassDb) (owned : IsOwnedBy c o seen) where
    add_member-IsKept :
        (p : Actor) (d v : ℤ) (role : String) (db : ClassDb)
        → IsKept c o db (add_member t fault p d v role seen db).0
    unfolding add_member
    add_member-IsKept p d v role db =
        grind (arith, keep, given-plain (t.lower role), add_row-IsKept)

    join_by_code-IsKept :
        (code : String) (v : ℤ) (db : ClassDb)
        → IsKept c o db (join_by_code t fault code v seen db).0
    unfolding join_by_code
    join_by_code-IsKept code v db = grind (arith, keep, add_row-IsKept)

    update_role-IsKept :
        (p : Actor) (d v : ℤ) (role : String) (db : ClassDb)
        → IsKept c o db (update_role t fault p d v role seen db).0
    unfolding update_role
    update_role-IsKept p d v role db =
        elim (Checked-cases (authorize fault p d class_member_update_role seen)) [
          | inl (e, failed) ↦ rw (failed, update_role) (keep db)
          | inr (k, got) ↦
              let found = authorize-found fault p d class_member_update_role seen k got in
              rw (got, update_role)
                (grind (
                  arith,
                  keep,
                  given-plain (t.lower role),
                  eq_ℤ-comm v k.owner_user_id,
                  guard-differs d v seen k owned found,
                  update_member-IsKept,
                ))
        ]

    remove_member-IsKept :
        (p : Actor) (d v : ℤ) (db : ClassDb) → IsKept c o db (remove_member fault p d v seen db).0
    unfolding remove_member
    remove_member-IsKept p d v db =
        elim (Checked-cases (authorize fault p d class_member_remove seen)) [
          | inl (e, failed) ↦ rw (failed, remove_member) (keep db)
          | inr (k, got) ↦
              let found = authorize-found fault p d class_member_remove seen k got in
              rw (got, remove_member)
                (grind (
                  arith,
                  keep,
                  eq_ℤ-comm v k.owner_user_id,
                  guard-differs d v seen k owned found,
                  remove_row-IsKept,
                ))
        ]

    leave_class-IsKept : (d v : ℤ) (db : ClassDb) → IsKept c o db (leave_class fault d v seen db).0
    unfolding leave_class
    leave_class-IsKept d v db = grind (arith, keep, guard-differs, remove_row-IsKept)

    serve-IsKept : (r : Request) (db : ClassDb) → IsKept c o db (serve t fault seen r db).0
    unfolding serve
    serve-IsKept (adding p d v role) db = add_member-IsKept p d v role db
    serve-IsKept (joining code v) db = join_by_code-IsKept code v db
    serve-IsKept (updating p d v role) db = update_role-IsKept p d v role db
    serve-IsKept (removing p d v) db = remove_member-IsKept p d v db
    serve-IsKept (leaving d v) db = leave_class-IsKept d v db

  run-IsKept :
      (t : ClassFns) (xs : List Turn) (db : ClassDb)
      → All (λ x. IsOwnedBy c o x.seen) xs
      → IsKept c o db (run t xs db)
  unfolding run
  run-IsKept t [] db h = keep db
  run-IsKept t (x ∷ xs) db h =
      let after = (serve t x.fault x.seen x.request db).0 in
      IsKept-trans db after (run t xs after) (serve-IsKept t x.fault x.seen h.0 x.request db)
        (run-IsKept t xs after h.1)

-- A class stays its owner's: over any requests about members, each of which may have read the
-- database long before it writes and may fail at any call, the row of the class's owner stays as it
-- is once it is stored, and nobody else comes to the role owner in the class.
pub owner_keeps_class :
    (t : ClassFns) (c o u : ℤ) (xs : List Turn) (db : ClassDb)
    → All (λ x. IsOwnedBy c o x.seen) xs
    → let n = run t xs db in
      (any (is_row c o) db.members ≡ true
        → (any (is_row c o) n.members ≡ true) × (role_of c o n.members ≡ role_of c o db.members))
      × (is_owner c u n.members ≡ true → is_owner c u db.members ≡ true)
owner_keeps_class t c o u xs db h = let k = run-IsKept c o t xs db h in (k.rows, k.owners u)

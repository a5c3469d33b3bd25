-- ===== src/Class/Members/Rows.antt =====
-- services/class/internal/repository/member.go: what a changed row does to the other rows.
use hquizlet_platform.Prelude.{
  ◌≡◌, refl, ap, ◌∙◌, Bool, true, false, ◌&&◌, String, List, [], ◌∷◌, any, arith, str_eq,
  Bool-cases, inl, inr,
}
use hquizlet_platform.Prelude.Int.{ℤ, eq_ℤ, eq_ℤ→≡}
use hquizlet_platform.Class.Model.{Member}
use hquizlet_platform.Class.Members.{is_row, role_of, set_role, drop_row}

-- Whether two rows are those of one user in one class.
abbrev pub is_same : ℤ → ℤ → ℤ → ℤ → Bool
is_same c u d v = eq_ℤ c d && eq_ℤ u v

abbrev pub is_owner : ℤ → ℤ → List Member → Bool
is_owner c u ms = str_eq (role_of c u ms) "owner"

pub is_row-same : (c u d v : ℤ) (m : Member) → is_same c u d v ≡ true → is_row c u m ≡ is_row d v m
is_row-same c u d v m h =
    ap (λ x. is_row x u m) (eq_ℤ→≡ c d (ground (arith, h)))
    ∙ ap (λ x. is_row d x m) (eq_ℤ→≡ u v (ground (arith, h)))

-- A row of one user in one class is no row of another.
is_row-distinct :
    (c u d v : ℤ) (m : Member)
    → is_same c u d v ≡ false
    → is_row c u m ≡ true
    → is_row d v m ≡ false
is_row-distinct c u d v m h e = elim (Bool-cases (is_row d v m)) [
  | inr no_ ↦ no_
  | inl yes_ ↦ ground (
    arith,
    ap (λ x. eq_ℤ x d) (eq_ℤ→≡ m.class_id c (ground (arith, e))),
    ap (λ x. eq_ℤ x v) (eq_ℤ→≡ m.user_id u (ground (arith, e))),
  )
]

pub role_of-set_role :
    (c u d v : ℤ) (role : String) (ms : List Member)
    → is_same c u d v ≡ false
    → role_of c u (set_role d v role ms) ≡ role_of c u ms
unfolding role_of set_role
role_of-set_role c u d v role [] h = refl
role_of-set_role c u d v role (m ∷ ms) h =
    ground (arith, is_row-distinct c u d v m h, role_of-set_role c u d v role ms h)

pub any-set_role :
    (c u d v : ℤ) (role : String) (ms : List Member)
    → any (is_row c u) (set_role d v role ms) ≡ any (is_row c u) ms
unfolding set_role
any-set_role c u d v role [] = refl
any-set_role c u d v role (m ∷ ms) = ground (arith, any-set_role c u d v role ms)

pub owner-set_role :
    (c u d v : ℤ) (role : String) (ms : List Member)
    → str_eq role "owner" ≡ false
    → is_owner c u (set_role d v role ms) ≡ true
    → is_owner c u ms ≡ true
unfolding role_of set_role
owner-set_role c u d v role [] h e = e
owner-set_role c u d v role (m ∷ ms) h e = ground (arith, owner-set_role c u d v role ms h)

pub role_of-drop_row :
    (c u d v : ℤ) (ms : List Member)
    → is_same c u d v ≡ false
    → role_of c u (drop_row d v ms) ≡ role_of c u ms
unfolding role_of drop_row
role_of-drop_row c u d v [] h = refl
role_of-drop_row c u d v (m ∷ ms) h =
    ground (arith, is_row-distinct c u d v m h, role_of-drop_row c u d v ms h)

pub any-drop_row :
    (c u d v : ℤ) (ms : List Member)
    → is_same c u d v ≡ false
    → any (is_row c u) (drop_row d v ms) ≡ any (is_row c u) ms
unfolding drop_row
any-drop_row c u d v [] h = refl
any-drop_row c u d v (m ∷ ms) h =
    ground (arith, is_row-distinct c u d v m h, any-drop_row c u d v ms h)

role_of-dropped :
    (c u d v : ℤ) (ms : List Member) → is_same c u d v ≡ true → role_of c u (drop_row d v ms) ≡ ""
unfolding role_of drop_row
role_of-dropped c u d v [] h = refl
role_of-dropped c u d v (m ∷ ms) h =
    ground (arith, is_row-same c u d v m h, role_of-dropped c u d v ms h)

pub owner-drop_row :
    (c u d v : ℤ) (ms : List Member)
    → is_owner c u (drop_row d v ms) ≡ true
    → is_owner c u ms ≡ true
owner-drop_row c u d v ms e = elim (Bool-cases (is_same c u d v)) [
  | inl same ↦ ground (arith, ap (λ x. str_eq x "owner") (role_of-dropped c u d v ms same))
  | inr other ↦ ground (arith, ap (λ x. str_eq x "owner") (role_of-drop_row c u d v ms other))
]

-- ===== src/Authz/Headers/Entries.antt =====
-- What collecting entries does to the map of roles by organization.
use hquizlet_platform.Prelude.{
  ◌≡◌, sym, ap, ◌∙◌, ◌&&◌, ◌||◌, String, List, [], ◌∷◌, ◌++◌, arith, str_eq, eq_iff, Bool-cases,
  inl, inr, if◌then◌else◌,
}
use hquizlet_platform.Prelude.Int.{ℤ, eq_ℤ, eq_ℤ→≡}
use hquizlet_platform.Authz.Principal.{contains, contains-append, org_entry}
use hquizlet_platform.Authz.Headers.{add_role}

contains-once :
    (roles : List String) (role r : String)
    → contains (if contains roles role then roles else roles ++ role ∷ []) r
      ≡ (contains roles r || str_eq role r)
contains-once roles role r = elim (Bool-cases (contains roles role)) [
  | inl there ↦ elim (Bool-cases (str_eq role r)) [
    | inl same ↦ ground (arith, there, same, ap (contains roles) ((eq_iff role r).0 same))
    | inr other ↦ ground (arith, there, other)
  ]
  | inr absent ↦ ground (arith, absent, contains-append roles (role ∷ []) r)
]

pub contains-add_role :
    (org : ℤ) (role : String) (m : List (ℤ × List String)) (k : ℤ) (r : String)
    → contains (org_entry k (add_role org role m)) r
      ≡ (contains (org_entry k m) r || (eq_ℤ org k && str_eq role r))
unfolding add_role
contains-add_role org role [] k r = elim (Bool-cases (eq_ℤ org k)) [
  | inl same ↦ ground (arith, same)
  | inr other ↦ ground (arith, other)
]
contains-add_role org role ((j, roles) ∷ m) k r = elim (Bool-cases (eq_ℤ j org)) [
  | inl same ↦
      let swap = ap (λ x. eq_ℤ x k) (eq_ℤ→≡ j org same) in
      elim (Bool-cases (eq_ℤ j k)) [
        | inl here ↦ rw (same, here, sym swap ∙ here) (contains-once roles role r)
        | inr there ↦ ground (arith, same, there, swap)
      ]
  | inr other ↦ elim (Bool-cases (eq_ℤ j k)) [
    | inl here ↦ elim (Bool-cases (eq_ℤ org k)) [
      | inl again ↦ cc (other, here, ap (λ x. eq_ℤ j x) (eq_ℤ→≡ org k again))
      | inr away ↦ ground (arith, other, here, away)
    ]
    | inr there ↦ rw (other, there) (contains-add_role org role m k r)
  ]
]

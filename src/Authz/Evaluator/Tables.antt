-- ===== src/Authz/Evaluator/Tables.antt =====
-- Facts about every statement of the managed policies, from one pass over the table.
use hquizlet_platform.Prelude.{
  ◌≡◌, refl, Bool, true, false, not, ◌&&◌, ◌||◌, String, List, [], ◌∷◌, arith, any, any-append, all,
  all-append, str_eq, eq_iff, ap, Bool-cases, inl, inr,
}
use hquizlet_platform.Authz.Roles.{Statement, Policy}
use hquizlet_platform.Authz.Principal.{contains}
use hquizlet_platform.Authz.Policies.{managed_policies, find_policy}
use hquizlet_platform.Authz.Evaluator.{statements_of}
use hquizlet_platform.Authz.Evaluator.Decision.{granted}

module _ (ok : String → Bool) (t : Statement → Bool) where
  -- The test passes at every statement of the policies whose role key is meant.
  abbrev pub check_table : List (String × Policy) → Bool
  check_table [] = true
  check_table ((k, pol) ∷ m) = (not (ok k) || all t pol.statements) && check_table m

  find_policy-check :
      (key : String) (m : List (String × Policy))
      → check_table m ≡ true
      → ok key ≡ true
      → all t (statements_of (find_policy key m)) ≡ true
  unfolding find_policy
  find_policy-check key [] h o = refl
  find_policy-check key ((k, pol) ∷ m) h o = elim (Bool-cases (str_eq k key)) [
    | inl same ↦ ground (arith, ap ok ((eq_iff k key).0 same))
    | inr other ↦ ground (arith, find_policy-check key m)
  ]

  pub granted-check :
      (keys : List String)
      → check_table managed_policies ≡ true
      → all ok keys ≡ true
      → all t (granted keys) ≡ true
  unfolding granted
  granted-check [] h o = refl
  granted-check (key ∷ keys) h o =
      let ss = statements_of (find_policy key managed_policies) in
      ground (
        arith,
        all-append t ss (granted keys),
        find_policy-check key managed_policies,
        granted-check keys,
      )

-- Where one test rules another out, the second passes nowhere in a list at which the first holds.
pub any-false :
    (t u : Statement → Bool) (ss : List Statement)
    → ((s : Statement) → t s ≡ true → u s ≡ false)
    → all t ss ≡ true
    → any u ss ≡ false
any-false t u [] ruled h = refl
any-false t u (s ∷ ss) ruled h = ground (arith, ruled s, any-false t u ss ruled)

module _ (u : Statement → Bool) (role : String) where
  granted_cons :
      (key : String) (keys : List String)
      → any u (granted (key ∷ keys)) ≡ (any u (granted (key ∷ [])) || any u (granted keys))
  unfolding granted
  granted_cons key keys =
      let ss = statements_of (find_policy key managed_policies) in
      ground (arith, any-append u ss (granted keys), any-append u ss [])

  -- What some statement of a role's policy does, some statement of a list with that role does.
  pub granted-contains :
      (keys : List String)
      → any u (granted (role ∷ [])) ≡ true
      → contains keys role ≡ true
      → any u (granted keys) ≡ true
  granted-contains [] g h = cc
  granted-contains (key ∷ keys) g h = elim (Bool-cases (str_eq key role)) [
    | inl same ↦ ground (
      arith,
      ap (λ k. any u (granted (k ∷ []))) ((eq_iff key role).0 same),
      granted_cons key keys,
    )
    | inr other ↦ ground (arith, granted_cons key keys, granted-contains keys g)
  ]

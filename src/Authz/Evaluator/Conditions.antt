-- ===== src/Authz/Evaluator/Conditions.antt =====
-- evalConditions ranges over a Go map, whose order of iteration is not fixed.
use mathlib.Core.Logic.{∥∥₁_elim}
use mathlib.Core.List.{Perm, Permᴰ}
use hquizlet_platform.Prelude.{
  ◌≡◌, refl, ap, ap₂, ◌∙◌, Bool, true, false, ◌&&◌, String, List, [], ◌∷◌, arith, str_eq, eq_iff,
  Bool-cases, inl, inr, if◌then◌else◌,
}
use hquizlet_platform.Authz.Actions.{Action}
use hquizlet_platform.Authz.Resource.{Target}
use hquizlet_platform.Authz.Principal.{Actor, contains}
use hquizlet_platform.Authz.Evaluator.{
  eval_condition, eval_conditions, can, all_actions, allowed_actions, effective_actions,
}

Bool-set : IsSet Bool
Bool-set = hlevel

swap_tests :
    (a b rest : Bool)
    → (if a then if b then rest else false else false)
      ≡ (if b then if a then rest else false else false)
swap_tests true true rest = refl
swap_tests true false rest = refl
swap_tests false true rest = refl
swap_tests false false rest = refl

module _ (p : Actor) (r : Target) where
  eval_conditions-permᴰ :
      {c d : List (String × String)} → Permᴰ c d → eval_conditions c p r ≡ eval_conditions d p r
  unfolding eval_conditions
  eval_conditions-permᴰ Permᴰ.nil = refl
  eval_conditions-permᴰ (Permᴰ.cons e h) =
      ap₂ (λ x rest. if eval_condition x p r then rest else false) e (eval_conditions-permᴰ h)
  eval_conditions-permᴰ (Permᴰ.swap {a' = x} {b' = y} {l = c} e f) =
      ap₂
        (λ u v.
          if eval_condition u p r
          then if eval_condition v p r then eval_conditions c p r else false
          else false)
        e f
      ∙ swap_tests (eval_condition y p r) (eval_condition x p r) (eval_conditions c p r)
  eval_conditions-permᴰ (Permᴰ.trans h k) = eval_conditions-permᴰ h ∙ eval_conditions-permᴰ k

-- The answer of evalConditions does not depend on the order in which the map is read.
eval_conditions-perm :
    (p : Actor) (r : Target) (c d : List (String × String))
    → Perm c d
    → eval_conditions c p r ≡ eval_conditions d p r
eval_conditions-perm p r c d h = ∥∥₁_elim h (Bool-set _ _) (eval_conditions-permᴰ p r)

allowed-contains :
    (p : Actor) (r : Target) (a : Action) (l : List Action)
    → contains (allowed_actions p r l) a ≡ (contains l a && can p a r)
unfolding allowed_actions
allowed-contains p r a [] = refl
allowed-contains p r a (x ∷ l) = elim (Bool-cases (str_eq x a)) [
  | inl same ↦ ground (arith, allowed-contains p r a l, ap (λ y. can p y r) ((eq_iff x a).0 same))
  | inr other ↦ ground (arith, allowed-contains p r a l)
]

-- EffectiveActions lists exactly the actions of its list that Can permits.
effective_actions-contains :
    (p : Actor) (r : Target) (a : Action)
    → contains (effective_actions p r) a ≡ (contains all_actions a && can p a r)
unfolding effective_actions
effective_actions-contains p r a = allowed-contains p r a all_actions

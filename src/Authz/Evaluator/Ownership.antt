-- ===== src/Authz/Evaluator/Ownership.antt =====
-- The actions on one's own study sets, for actors that are no platform administrators.
use hquizlet_platform.Prelude.{
  ◌≡◌, refl, Bool, true, false, not, ◌&&◌, ◌||◌, String, List, [], ◌∷◌, arith, ap, any, all, str_eq,
  eq_iff, Bool-cases, inl, inr,
}
use hquizlet_platform.Authz.Actions.{Action}
use hquizlet_platform.Authz.Roles.{Statement, platform_admin}
use hquizlet_platform.Authz.Resource.{Target, match_action}
use hquizlet_platform.Authz.Principal.{Actor, contains, effective_role_keys}
use hquizlet_platform.Authz.Policies.{managed_policies, all_study_own}
use hquizlet_platform.Authz.Evaluator.{is_self, eval_condition, eval_conditions, applies, can}
use hquizlet_platform.Authz.Evaluator.Decision.{is_allow, granted, allows, can_iam_rule}
use hquizlet_platform.Authz.Evaluator.Tables.{granted-check, any-false}

abbrev self_entry : String × String → Bool
self_entry (k, v) = str_eq k "resourceOwner" && str_eq v "self"

abbrev is_not_admin : String → Bool
is_not_admin key = not (str_eq key platform_admin)

-- An Allow of one of these actions asks for the owner.
abbrev asks_for_owner : Statement → Bool
asks_for_owner s =
    not (is_allow s.effect)
    || not (any (match_action s.actions) all_study_own)
    || any self_entry s.condition

pub any-contains :
    (f : String → Bool) (a : String) (l : List String)
    → contains l a ≡ true
    → f a ≡ true
    → any f l ≡ true
any-contains f a [] h fa = cc
any-contains f a (x ∷ l) h fa = elim (Bool-cases (str_eq x a)) [
  | inl same ↦ ground (arith, ap f ((eq_iff x a).0 same))
  | inr other ↦ ground (arith, any-contains f a l)
]

none_admin :
    (keys : List String) → contains keys platform_admin ≡ false → all is_not_admin keys ≡ true
none_admin [] h = refl
none_admin (key ∷ keys) h = ground (arith, none_admin keys)

module _ (p : Actor) (r : Target) (other_owner : is_self p r ≡ false) where
  self_entry_fails : (e : String × String) → self_entry e ≡ true → eval_condition e p r ≡ false
  self_entry_fails (k, v) h = ground (
    arith,
    λ (same : str_eq k "resourceOwner" ≡ true).
        ap (λ x. eval_condition (x, v) p r) ((eq_iff k "resourceOwner").0 same),
  )

  self_conditions_fail :
      (cond : List (String × String))
      → any self_entry cond ≡ true
      → eval_conditions cond p r ≡ false
  unfolding eval_conditions
  self_conditions_fail [] h = cc
  self_conditions_fail (e ∷ cond) h = ground (arith, self_entry_fails e, self_conditions_fail cond)

  module _ (a : Action) (own : contains all_study_own a ≡ true) where
    not_allowed : (s : Statement) → asks_for_owner s ≡ true → allows p a r s ≡ false
    unfolding applies
    not_allowed s h = ground (
      arith,
      any-contains (match_action s.actions) a all_study_own own,
      self_conditions_fail s.condition,
    )

-- Of the seven study-set actions that owners have, an actor with no role PlatformAdmin may do none
-- on a resource that it does not own, whatever its other roles are.
pub study_own_needs_owner :
    (p : Actor) (a : Action) (r : Target)
    → contains all_study_own a ≡ true
    → contains (effective_role_keys p r) platform_admin ≡ false
    → is_self p r ≡ false
    → can p a r ≡ false
study_own_needs_owner p a r own plain other_owner =
    let keys = effective_role_keys p r in
    let checked : all asks_for_owner (granted keys) ≡ true =
      granted-check is_not_admin asks_for_owner keys (unfold managed_policies match_action in refl)
        (none_admin keys plain) in
    ground (
      arith,
      can_iam_rule p a r,
      any-false asks_for_owner (allows p a r) (granted keys) (not_allowed p r other_owner a own)
          checked,
    )

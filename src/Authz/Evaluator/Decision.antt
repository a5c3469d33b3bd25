-- ===== src/Authz/Evaluator/Decision.antt =====
-- Can of packages/authz/evaluator.go against the IAM rule: the statements that apply are collected,
-- a Deny among them beats every Allow, and with no Allow the answer is no.
use hquizlet_platform.Prelude.{
  ◌≡◌, Bool, true, false, not, ◌&&◌, ◌||◌, String, List, [], ◌∷◌, ◌++◌, arith, any, any-append,
}
use hquizlet_platform.Authz.Actions.{Action}
use hquizlet_platform.Authz.Roles.{Effect, allow, deny, Statement}
use hquizlet_platform.Authz.Resource.{Target}
use hquizlet_platform.Authz.Principal.{Actor, effective_role_keys}
use hquizlet_platform.Authz.Policies.{managed_policies, find_policy}
use hquizlet_platform.Authz.Evaluator.{
  Verdict, applies, note_effect, scan_statements, statements_of, scan_roles, can,
}

abbrev pub is_allow : Effect → Bool
is_allow allow = true
is_allow deny = false

-- All statements of the managed policies of some role keys.
unfoldable pub granted : List String → List Statement
granted [] = []
granted (key ∷ keys) = statements_of (find_policy key managed_policies) ++ granted keys

module _ (p : Actor) (a : Action) (r : Target) where
  -- The statement applies, with the effect Allow; with the effect Deny.
  abbrev pub allows : Statement → Bool
  allows s = is_allow s.effect && applies p a r s

  abbrev pub denies : Statement → Bool
  denies s = not (is_allow s.effect) && applies p a r s

  scan_statements-allowed :
      (ss : List Statement) (v : Verdict)
      → (scan_statements p a r ss v).allowed ≡ (v.allowed || any allows ss)
  unfolding scan_statements
  scan_statements-allowed [] v = ground arith
  scan_statements-allowed (s ∷ ss) v =
      ground
        (arith, scan_statements-allowed ss v, scan_statements-allowed ss (note_effect s.effect v))

  scan_statements-denied :
      (ss : List Statement) (v : Verdict)
      → (scan_statements p a r ss v).denied ≡ (v.denied || any denies ss)
  unfolding scan_statements
  scan_statements-denied [] v = ground arith
  scan_statements-denied (s ∷ ss) v =
      ground
        (arith, scan_statements-denied ss v, scan_statements-denied ss (note_effect s.effect v))

  scan_roles-allowed :
      (keys : List String) (v : Verdict)
      → (scan_roles p a r keys v).allowed ≡ (v.allowed || any allows (granted keys))
  unfolding scan_roles granted
  scan_roles-allowed [] v = ground arith
  scan_roles-allowed (key ∷ keys) v =
      let ss = statements_of (find_policy key managed_policies) in
      ground (
        arith,
        scan_roles-allowed keys (scan_statements p a r ss v),
        scan_statements-allowed ss v,
        any-append allows ss (granted keys),
      )

  scan_roles-denied :
      (keys : List String) (v : Verdict)
      → (scan_roles p a r keys v).denied ≡ (v.denied || any denies (granted keys))
  unfolding scan_roles granted
  scan_roles-denied [] v = ground arith
  scan_roles-denied (key ∷ keys) v =
      let ss = statements_of (find_policy key managed_policies) in
      ground (
        arith,
        scan_roles-denied keys (scan_statements p a r ss v),
        scan_statements-denied ss v,
        any-append denies ss (granted keys),
      )

-- Can permits an action exactly when some statement of the actor's effective roles applies with
-- the effect Allow and none applies with the effect Deny.
pub can_iam_rule :
    (p : Actor) (a : Action) (r : Target)
    → can p a r ≡ (
        any (allows p a r) (granted (effective_role_keys p r))
        && not (any (denies p a r) (granted (effective_role_keys p r))))
unfolding can
can_iam_rule p a r =
    let v : Verdict = record { allowed = false; denied = false } in
    let keys = effective_role_keys p r in
    ground (arith, scan_roles-allowed p a r keys v, scan_roles-denied p a r keys v)

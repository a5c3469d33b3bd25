-- ===== src/Authz/Resource/Wildcards.antt =====
-- matchAction of packages/authz/resource.go at the patterns service:* that it has a branch for.
use Prim.Native.Char.{code}
use hquizlet_platform.Prelude.{
  String, ◌≡◌, refl, sym, ap, false, [], ◌∷◌, arith, ==_refl, str_eq, eq_iff, Bool-cases, inl, inr,
}
use hquizlet_platform.Prelude.Text.{append, has_prefix, trim_suffix}
use hquizlet_platform.Authz.Resource.{match_action}

differs : (s t : String) → (s ≡ t → ⊥) → str_eq s t ≡ false
differs s t h = elim (Bool-cases (str_eq s t)) [
  | inl same ↦ absurd (h ((eq_iff s t).0 same))
  | inr other ↦ other
]

append-cancel : (s x y : String) → append s x ≡ append s y → x ≡ y
append-cancel String.[] x y h = h
append-cancel (String.◌∷◌ c s) x y h = append-cancel s x y (cc)

trim_wildcard : (s : String) → trim_suffix (append s ":*") ":" ≡ append s ":*"
trim_wildcard String.[] = refl
trim_wildcard (String.◌∷◌ c String.[]) = ground (arith, differs (String.◌∷◌ c ":*") ":" (λ e. cc))
trim_wildcard (String.◌∷◌ c (String.◌∷◌ d s)) = ground (
  arith,
  differs (String.◌∷◌ c (String.◌∷◌ d (append s ":*"))) ":" (λ e. cc),
  trim_wildcard (String.◌∷◌ d s),
)

not_star : (s : String) → str_eq (append s ":*") "*" ≡ false
not_star String.[] = refl
not_star (String.◌∷◌ c String.[]) = differs (String.◌∷◌ c ":*") "*" (λ e. cc)
not_star (String.◌∷◌ c (String.◌∷◌ d s)) =
    differs (String.◌∷◌ c (String.◌∷◌ d (append s ":*"))) "*" (λ e. cc)

star_colon : (verb : String) → has_prefix verb "*" ≡ false → has_prefix verb "*:" ≡ false
star_colon String.[] h = refl
star_colon (String.◌∷◌ c verb) h = ground arith

module _ (verb : String) (plain : has_prefix verb "*" ≡ false) where
  no_prefix :
      (s : String) → has_prefix (append s (append ":" verb)) (append (append s ":*") ":") ≡ false
  no_prefix String.[] = star_colon verb plain
  no_prefix (String.◌∷◌ c s) = ground (arith, ==_refl (code c), no_prefix s)

  not_literal : (s : String) → str_eq (append s ":*") (append s (append ":" verb)) ≡ false
  not_literal s = differs _ _ λ e.
      let tail : verb ≡ "*" =
        sym (append-cancel ":" "*" verb (append-cancel s ":*" (append ":" verb) e)) in
      cc (ap (λ v. has_prefix v "*") tail)

-- The pattern service:* matches no action of that service: the prefix that the source looks for is
-- service:*: and not service:, so an action service:verb fails it unless the verb begins with "*".
service_wildcard_dead :
    (service verb : String)
    → has_prefix verb "*" ≡ false
    → match_action (append service ":*" ∷ []) (append service (append ":" verb)) ≡ false
unfolding match_action
service_wildcard_dead service verb plain = ground (
  arith,
  trim_wildcard service,
  not_star service,
  not_literal verb plain service,
  no_prefix verb plain service,
)

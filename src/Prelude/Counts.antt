-- ===== src/Prelude/Counts.antt =====
-- How often a test passes in a list, which no order of the list changes.
use Prim.Native.Nat.{ℕ, ◌+◌, ◌≤◌}
use mathlib.Core.Path.{◌≡◌, refl, ap, ap₂, ◌∙◌}
use mathlib.Core.Bool.{Bool, true, ◌&&◌}
use mathlib.Core.Logic.{∥∥₁_elim, ∥∥₁_map}
use mathlib.Core.List.{List, [], ◌∷◌, ◌++◌, map, Perm, Permᴰ}
use native.Mathlib.Omega.{arith}
use hquizlet_platform.Prelude.Tests.{if◌then◌else◌}
use hquizlet_platform.Prelude.Lists.{length, all}

Bool-set : IsSet Bool
Bool-set = hlevel

ℕ-set : IsSet ℕ
ℕ-set = hlevel

module _ {ℓ} {A : Type ℓ} where
  abbrev pub count : (A → Bool) → List A → ℕ
  count p [] = 0
  count p (x ∷ xs) = (if p x then 1 else 0) + count p xs

module _ {ℓ} {A : Type ℓ} (p : A → Bool) where
  pub count-append : (xs ys : List A) → count p (xs ++ ys) ≡ count p xs + count p ys
  count-append [] ys = omega arith
  count-append (x ∷ xs) ys = omega (arith, count-append xs ys)

  count-permᴰ : {xs ys : List A} → Permᴰ xs ys → count p xs ≡ count p ys
  count-permᴰ Permᴰ.nil = refl
  count-permᴰ (Permᴰ.cons e h) = ground (arith, e, count-permᴰ h)
  count-permᴰ (Permᴰ.swap e f) = ground (arith, e, f)
  count-permᴰ (Permᴰ.trans h k) = count-permᴰ h ∙ count-permᴰ k

  pub count-perm : {xs ys : List A} → Perm xs ys → count p xs ≡ count p ys
  count-perm h = ∥∥₁_elim h (ℕ-set _ _) count-permᴰ

  all-permᴰ : {xs ys : List A} → Permᴰ xs ys → all p xs ≡ all p ys
  all-permᴰ Permᴰ.nil = refl
  all-permᴰ (Permᴰ.cons e h) = ap₂ (λ a b. p a && b) e (all-permᴰ h)
  all-permᴰ (Permᴰ.swap e f) = ground (arith, e, f)
  all-permᴰ (Permᴰ.trans h k) = all-permᴰ h ∙ all-permᴰ k

  pub all-perm : {xs ys : List A} → Perm xs ys → all p xs ≡ all p ys
  all-perm h = ∥∥₁_elim h (Bool-set _ _) all-permᴰ

  pub count-le-length : (xs : List A) → count p xs ≤ length xs
  count-le-length [] = omega arith
  count-le-length (x ∷ xs) = ground (arith, count-le-length xs)

  count_all : (xs : List A) → count (λ _. true) xs ≡ length xs
  count_all [] = refl
  count_all (x ∷ xs) = omega (arith, count_all xs)

module _ {ℓ κ} {A : Type ℓ} {B : Type κ} (f : A → B) where
  map-permᴰ : {xs ys : List A} → Permᴰ xs ys → Permᴰ (map f xs) (map f ys)
  map-permᴰ Permᴰ.nil = Permᴰ.nil
  map-permᴰ (Permᴰ.cons e h) = Permᴰ.cons (ap f e) (map-permᴰ h)
  map-permᴰ (Permᴰ.swap e g) = Permᴰ.swap (ap f e) (ap f g)
  map-permᴰ (Permᴰ.trans h k) = Permᴰ.trans (map-permᴰ h) (map-permᴰ k)

  pub map-perm : {xs ys : List A} → Perm xs ys → Perm (map f xs) (map f ys)
  map-perm h = ∥∥₁_map h map-permᴰ

pub length-perm {ℓ} : {A : Type ℓ} {xs ys : List A} → Perm xs ys → length xs ≡ length ys
length-perm {xs = xs} {ys = ys} h =
    omega (arith, count-perm (λ _. true) h, count_all (λ _. true) xs, count_all (λ _. true) ys)

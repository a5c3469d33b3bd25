-- ===== src/Quiz/Shuffle/Permutes.antt =====
-- shuffle loses nothing and repeats nothing.
use mathlib.Core.List.{Perm}
use mathlib.Core.List.Perm as P
use hquizlet_platform.Prelude.{
  ℕ, zero, suc, ◌+◌, ◌-◌, ◌%◌, ◌≡◌, List, [], ◌∷◌, some, length, get_elem?, Option-cases, inl, inr,
  ◌==◌, if◌then◌else◌,
}
use hquizlet_platform.Quiz.Shuffle.{next_seed, set, swap_at, shuffle_from, shuffle}

module _ {ℓ} {A : Type ℓ} where
  some-inj : {x y : A} → some x ≡ some y → x ≡ y
  some-inj e = cc

  -- Putting `x` in the place of `y`, and `y` in front in the place of `x`.
  exchange :
      (x y : A) (xs : List A) (j : ℕ) → get_elem? xs j ≡ some y → Perm (y ∷ set xs j x) (x ∷ xs)
  exchange x y [] j h = cc
  exchange x y (z ∷ zs) zero h = rw (some-inj h) (P.swap x y zs)
  exchange x y (z ∷ zs) (suc j) h =
      P.trans (P.swap z y (set zs j x)) (P.trans (P.cons z (exchange x y zs j h)) (P.swap x z zs))

  set-set-perm :
      (x y : A) (xs : List A) (i j : ℕ)
      → get_elem? xs i ≡ some x
      → get_elem? xs j ≡ some y
      → Perm (set (set xs i y) j x) xs
  set-set-perm x y [] i j h k = cc
  set-set-perm x y (z ∷ zs) zero zero h k = rw (some-inj h) P.rfl
  set-set-perm x y (z ∷ zs) zero (suc j) h k = rw (some-inj h) (exchange x y zs j k)
  set-set-perm x y (z ∷ zs) (suc i) zero h k = rw (some-inj k) (exchange y x zs i h)
  set-set-perm x y (z ∷ zs) (suc i) (suc j) h k = P.cons z (set-set-perm x y zs i j h k)

  swap_at-perm : (i j : ℕ) (xs : List A) → Perm (swap_at i j xs) xs
  unfolding swap_at
  swap_at-perm i j xs = elim (Option-cases (get_elem? xs i)) [
    | inl absent ↦ rw (swap_at, absent) P.rfl
    | inr (x, at_i) ↦ elim (Option-cases (get_elem? xs j)) [
      | inl absent ↦ rw (swap_at, at_i, absent) P.rfl
      | inr (y, at_j) ↦ rw (swap_at, at_i, at_j) (set-set-perm x y xs i j at_i at_j)
    ]
  ]

  shuffle_from-perm : (i seed : ℕ) (xs : List A) → Perm (shuffle_from i seed xs) xs
  unfolding shuffle_from
  shuffle_from-perm zero seed xs = P.rfl
  shuffle_from-perm (suc i) seed xs =
      let next = next_seed seed in
      P.trans (shuffle_from-perm i next (swap_at (suc i) (next % (i + 2)) xs))
        (swap_at-perm (suc i) (next % (i + 2)) xs)

  -- The shuffled list is a rearrangement of the list, for every seed.
  pub shuffle-perm : (xs : List A) (seed : ℕ) → Perm (shuffle xs seed) xs
  unfolding shuffle
  shuffle-perm xs seed = shuffle_from-perm (length xs - 1) (if seed == 0 then 1 else seed) xs

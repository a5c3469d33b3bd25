-- ===== src/Quiz/Shuffle.antt =====
-- The function shuffle of services/quiz/internal/engine/engine.go: Fisher and Yates over xorshift64.
pub mod Permutes
use Prim.Native.Nat.{bit_xor}
use hquizlet_platform.Prelude.{
  ℕ, zero, suc, ◌+◌, ◌-◌, ◌*◌, ◌/◌, ◌%◌, ◌^◌, List, [], ◌∷◌, Option, none, some, length, get_elem?,
  ◌==◌, if◌then◌else◌,
}

-- seed ^= seed << 13; seed ^= seed >> 7; seed ^= seed << 17, on uint64
abbrev pub next_seed : ℕ → ℕ
next_seed seed =
    let a = bit_xor seed ((seed * 2 ^ 13) % 2 ^ 64) in
    let b = bit_xor a (a / 2 ^ 7) in bit_xor b ((b * 2 ^ 17) % 2 ^ 64)

module _ {ℓ} {A : Type ℓ} where
  -- xs[i] = v
  abbrev pub set : List A → ℕ → A → List A
  set [] i v = []
  set (x ∷ xs) zero v = v ∷ xs
  set (x ∷ xs) (suc i) v = x ∷ set xs i v

  -- out[i], out[j] = out[j], out[i]; the callers keep both within the list.
  unfoldable pub swap_at : ℕ → ℕ → List A → List A
  swap_at i j xs = elim (get_elem? xs i) [
    | none ↦ xs
    | some x ↦ elim (get_elem? xs j) [ none ↦ xs | some y ↦ set (set xs i y) j x ]
  ]

  -- The loop, from the index `i` down to 1.
  unfoldable pub shuffle_from : ℕ → ℕ → List A → List A
  shuffle_from zero seed out = out
  shuffle_from (suc i) seed out =
      let next = next_seed seed in shuffle_from i next (swap_at (suc i) (next % (i + 2)) out)

  -- shuffle
  unfoldable pub shuffle : List A → ℕ → List A
  unfolding shuffle_from
  shuffle xs seed = shuffle_from (length xs - 1) (if seed == 0 then 1 else seed) xs

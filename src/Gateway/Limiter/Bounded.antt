-- ===== src/Gateway/Limiter/Bounded.antt =====
-- The table of buckets does not grow without bound.
use hquizlet_platform.Prelude.{
  ℕ, zero, suc, ◌+◌, ◌-◌, ◌/◌, ◌≤◌, ◌<◌, ◌≡◌, String, List, [], ◌∷◌, some, length, drop, All, arith,
  Option-cases, inl, inr,
}
use hquizlet_platform.Gateway.Limiter.{
  FloatOps, Rule, Bucket, Buckets, bucket_of, put, drop_idle, at_least_one, evict_locked, full,
  fetch, refill, spend, allow,
}

module _ {F : Type 0} where
  length-put :
      (key : String) (b c : Bucket F) (bs : Buckets F)
      → bucket_of key bs ≡ some c
      → length (put key b bs) ≡ length bs
  unfolding bucket_of put
  length-put key b c [] h = cc
  length-put key b c ((k, d) ∷ bs) h = ground (arith, length-put key b c bs)

  length-put_new :
      (key : String) (b : Bucket F) (bs : Buckets F) → length (put key b bs) ≤ length bs + 1
  unfolding put
  length-put_new key b [] = omega arith
  length-put_new key b ((k, c) ∷ bs) = ground (arith, length-put_new key b bs)

  length-drop : (n : ℕ) (bs : Buckets F) → length (drop n bs) ≤ length bs - n
  length-drop zero [] = omega arith
  length-drop (suc n) [] = omega arith
  length-drop zero (b ∷ bs) = omega arith
  length-drop (suc n) (b ∷ bs) = omega (arith, length-drop n bs)

  length-drop_idle : (now : ℕ) (bs : Buckets F) → length (drop_idle now bs) ≤ length bs
  unfolding drop_idle
  length-drop_idle now [] = omega arith
  length-drop_idle now ((k, b) ∷ bs) = ground (arith, length-drop_idle now bs)

  length-evict :
      (order : Buckets F → Buckets F) (max_keys now : ℕ) (bs : Buckets F)
      → ((cs : Buckets F) → length (order cs) ≡ length cs)
      → 0 < max_keys
      → length bs ≤ max_keys
      → length (evict_locked order max_keys now bs) < max_keys
  unfolding evict_locked
  length-evict order max_keys now bs same some_ h =
      let kept = drop_idle now bs in
      ground (
        arith,
        length-drop_idle now bs,
        same kept,
        length-drop (at_least_one (max_keys / 10)) (order kept),
      )

-- A call of the limiter, with the order in which it meets the entries of the map.
pub record Call (F : Type 0) : Type 0 where
  pub key : String
  pub rule : Rule
  pub now : ℕ
  pub order : Buckets F → Buckets F

-- The order of a map has as many entries as the map.
abbrev pub KeepsCount : {F : Type 0} → Call F → Type 0
KeepsCount {F} c = (bs : Buckets F) → length (c.order bs) ≡ length bs

module _ {F : Type 0} (x : FloatOps F) where
  -- The table after some calls.
  unfoldable pub allow_all : ℕ → List (Call F) → Buckets F → Buckets F
  allow_all max_keys [] bs = bs
  allow_all max_keys (c ∷ calls) bs =
      allow_all max_keys calls (allow x c.order max_keys c.key c.rule c.now bs).0

  allow_bounded :
      (order : Buckets F → Buckets F) (max_keys : ℕ) (key : String) (r : Rule) (now : ℕ)
      (bs : Buckets F)
      → ((cs : Buckets F) → length (order cs) ≡ length cs)
      → 0 < max_keys
      → length bs ≤ max_keys
      → length (allow x order max_keys key r now bs).0 ≤ max_keys
  unfolding allow
  allow_bounded order max_keys key r now bs same some_ h =
      let b = (spend x r (fetch x order max_keys key r now bs (bucket_of key bs)).1).0 in
      elim (Option-cases (bucket_of key bs)) [
        | inl absent ↦ ground (
          arith,
          absent,
          length-evict order max_keys now bs same some_ h,
          length-put_new key (spend x r (full x r now)).0 (evict_locked order max_keys now bs),
        )
        | inr (c, found) ↦
            ground (arith, found, length-put key (spend x r (refill x r now c)).0 c bs found)
      ]

  calls_bounded :
      (max_keys : ℕ) (calls : List (Call F)) (bs : Buckets F)
      → All KeepsCount calls
      → 0 < max_keys
      → length bs ≤ max_keys
      → length (allow_all max_keys calls bs) ≤ max_keys
  unfolding allow_all
  calls_bounded max_keys [] bs same some_ h = h
  calls_bounded max_keys (c ∷ calls) bs same some_ h =
      calls_bounded max_keys calls (allow x c.order max_keys c.key c.rule c.now bs).0 same.1 some_
        (allow_bounded c.order max_keys c.key c.rule c.now bs same.0 some_ h)

  -- However many different keys a flood of requests uses, under whatever rules and at whatever times,
  -- the limiter, which starts with no bucket, holds at most its maximum of them after every request,
  -- in whatever order each call walks the map when it evicts entries and whatever the arithmetic of
  -- floating point gives. The maximum is positive, as newMemoryLimiter makes it.
  pub flood_bounded :
      (max_keys : ℕ) (calls : List (Call F))
      → All KeepsCount calls
      → 0 < max_keys
      → length (allow_all max_keys calls []) ≤ max_keys
  flood_bounded max_keys calls same some_ = calls_bounded max_keys calls [] same some_ (omega arith)

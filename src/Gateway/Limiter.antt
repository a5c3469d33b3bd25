-- ===== src/Gateway/Limiter.antt =====
-- The memoryLimiter of services/gateway/ratelimit.go. A Go map is the list of its entries, in the order
-- in which a loop meets them where `order` says so. Times are nanoseconds. The code counts tokens
-- in floating point, whose numbers and operations are the argument FloatOps. A limit, window or
-- burst of 0 stands for any that is not positive.
pub mod Bounded
use hquizlet_platform.Prelude.{
  ℕ, ◌-◌, ◌*◌, ◌/◌, Bool, true, false, not, ◌||◌, String, List, [], ◌∷◌, Option, none, some, length,
  drop, ltb, ◌==◌, str_eq, if◌then◌else◌,
}

-- The operations of float64, the seconds of a duration (Duration.Seconds), and the conversion of a
-- float64 to a duration.
pub record FloatOps (F : Type 0) : Type 0 where
  pub from_int : ℕ → F
  pub seconds : ℕ → F
  pub add : F → F → F
  pub sub : F → F → F
  pub mul : F → F → F
  pub div : F → F → F
  pub min : F → F → F
  pub less : F → F → Bool
  pub duration : F → ℕ

-- Rule
pub record Rule : Type 0 where
  pub name : String
  pub limit : ℕ
  pub window : ℕ
  pub burst : ℕ

abbrev pub second : ℕ
second = 1000000000

-- Rule.burst
abbrev pub burst_of : Rule → ℕ
burst_of r = if ltb 0 r.burst then r.burst else if ltb 0 r.limit then r.limit else 1

-- bucket
pub record Bucket (F : Type 0) : Type 0 where
  pub tokens : F
  pub last : ℕ
  pub seen : ℕ

abbrev pub Buckets : Type 0 → Type 0
Buckets F = List (String × Bucket F)

-- idleTTL
abbrev pub idle_ttl : ℕ
idle_ttl = 600 * second

-- The second loop of evictLocked deletes at least one entry.
abbrev pub at_least_one : ℕ → ℕ
at_least_one n = if n == 0 then 1 else n

module _ {F : Type 0} where
  unfoldable pub bucket_of : String → Buckets F → Option (Bucket F)
  bucket_of key [] = none
  bucket_of key ((k, b) ∷ bs) = if str_eq k key then some b else bucket_of key bs

  unfoldable pub put : String → Bucket F → Buckets F → Buckets F
  put key b [] = (key, b) ∷ []
  put key b ((k, c) ∷ bs) = if str_eq k key then (k, b) ∷ bs else (k, c) ∷ put key b bs

  unfoldable pub drop_idle : ℕ → Buckets F → Buckets F
  drop_idle now [] = []
  drop_idle now ((k, b) ∷ bs) =
      let rest = drop_idle now bs in if ltb idle_ttl (now - b.seen) then rest else (k, b) ∷ rest

  -- evictLocked
  unfoldable pub evict_locked : (Buckets F → Buckets F) → ℕ → ℕ → Buckets F → Buckets F
  unfolding drop_idle
  evict_locked order max_keys now bs =
      if ltb (length bs) max_keys
      then bs
      else let kept = drop_idle now bs in
        if ltb (length kept) max_keys
        then kept
        else drop (at_least_one (max_keys / 10)) (order kept)

module _ {F : Type 0} (x : FloatOps F) where
  -- ratePerSecond
  abbrev pub rate_per_second : Rule → F
  rate_per_second r =
      if r.window == 0 then x.from_int 1 else x.div (x.from_int r.limit) (x.seconds r.window)

  -- The bucket of a key that has none.
  abbrev pub full : Rule → ℕ → Bucket F
  full r now = record { tokens = x.from_int (burst_of r); last = now; seen = now }

  -- The bucket of a key once time has filled it. A clock that went back gives no positive elapsed time.
  unfoldable pub refill : Rule → ℕ → Bucket F → Bucket F
  refill r now b =
      let elapsed = x.seconds (now - b.last) in
      if x.less (x.from_int 0) elapsed
      then record {
        tokens =
            x.min (x.from_int (burst_of r)) (x.add b.tokens (x.mul elapsed (rate_per_second r)));
        last = now;
        seen = now;
      }
      else record b { seen = now }

  -- One token is spent where there is one; else the wait for it.
  unfoldable pub spend : Rule → Bucket F → Bucket F × Option ℕ
  spend r b =
      let one = x.from_int 1 in
      let wait =
        x.duration (x.mul (x.div (x.sub one b.tokens) (rate_per_second r)) (x.from_int second)) in
      if not (x.less b.tokens one)
      then (record b { tokens = x.sub b.tokens one }, none)
      else (b, some (if ltb wait second then second else wait))

  -- The entry of a key, and the table it is written to.
  abbrev pub fetch :
      (Buckets F → Buckets F)
      → ℕ
      → String
      → Rule
      → ℕ
      → Buckets F
      → Option (Bucket F)
      → Buckets F × Bucket F
  fetch order max_keys key r now bs none = (evict_locked order max_keys now bs, full r now)
  fetch order max_keys key r now bs (some b) = (bs, refill r now b)

  -- memoryLimiter.Allow; `none` allows, `some wait` does not.
  unfoldable pub allow :
      (Buckets F → Buckets F) → ℕ → String → Rule → ℕ → Buckets F → Buckets F × Option ℕ
  unfolding bucket_of put evict_locked refill spend
  allow order max_keys key r now bs =
      if (r.limit == 0) || (r.window == 0)
      then (bs, none)
      else let found = fetch order max_keys key r now bs (bucket_of key bs) in
        let spent = spend r found.1 in (put key spent.0 found.0, spent.1)

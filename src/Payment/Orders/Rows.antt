-- ===== src/Payment/Orders/Rows.antt =====
-- How the statements of order_repo.go change the rows of payment_order.
use hquizlet_platform.Prelude.{
  ℕ, String, ◌+◌, ◌≤◌, ◌<◌, ◌≡◌, ◌≢◌, refl, Bool, true, false, ◌&&◌, List, [], ◌∷◌, Option, none,
  some, arith, ltb, all, ◌==◌, if◌then◌else◌, Bool-cases, inl, inr,
}
use hquizlet_platform.Payment.Model.{OrderStatus, paid, is_pending, is_paid, PaymentOrder}
use hquizlet_platform.Payment.Orders.{order_by_id, order_by_code, set_status, cancel_pending}

-- What user `u` paid in with orders that are PAID.
abbrev pub paid_total : ℕ → List PaymentOrder → ℕ
paid_total u [] = 0
paid_total u (o ∷ os) =
    (if o.user_id == u && is_paid o.status then o.amount_vnd else 0) + paid_total u os

abbrev pub is_none : Option (ℕ × ℕ) → Bool
is_none none = true
is_none (some _) = false

abbrev pub ids_below : ℕ → List PaymentOrder → Bool
ids_below n os = all (λ o. ltb o.id n) os

paid_total-le-set_status :
    (u k : ℕ) (os : List PaymentOrder) → paid_total u os ≤ paid_total u (set_status k paid os)
paid_total-le-set_status u k [] = omega arith
paid_total-le-set_status u k (o ∷ os) = ground (arith, paid_total-le-set_status u k os)

-- Marking a pending order as PAID adds its amount to what its user paid in, at least.
pub paid_total-set_status :
    (u k : ℕ) (os : List PaymentOrder) (row : PaymentOrder)
    → order_by_id k os ≡ some row
    → is_pending row.status ≡ true
    → paid_total u os + (if row.user_id == u then row.amount_vnd else 0)
      ≤ paid_total u (set_status k paid os)
paid_total-set_status u k [] row h p = cc
paid_total-set_status u k (o ∷ os) row h p = elim (Bool-cases (o.id == k)) [
  | inl here ↦ ground (arith, paid_total-le-set_status u k os)
  | inr there ↦ ground (arith, paid_total-set_status u k os row)
]

pub paid_total-cancel_pending :
    (u k v : ℕ) (os : List PaymentOrder) → paid_total u (cancel_pending k v os) ≡ paid_total u os
paid_total-cancel_pending u k v [] = refl
paid_total-cancel_pending u k v (o ∷ os) = ground (arith, paid_total-cancel_pending u k v os)

pub ids_below-set_status :
    (n k : ℕ) (s : OrderStatus) (os : List PaymentOrder)
    → ids_below n (set_status k s os) ≡ ids_below n os
ids_below-set_status n k s [] = refl
ids_below-set_status n k s (o ∷ os) = ground (arith, ids_below-set_status n k s os)

pub ids_below-cancel_pending :
    (n k v : ℕ) (os : List PaymentOrder) → ids_below n (cancel_pending k v os) ≡ ids_below n os
ids_below-cancel_pending n k v [] = refl
ids_below-cancel_pending n k v (o ∷ os) = ground (arith, ids_below-cancel_pending n k v os)

pub ids_below-suc :
    (n : ℕ) (os : List PaymentOrder) → ids_below n os ≡ true → ids_below (n + 1) os ≡ true
ids_below-suc n [] h = refl
ids_below-suc n (o ∷ os) h = ground (arith, ids_below-suc n os)

pub order_by_id-lt :
    (n k : ℕ) (os : List PaymentOrder) (row : PaymentOrder)
    → ids_below n os ≡ true
    → order_by_id k os ≡ some row
    → k < n
order_by_id-lt n k [] row h e = cc
order_by_id-lt n k (o ∷ os) row h e = ground (arith, order_by_id-lt n k os row)

-- The user and the amount of the order with this id, which no statement changes.
abbrev pub origin : ℕ → List PaymentOrder → Option (ℕ × ℕ)
origin k [] = none
origin k (o ∷ os) = if o.id == k then some (o.user_id, o.amount_vnd) else origin k os

pub origin-set_status :
    (k j : ℕ) (s : OrderStatus) (os : List PaymentOrder)
    → origin k (set_status j s os) ≡ origin k os
origin-set_status k j s [] = refl
origin-set_status k j s (o ∷ os) = ground (arith, origin-set_status k j s os)

pub origin-cancel_pending :
    (k j u : ℕ) (os : List PaymentOrder) → origin k (cancel_pending j u os) ≡ origin k os
origin-cancel_pending k j u [] = refl
origin-cancel_pending k j u (o ∷ os) = ground (arith, origin-cancel_pending k j u os)

pub origin-order_by_id :
    (k : ℕ) (os : List PaymentOrder) (row : PaymentOrder)
    → order_by_id k os ≡ some row
    → origin k os ≡ some (row.user_id, row.amount_vnd)
origin-order_by_id k [] row h = cc
origin-order_by_id k (o ∷ os) row h = ground (arith, origin-order_by_id k os row)

pub origin-lt :
    (n k : ℕ) (os : List PaymentOrder) (x : ℕ × ℕ)
    → ids_below n os ≡ true
    → origin k os ≡ some x
    → k < n
origin-lt n k [] x h e = cc
origin-lt n k (o ∷ os) x h e = ground (arith, origin-lt n k os x)

-- What a request has read of an order still names that order's user and amount.
abbrev pub Matches : PaymentOrder → List PaymentOrder → Type 0
Matches o os = origin o.id os ≡ some (o.user_id, o.amount_vnd)

-- Ids are given once: no two rows have the same.
abbrev pub distinct_ids : List PaymentOrder → Bool
distinct_ids [] = true
distinct_ids (o ∷ os) = is_none (origin o.id os) && distinct_ids os

pub distinct_ids-set_status :
    (k : ℕ) (s : OrderStatus) (os : List PaymentOrder)
    → distinct_ids (set_status k s os) ≡ distinct_ids os
distinct_ids-set_status k s [] = refl
distinct_ids-set_status k s (o ∷ os) =
    ground (arith, distinct_ids-set_status k s os, origin-set_status o.id k s os)

pub distinct_ids-cancel_pending :
    (k u : ℕ) (os : List PaymentOrder) → distinct_ids (cancel_pending k u os) ≡ distinct_ids os
distinct_ids-cancel_pending k u [] = refl
distinct_ids-cancel_pending k u (o ∷ os) =
    ground (arith, distinct_ids-cancel_pending k u os, origin-cancel_pending o.id k u os)

-- An order read by its code matches the table that it was read from.
pub order_by_code-Matches :
    (code : String) (os : List PaymentOrder) (o : PaymentOrder)
    → distinct_ids os ≡ true
    → order_by_code code os ≡ some o
    → Matches o os
order_by_code-Matches code [] o d h = cc
order_by_code-Matches code (p ∷ os) o d h = ground (arith, order_by_code-Matches code os o)

pub origin-fresh :
    (n : ℕ) (os : List PaymentOrder) → ids_below n os ≡ true → is_none (origin n os) ≡ true
origin-fresh n [] h = refl
origin-fresh n (o ∷ os) h = ground (arith, origin-fresh n os)

-- The status of the order with this id.
abbrev pub status_of : ℕ → List PaymentOrder → Option OrderStatus
status_of k os = elim (order_by_id k os) [ none ↦ none | some o ↦ some o.status ]

pub status_of-set_status_self :
    (k : ℕ) (s : OrderStatus) (os : List PaymentOrder)
    → status_of k (set_status k s os) ≡ elim (order_by_id k os) [ none ↦ none | some _ ↦ some s ]
status_of-set_status_self k s [] = refl
status_of-set_status_self k s (o ∷ os) = ground (arith, status_of-set_status_self k s os)

pub order_by_id-set_status_ne :
    (k j : ℕ) (s : OrderStatus) (os : List PaymentOrder)
    → k ≢ j
    → order_by_id k (set_status j s os) ≡ order_by_id k os
order_by_id-set_status_ne k j s [] h = refl
order_by_id-set_status_ne k j s (o ∷ os) h = ground (arith, order_by_id-set_status_ne k j s os h)

-- What is not pending is not cancelled.
pub order_by_id-cancel_pending :
    (k j u : ℕ) (os : List PaymentOrder) (o : PaymentOrder)
    → order_by_id k os ≡ some o
    → is_pending o.status ≡ false
    → order_by_id k (cancel_pending j u os) ≡ some o
order_by_id-cancel_pending k j u [] o h f = cc
order_by_id-cancel_pending k j u (p ∷ os) o h f =
    ground (arith, order_by_id-cancel_pending k j u os o)

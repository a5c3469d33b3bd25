-- ===== src/Payment/Orders.antt =====
-- services/payment/internal/repository/order_repo.go, and the order operations of
-- services/payment/internal/service/order_svc.go. SePay's answers (the order code, the QR address)
-- and the time are arguments.
pub mod Rows
use hquizlet_platform.Prelude.{
  ℕ, ◌+◌, ◌*◌, Bool, true, false, not, ◌&&◌, ◌||◌, String, List, [], ◌∷◌, Option, none, some, leb,
  ◌==◌, str_eq, if◌then◌else◌,
}
use hquizlet_platform.Prelude.Int.{ℤ, pos, pos_part, ltb_ℤ}
use hquizlet_platform.Payment.Model.{
  OrderStatus, pending, cancelled, is_pending, PaymentOrder, Db, PaymentError, rate_limit_exceeded,
  invalid_amount, order_not_found, order_not_pending, internal, Result, ok, err, Faults,
  count_orders, insert_order, get_order, update_order,
}

abbrev pub max_pending_orders : ℕ
max_pending_orders = 5

abbrev pub min_deposit_vnd : ℕ
min_deposit_vnd = 10000

abbrev pub max_deposit_vnd : ℕ
max_deposit_vnd = 50000000

-- 30 minutes, in nanoseconds.
abbrev pub order_ttl : ℕ
order_ttl = 30 * 60 * 1000000000

-- GetOrderByCode
abbrev pub order_by_code : String → List PaymentOrder → Option PaymentOrder
order_by_code code [] = none
order_by_code code (o ∷ os) =
    if str_eq o.sepay_order_code code then some o else order_by_code code os

-- GetOrderByID
abbrev pub order_by_id : ℕ → List PaymentOrder → Option PaymentOrder
order_by_id k [] = none
order_by_id k (o ∷ os) = if o.id == k then some o else order_by_id k os

-- CountPendingByUser
abbrev pub count_pending : ℕ → List PaymentOrder → ℕ
count_pending u [] = 0
count_pending u (o ∷ os) =
    (if o.user_id == u && is_pending o.status then 1 else 0) + count_pending u os

-- UPDATE payment_order SET status = s WHERE id = k
abbrev pub set_status : ℕ → OrderStatus → List PaymentOrder → List PaymentOrder
set_status k s [] = []
set_status k s (o ∷ os) = (if o.id == k then record o { status = s } else o) ∷ set_status k s os

-- The UPDATE of CancelPendingByID.
abbrev pub cancel_pending : ℕ → ℕ → List PaymentOrder → List PaymentOrder
cancel_pending k u [] = []
cancel_pending k u (o ∷ os) =
    (if o.id == k && o.user_id == u && is_pending o.status
      then record o { status = cancelled }
      else o)
    ∷ cancel_pending k u os

-- Its RowsAffected() > 0.
abbrev pub cancels_some : ℕ → ℕ → List PaymentOrder → Bool
cancels_some k u [] = false
cancels_some k u (o ∷ os) =
    if o.id == k && o.user_id == u && is_pending o.status then true else cancels_some k u os

-- The INSERT of OrderRepo.CreateOrder; sepay_order_code is UNIQUE.
unfoldable pub insert_order_row : Db → PaymentOrder → Option Db
insert_order_row db o =
    let clash = order_by_code o.sepay_order_code db.orders in
    let next = record db {
      orders = record o { id = db.next_order } ∷ db.orders;
      next_order = db.next_order + 1;
    } in
    elim clash [ none ↦ some next | some _ ↦ none ]

abbrev new_order : ℕ → ℤ → String → String → ℕ → PaymentOrder
new_order u amount code qr now = record {
  id = 0;
  user_id = u;
  sepay_order_code = code;
  amount_vnd = pos_part amount;
  status = pending;
  qr_code_url = qr;
  expired_at = now + order_ttl;
}

-- The last step of OrderService.CreateOrder: the id of the new order.
unfoldable pub place_order : Faults → Db → ℕ → ℤ → String → String → ℕ → Db × Result ℕ
unfolding insert_order_row
place_order fault db u amount code qr now =
    if fault insert_order
    then (db, err internal)
    else elim (insert_order_row db (new_order u amount code qr now)) [
      | none ↦ (db, err internal)
      | some next ↦ (next, ok db.next_order)
    ]

-- OrderService.CreateOrder
unfoldable pub create_order : Faults → Db → ℕ → ℤ → String → String → ℕ → Db × Result ℕ
unfolding place_order
create_order fault db u amount code qr now =
    let placed = place_order fault db u amount code qr now in
    if ltb_ℤ amount (pos min_deposit_vnd) || ltb_ℤ (pos max_deposit_vnd) amount
    then (db, err invalid_amount)
    else if fault count_orders
    then (db, err internal)
    else if leb max_pending_orders (count_pending u db.orders)
    then (db, err rate_limit_exceeded)
    else placed

-- CancelPendingByID
unfoldable pub cancel_pending_by_id : Faults → Db → ℕ → ℕ → Db × Result Bool
cancel_pending_by_id fault db k u =
    if fault update_order
    then (db, err internal)
    else (record db { orders = cancel_pending k u db.orders }, ok (cancels_some k u db.orders))

-- The answer of CancelPendingOrder to the answer of CancelPendingByID.
abbrev cancel_reply : Result Bool → Option PaymentError
cancel_reply (err e) = some internal
cancel_reply (ok true) = none
cancel_reply (ok false) = some order_not_pending

-- OrderService.CancelPendingOrder; `none` is success.
unfoldable pub cancel_pending_order : Faults → Db → ℕ → ℕ → Db × Option PaymentError
unfolding cancel_pending_by_id
cancel_pending_order fault db k u =
    if fault get_order then (db, some order_not_found) else elim (order_by_id k db.orders) [
      | none ↦ (db, some order_not_found)
      | some o ↦
          if not (o.user_id == u)
          then (db, some order_not_found)
          else if not (is_pending o.status)
          then (db, some order_not_pending)
          else let (next, answer) = cancel_pending_by_id fault db k u in (next, cancel_reply answer)
    ]

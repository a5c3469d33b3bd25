-- ===== src/Payment/World/Finality.antt =====
-- An order that is no longer PENDING keeps its row for good.
use native.Mathlib.Decide.{ℕ_discrete}
use hquizlet_platform.Prelude.{ℕ, ◌≡◌, ap, false, String, some, arith}
use hquizlet_platform.Prelude.Int.{ℤ}
use hquizlet_platform.Payment.Model.{is_pending, PaymentOrder, Db, Faults, paid}
use hquizlet_platform.Payment.Ledger.{insert_deposit}
use hquizlet_platform.Payment.Orders.{order_by_id, place_order, cancel_pending_by_id}
use hquizlet_platform.Payment.Orders.Rows.{
  order_by_id-lt, order_by_id-set_status_ne, order_by_id-cancel_pending,
}
use hquizlet_platform.Payment.Deposit.{settle}
use hquizlet_platform.Payment.World.{
  World, Step, create, cancel, read, deposit, grant, buy, price, Reach, here, next, init,
}
use hquizlet_platform.Payment.World.Ledgers.{IsSound, admin_credit-orders, purchase_tx-orders}
use hquizlet_platform.Payment.World.Invariant.{Inv, Reach-Inv, init-Inv, set_price-orders}

module _ (db : Db) (k : ℕ) (row : PaymentOrder) (is_row : order_by_id k db.orders ≡ some row)
    (closed : is_pending row.status ≡ false) where
  create-keeps :
      (fault : Faults) (u : ℕ) (amount : ℤ) (code qr : String) (now : ℕ)
      → IsSound db
      → order_by_id k (place_order fault db u amount code qr now).0.orders ≡ some row
  unfolding place_order
  create-keeps fault u amount code qr now s =
      ground (arith, order_by_id-lt db.next_order k db.orders row s.below is_row)

  cancel-keeps :
      (fault : Faults) (j u : ℕ)
      → order_by_id k (cancel_pending_by_id fault db j u).0.orders ≡ some row
  unfolding cancel_pending_by_id
  cancel-keeps fault j u =
      ground (arith, order_by_id-cancel_pending k j u db.orders row is_row closed)

  settle-keeps :
      (fault : Faults) (o : PaymentOrder) (amount : ℤ) (ref : String)
      → order_by_id k (settle fault o amount ref db).0.orders ≡ some row
  unfolding settle insert_deposit
  settle-keeps fault o amount ref = elim (ℕ_discrete k o.id) [
    | yes same ↦ ground (arith, ap (λ j. order_by_id j db.orders) same)
    | no other ↦ ground (arith, order_by_id-set_status_ne k o.id paid db.orders other)
  ]

Step-keeps :
    {v w : World} (k : ℕ) (row : PaymentOrder)
    → Step v w
    → Inv v
    → order_by_id k v.db.orders ≡ some row
    → is_pending row.status ≡ false
    → order_by_id k w.db.orders ≡ some row
Step-keeps k row (create v fault u amount code qr now) i h f =
    create-keeps v.db k row h f fault u amount code qr now i.sound
Step-keeps k row (cancel v fault j u) i h f = cancel-keeps v.db k row h f fault j u
Step-keeps k row (read v code o e) i h f = h
Step-keeps k row (deposit v fault o amount ref m) i h f =
    settle-keeps v.db k row h f fault o amount ref
Step-keeps k row (grant v fault actor u amount note) i h f =
    rw (admin_credit-orders fault v.db actor u amount note) h
Step-keeps k row (buy v fault u j n) i h f = rw (purchase_tx-orders fault v.db u j n) h
Step-keeps k row (price v fault owner now u legacy roles j kind amount) i h f =
    rw (set_price-orders fault v.db owner now u legacy roles j kind amount) h

Reach-keeps :
    {v w : World} (k : ℕ) (row : PaymentOrder)
    → Reach v w
    → Inv v
    → order_by_id k v.db.orders ≡ some row
    → is_pending row.status ≡ false
    → order_by_id k w.db.orders ≡ some row
Reach-keeps k row here i h f = h
Reach-keeps k row (next r s) i h f =
    Step-keeps k row s (Reach-Inv i r) (Reach-keeps k row r i h f) f

-- In every run of the service, an order that is paid or cancelled at one time has the same row at
-- every later time: a cancelled order is never paid, and a paid one never cancelled or reopened.
pub closed_order_is_final :
    (v w : World) (k : ℕ) (row : PaymentOrder)
    → Reach init v
    → Reach v w
    → order_by_id k v.db.orders ≡ some row
    → is_pending row.status ≡ false
    → order_by_id k w.db.orders ≡ some row
closed_order_is_final v w k row past future h f =
    Reach-keeps k row future (Reach-Inv init-Inv past) h f

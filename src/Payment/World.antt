-- ===== src/Payment/World.antt =====
-- The payment service as its requests run: what requests have read of orders before their
-- transactions, and every way in which the transactions may follow one another and fail.
pub mod Ledgers
pub mod Invariant
pub mod Finality
pub mod Possession
use mathlib.Core.List.{Memᴰ}
use hquizlet_platform.Prelude.{ℕ, String, ◌≡◌, List, [], ◌∷◌, Option, some}
use hquizlet_platform.Prelude.Int.{ℤ}
use hquizlet_platform.Payment.Model.{PaymentOrder, Db, Faults}
use hquizlet_platform.Payment.Orders.{order_by_code, place_order, cancel_pending_by_id}
use hquizlet_platform.Payment.Deposit.{settle, admin_credit}
use hquizlet_platform.Payment.Purchase.{purchase_tx}
use hquizlet_platform.Payment.Access.{set_price}

-- `waiting` are the orders that webhooks and reconciliations have read.
pub record World : Type 0 where
  pub db : Db
  pub waiting : List PaymentOrder

abbrev pub init : World
init = record {
  db = record {
    ledger = [];
    orders = [];
    prices = [];
    entitlements = [];
    audit_log = [];
    next_tx = 1;
    next_order = 1;
    next_entitlement = 1;
  };
  waiting = [];
}

-- What an operation reads before the statement or transaction that changes the tables may be out of
-- date by then: an order may be placed or cancelled, whatever the checks before had found, and a
-- purchase may come with any price.
pub data Step : World → World → Type 0 where
  create :
      (w : World) (fault : Faults) (u : ℕ) (amount : ℤ) (code qr : String) (now : ℕ)
      → Step w (record w { db = (place_order fault w.db u amount code qr now).0 })
  cancel :
      (w : World) (fault : Faults) (k u : ℕ)
      → Step w (record w { db = (cancel_pending_by_id fault w.db k u).0 })
  read :
      (w : World) (code : String) (o : PaymentOrder)
      → order_by_code code w.db.orders ≡ some o
      → Step w (record w { waiting = o ∷ w.waiting })
  deposit :
      (w : World) (fault : Faults) (o : PaymentOrder) (amount : ℤ) (ref : String)
      → Memᴰ o w.waiting
      → Step w (record w { db = (settle fault o amount ref w.db).0 })
  grant :
      (w : World) (fault : Faults) (actor u : ℕ) (amount : ℤ) (note : String)
      → Step w (record w { db = (admin_credit fault w.db actor u amount note).0 })
  buy :
      (w : World) (fault : Faults) (u k price : ℕ)
      → Step w (record w { db = (purchase_tx fault u k price w.db).0 })
  price :
      (w : World) (fault : Faults) (owner : Option ℕ) (now u : ℕ) (legacy : String)
      (roles : List String) (k : ℕ) (kind : String) (amount : ℤ)
      → Step w (record w { db = (set_price fault w.db owner now u legacy roles k kind amount).0 })

pub data Reach (v : World) : World → Type 0 where
  here : Reach v v
  next : {w x : World} → Reach v w → Step w x → Reach v x

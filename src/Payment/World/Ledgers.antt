-- ===== src/Payment/World/Ledgers.antt =====
-- What each operation of the payment service does to the ledger and the orders.
use hquizlet_platform.Prelude.{
  ℕ, ◌+◌, ◌≤◌, ◌≡◌, true, ◌&&◌, String, List, [], ◌∷◌, some, arith, ◌==◌, if◌then◌else◌,
}
use hquizlet_platform.Prelude.Int.{ℤ}
use hquizlet_platform.Payment.Model.{paid, is_pending, PaymentOrder, WalletTx, Db, Faults}
use hquizlet_platform.Payment.Ledger.{credits, debits, is_deposit, insert_deposit}
use hquizlet_platform.Payment.Orders.{place_order, cancel_pending_by_id, set_status, order_by_id}
use hquizlet_platform.Payment.Orders.Rows.{
  paid_total, ids_below, distinct_ids, origin, Matches, paid_total-set_status,
  paid_total-cancel_pending, ids_below-set_status, ids_below-cancel_pending, ids_below-suc,
  origin-set_status, origin-cancel_pending, origin-order_by_id, distinct_ids-set_status,
  distinct_ids-cancel_pending, origin-lt, origin-fresh,
}
use hquizlet_platform.Payment.Deposit.{settle, admin_credit}
use hquizlet_platform.Payment.Purchase.{purchase_tx}

-- What user `u` was credited by deposits.
abbrev pub deposit_total : ℕ → List WalletTx → ℕ
deposit_total u [] = 0
deposit_total u (t ∷ ts) =
    (if t.user_id == u && is_deposit t.tx_type then t.amount_vnd else 0) + deposit_total u ts

pub record IsSound (db : Db) : Type 0 where
  pub solvent : (u : ℕ) → debits u db.ledger ≤ credits u db.ledger
  pub covered : (u : ℕ) → deposit_total u db.ledger ≤ paid_total u db.orders
  pub below : ids_below db.next_order db.orders ≡ true
  pub distinct : distinct_ids db.orders ≡ true

module _ (fault : Faults) (db : Db) where
  module _ (u : ℕ) (amount : ℤ) (code qr : String) (now : ℕ) where
    abbrev created : Db
    created = (place_order fault db u amount code qr now).0

    pub place_order-IsSound : IsSound db → IsSound created
    unfolding place_order
    place_order-IsSound s = record {
      solvent = λ v. ground (arith, s.solvent v);
      covered = λ v. ground (arith, s.covered v);
      below = ground (arith, s.below, ids_below-suc db.next_order db.orders);
      distinct = ground (arith, s.below, s.distinct, origin-fresh db.next_order db.orders);
    }

    pub place_order-origin :
        (k : ℕ) (x : ℕ × ℕ)
        → IsSound db
        → origin k db.orders ≡ some x
        → origin k created.orders ≡ some x
    unfolding place_order
    place_order-origin k x s h = ground (arith, s.below, origin-lt db.next_order k db.orders x)

  module _ (k u : ℕ) where
    abbrev cancelled_db : Db
    cancelled_db = (cancel_pending_by_id fault db k u).0

    pub cancel_pending_by_id-IsSound : IsSound db → IsSound cancelled_db
    unfolding cancel_pending_by_id
    cancel_pending_by_id-IsSound s = record {
      solvent = λ v. ground (arith, s.solvent v);
      covered = λ v. ground (arith, s.covered v, paid_total-cancel_pending v k u db.orders);
      below = ground (arith, s.below, ids_below-cancel_pending db.next_order k u db.orders);
      distinct = ground (arith, s.distinct, distinct_ids-cancel_pending k u db.orders);
    }

    pub cancel_pending_by_id-origin : (j : ℕ) → origin j cancelled_db.orders ≡ origin j db.orders
    unfolding cancel_pending_by_id
    cancel_pending_by_id-origin j = ground (arith, origin-cancel_pending j k u db.orders)

  module _ (o : PaymentOrder) (amount : ℤ) (ref : String) where
    abbrev settled : Db
    settled = (settle fault o amount ref db).0

    settle-paid :
        (v : ℕ) (row : PaymentOrder)
        → Matches o db.orders
        → order_by_id o.id db.orders ≡ some row
        → is_pending row.status ≡ true
        → paid_total v db.orders + (if o.user_id == v then o.amount_vnd else 0)
          ≤ paid_total v (set_status o.id paid db.orders)
    settle-paid v row m e p =
        ground
          (arith, paid_total-set_status v o.id db.orders row, origin-order_by_id o.id db.orders row)

    pub settle-IsSound : Matches o db.orders → IsSound db → IsSound settled
    unfolding settle insert_deposit
    settle-IsSound m s = record {
      solvent = λ v. ground (arith, s.solvent v);
      covered = λ v. grind (arith, s.covered v, settle-paid v);
      below = ground (arith, s.below, ids_below-set_status db.next_order o.id paid db.orders);
      distinct = ground (arith, s.distinct, distinct_ids-set_status o.id paid db.orders);
    }

    pub settle-origin : (j : ℕ) → origin j settled.orders ≡ origin j db.orders
    unfolding settle insert_deposit
    settle-origin j = ground (arith, origin-set_status j o.id paid db.orders)

  pub admin_credit-IsSound :
      (actor u : ℕ) (amount : ℤ) (note : String)
      → IsSound db
      → IsSound (admin_credit fault db actor u amount note).0
  unfolding admin_credit
  admin_credit-IsSound actor u amount note s = record {
    solvent = λ v. ground (arith, s.solvent v);
    covered = λ v. ground (arith, s.covered v);
    below = ground (arith, s.below);
    distinct = ground (arith, s.distinct);
  }

  pub admin_credit-orders :
      (actor u : ℕ) (amount : ℤ) (note : String)
      → (admin_credit fault db actor u amount note).0.orders ≡ db.orders
  unfolding admin_credit
  admin_credit-orders actor u amount note = ground arith

  pub purchase_tx-IsSound :
      (u k price : ℕ) → IsSound db → IsSound (purchase_tx fault u k price db).0
  unfolding purchase_tx
  purchase_tx-IsSound u k price s = record {
    solvent = λ v. ground (arith, s.solvent v, s.solvent u);
    covered = λ v. ground (arith, s.covered v);
    below = ground (arith, s.below);
    distinct = ground (arith, s.distinct);
  }

  pub purchase_tx-orders : (u k price : ℕ) → (purchase_tx fault u k price db).0.orders ≡ db.orders
  unfolding purchase_tx
  purchase_tx-orders u k price = ground arith

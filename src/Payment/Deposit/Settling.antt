-- ===== src/Payment/Deposit/Settling.antt =====
-- What CreditDepositIfPaidRef does on each branch, and when it is repeated.
use hquizlet_platform.Prelude.{ℕ, String, ◌+◌, ◌≡◌, ◌≢◌, some, arith, ◌==◌, if◌then◌else◌}
use hquizlet_platform.Prelude.Int.{ℤ, pos}
use hquizlet_platform.Payment.Model.{paid, PaymentOrder, Db, Faults}
use hquizlet_platform.Payment.Ledger.{credits, debits, has_deposit_ref, insert_deposit}
use hquizlet_platform.Payment.Orders.Rows.{status_of, status_of-set_status_self}
use hquizlet_platform.Payment.Deposit.{credited, settle}

module _ (fault : Faults) (o : PaymentOrder) (amount : ℤ) (ref : String) (db : Db) where
  abbrev after : Db
  after = (settle fault o amount ref db).0

  -- Every answer but `credited` leaves the database as it was.
  settle_refused_unchanged : (settle fault o amount ref db).1 ≢ credited → after ≡ db
  unfolding settle
  settle_refused_unchanged h = ground (arith, h)

  pub settle-paid :
      (settle fault o amount ref db).1 ≡ credited → status_of o.id after.orders ≡ some paid
  unfolding settle insert_deposit
  settle-paid h = ground (arith, status_of-set_status_self o.id paid db.orders)

  -- The answer `credited` pays the order's amount into its user's wallet, if no deposit has this
  -- reference yet, and pays nothing if one has; no other wallet and no debit changes.
  pub settle-credits :
      (v : ℕ)
      → (settle fault o amount ref db).1 ≡ credited
      → (credits v after.ledger
          ≡ credits v db.ledger
            + (if has_deposit_ref ref db.ledger
                then 0
                else if o.user_id == v
                then o.amount_vnd
                else 0))
        × (debits v after.ledger ≡ debits v db.ledger)
        × (pos o.amount_vnd ≡ amount)
  unfolding settle insert_deposit
  settle-credits v h = ground arith

settle_of_paid :
    (fault : Faults) (o : PaymentOrder) (amount : ℤ) (ref : String) (db : Db)
    → status_of o.id db.orders ≡ some paid
    → ((settle fault o amount ref db).0 ≡ db) × ((settle fault o amount ref db).1 ≢ credited)
unfolding settle
settle_of_paid fault o amount ref db h = ground arith

-- Once an order was credited, no later transaction for it, with whatever amount, reference and
-- failures, is answered `credited` again or changes the database.
pub settle_at_most_once :
    (first second : Faults) (o : PaymentOrder) (a b : ℤ) (ref other : String) (db : Db)
    → (settle first o a ref db).1 ≡ credited
    → ((settle second o b other (settle first o a ref db).0).0 ≡ (settle first o a ref db).0)
      × ((settle second o b other (settle first o a ref db).0).1 ≢ credited)
settle_at_most_once first second o a b ref other db h =
    settle_of_paid second o b other (settle first o a ref db).0 (settle-paid first o a ref db h)

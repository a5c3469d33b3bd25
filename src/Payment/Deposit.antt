-- ===== src/Payment/Deposit.antt =====
-- services/payment/internal/service/webhook_svc.go and wallet_svc.go: money that comes in.
pub mod Settling
use hquizlet_platform.Prelude.{ℕ, ◌+◌, not, ◌||◌, String, ◌∷◌, Option, none, some, if◌then◌else◌}
use hquizlet_platform.Prelude.Int.{ℤ, pos, pos_part, eq_ℤ, is_positive}
use hquizlet_platform.Payment.Model.{
  paid, adjustment, credit, WalletTx, AuditEntry, insert_audit, is_pending, PaymentOrder, Db,
  PaymentError, internal, Faults, get_order, begin_tx, lock_row, insert_tx, update_order, commit,
}
use hquizlet_platform.Payment.Ledger.{insert_deposit}
use hquizlet_platform.Payment.Orders.{order_by_code, order_by_id, set_status}

-- WebhookResult
pub data WebhookResult : Type 0 where
  credited already_processed amount_mismatch order_not_found : WebhookResult

-- The transaction of CreditDepositIfPaidRef, for the order that was read before it began. A failed
-- call leaves the transaction to its rollback.
unfoldable pub settle : Faults → PaymentOrder → ℤ → String → Db → Db × WebhookResult
settle fault order amount ref db =
    if fault begin_tx || fault lock_row
    then (db, order_not_found)
    else elim (order_by_id order.id db.orders) [
      | none ↦ (db, order_not_found)
      | some row ↦
          if not (is_pending row.status)
          then (db, already_processed)
          else if not (eq_ℤ (pos order.amount_vnd) amount)
          then (db, amount_mismatch)
          else if fault insert_tx || fault update_order || fault commit
          then (db, order_not_found)
          else let db' = insert_deposit db order.user_id order.amount_vnd ref in
            (record db' { orders = set_status order.id paid db'.orders }, credited)
    ]

-- CreditDepositIfPaidRef
unfoldable pub credit_deposit_if_paid_ref : Faults → Db → String → ℤ → String → Db × WebhookResult
unfolding settle
credit_deposit_if_paid_ref fault db code amount ref =
    if fault get_order then (db, order_not_found) else elim (order_by_code code db.orders) [
      | none ↦ (db, order_not_found)
      | some order ↦ settle fault order amount ref db
    ]

-- WalletService.AdminCredit and WalletRepo.AdminCredit: no row for an amount that is not positive,
-- else a ledger row and an audit entry in one transaction.
unfoldable pub admin_credit : Faults → Db → ℕ → ℕ → ℤ → String → Db × Option PaymentError
admin_credit fault db actor u amount note =
    let row : WalletTx = record {
      id = db.next_tx;
      user_id = u;
      tx_type = adjustment;
      direction = credit;
      amount_vnd = pos_part amount;
      ref_id = none;
      note = note;
    } in
    let entry : AuditEntry = record {
      actor_id = actor;
      action = "wallet:Credit";
      user_id = u;
      amount_vnd = pos_part amount;
      transaction_id = db.next_tx;
    } in
    if not (is_positive amount)
    then (db, none)
    else if fault begin_tx || fault insert_tx || fault insert_audit || fault commit
    then (db, some internal)
    else (
      record db {
        ledger = row ∷ db.ledger;
        audit_log = entry ∷ db.audit_log;
        next_tx = db.next_tx + 1;
      },
      none,
    )

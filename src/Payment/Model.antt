-- ===== src/Payment/Model.antt =====
-- services/payment/internal/model/model.go and the tables of
-- services/payment/internal/migration/migration.go. Ids are the numbers that BIGSERIAL hands out,
-- times are numbers of a common unit, and a table is the list of its rows, the newest first.
use hquizlet_platform.Prelude.{ℕ, Bool, true, false, String, List, Option}
use hquizlet_platform.Prelude.Int.{ℤ}

-- wallet_transaction.type and .direction
pub data TxType : Type 0 where
  deposit purchase refund adjustment : TxType

pub data Direction : Type 0 where
  credit debit : Direction

-- WalletTransaction; `ref_id` is NULL for `none`.
pub record WalletTx : Type 0 where
  pub id : ℕ
  pub user_id : ℕ
  pub tx_type : TxType
  pub direction : Direction
  pub amount_vnd : ℕ
  pub ref_id : Option String
  pub note : String

-- payment_order.status
pub data OrderStatus : Type 0 where
  pending paid cancelled expired : OrderStatus

abbrev pub is_pending : OrderStatus → Bool
is_pending pending = true
is_pending _ = false

abbrev pub is_paid : OrderStatus → Bool
is_paid paid = true
is_paid _ = false

-- PaymentOrder
pub record PaymentOrder : Type 0 where
  pub id : ℕ
  pub user_id : ℕ
  pub sepay_order_code : String
  pub amount_vnd : ℕ
  pub status : OrderStatus
  pub qr_code_url : String
  pub expired_at : ℕ

pub data PricingType : Type 0 where
  free one_time : PricingType

-- StudySetPrice; the price of a free set may be any integer.
pub record StudySetPrice : Type 0 where
  pub study_set_id : ℕ
  pub pricing_type : PricingType
  pub price_vnd : ℤ

pub data GrantedVia : Type 0 where
  via_purchase via_free via_admin_grant : GrantedVia

-- Entitlement
pub record Entitlement : Type 0 where
  pub id : ℕ
  pub user_id : ℕ
  pub study_set_id : ℕ
  pub granted_via : GrantedVia
  pub tx_id : Option ℕ
  pub expires_at : Option ℕ

-- A row of audit_log, written beside a credit by an administrator.
pub record AuditEntry : Type 0 where
  pub actor_id : ℕ
  pub action : String
  pub user_id : ℕ
  pub amount_vnd : ℕ
  pub transaction_id : ℕ

-- The database of the service, with the next ids of its sequences.
pub record Db : Type 0 where
  pub ledger : List WalletTx
  pub orders : List PaymentOrder
  pub prices : List StudySetPrice
  pub entitlements : List Entitlement
  pub audit_log : List AuditEntry
  pub next_tx : ℕ
  pub next_order : ℕ
  pub next_entitlement : ℕ

-- The errors of the service, with `internal` for a failed call of the database.
pub data PaymentError : Type 0 where
  rate_limit_exceeded invalid_amount order_not_found order_not_pending : PaymentError
  insufficient_balance already_owned free_set internal : PaymentError

pub data Result {ℓ} (A : Type ℓ) : Type ℓ where
  ok : A → Result A
  err : PaymentError → Result A

-- The calls of the database that may fail for reasons of its own.
pub data Call : Type 0 where
  get_price begin_tx lock_row get_entitlement get_balance insert_tx insert_entitlement : Call
  update_order commit commit_lost get_order count_orders insert_order read_back insert_audit
        upsert :
      Call

-- Which calls fail in one run of an operation.
abbrev pub Faults : Type 0
Faults = Call → Bool

abbrev pub no_faults : Faults
no_faults _ = false

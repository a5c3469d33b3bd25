-- ===== src/Payment/Ledger.antt =====
-- The wallet ledger: services/payment/internal/repository/wallet_repo.go and the wallet functions of
-- price_repo.go. A balance is never stored; it is the credits of a user less the debits.
use hquizlet_platform.Prelude.{
  ℕ, ◌+◌, Bool, true, false, ◌&&◌, String, List, [], ◌∷◌, Option, none, some, ◌==◌, str_eq,
  if◌then◌else◌,
}
use hquizlet_platform.Prelude.Int.{ℤ, sub_ℕ}
use hquizlet_platform.Payment.Model.{
  TxType, deposit, purchase, Direction, credit, debit, WalletTx, Db,
}

abbrev pub credit_amount : Direction → ℕ → ℕ
credit_amount credit n = n
credit_amount debit n = 0

abbrev pub debit_amount : Direction → ℕ → ℕ
debit_amount credit n = 0
debit_amount debit n = n

-- SUM(CASE WHEN direction = 'credit' THEN amount_vnd ELSE 0 END) WHERE user_id = u
abbrev pub credits : ℕ → List WalletTx → ℕ
credits u [] = 0
credits u (t ∷ ts) =
    (if t.user_id == u then credit_amount t.direction t.amount_vnd else 0) + credits u ts

-- SUM(CASE WHEN direction = 'debit' THEN amount_vnd ELSE 0 END) WHERE user_id = u
abbrev pub debits : ℕ → List WalletTx → ℕ
debits u [] = 0
debits u (t ∷ ts) =
    (if t.user_id == u then debit_amount t.direction t.amount_vnd else 0) + debits u ts

-- GetBalance, GetBalanceForUser, GetBalanceForUserTx
abbrev pub balance : ℕ → List WalletTx → ℤ
balance u ts = sub_ℕ (credits u ts) (debits u ts)

-- DebitWallet: the new ledger, and the id of the row.
unfoldable pub debit_wallet : Db → ℕ → ℕ → String → String → Db × ℕ
debit_wallet db u amount ref note =
    let row : WalletTx = record {
      id = db.next_tx;
      user_id = u;
      tx_type = purchase;
      direction = debit;
      amount_vnd = amount;
      ref_id = if str_eq ref "" then none else some ref;
      note = note;
    } in
    (record db { ledger = row ∷ db.ledger; next_tx = db.next_tx + 1 }, db.next_tx)

abbrev pub is_deposit : TxType → Bool
is_deposit deposit = true
is_deposit _ = false

abbrev pub same_ref : String → Option String → Bool
same_ref ref none = false
same_ref ref (some r) = str_eq r ref

-- The partial unique index uq_wt_deposit_ref: some deposit has this ref_id.
abbrev pub has_deposit_ref : String → List WalletTx → Bool
has_deposit_ref ref [] = false
has_deposit_ref ref (t ∷ ts) =
    if is_deposit t.tx_type && same_ref ref t.ref_id then true else has_deposit_ref ref ts

-- The INSERT of CreditDepositIfPaidRef, with ON CONFLICT (ref_id) WHERE type = 'deposit' DO NOTHING.
unfoldable pub insert_deposit : Db → ℕ → ℕ → String → Db
insert_deposit db u amount ref =
    let row : WalletTx = record {
      id = db.next_tx;
      user_id = u;
      tx_type = deposit;
      direction = credit;
      amount_vnd = amount;
      ref_id = some ref;
      note = "Nạp tiền qua SePay";
    } in
    if has_deposit_ref ref db.ledger
    then db
    else record db { ledger = row ∷ db.ledger; next_tx = db.next_tx + 1 }

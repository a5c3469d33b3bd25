-- ===== src/Payment/Purchase.antt =====
-- services/payment/internal/service/purchase_svc.go, with the price and entitlement tables
-- (repository/price_repo.go, repository/entitlement_repo.go).
pub mod Atomic
use hquizlet_platform.Prelude.{
  ℕ, ◌+◌, Bool, true, false, not, ◌&&◌, ◌||◌, List, [], ◌∷◌, Option, none, some, ◌==◌,
  if◌then◌else◌,
}
use hquizlet_platform.Prelude.Int.{ℤ, pos, pos_part, ltb_ℤ, is_positive, sub_ℕ}
use hquizlet_platform.Prelude.Text.{append}
use hquizlet_platform.Prelude.Decimal.{format_int}
use hquizlet_platform.Payment.Model.{
  PricingType, free, one_time, StudySetPrice, Entitlement, via_purchase, Db, insufficient_balance,
  already_owned, free_set, internal, Result, ok, err, Faults, get_price, begin_tx, lock_row,
  get_entitlement, get_balance, insert_tx, insert_entitlement, commit, commit_lost, read_back,
}
use hquizlet_platform.Payment.Ledger.{credits, debits, balance, debit_wallet}

-- PriceRepo.GetPrice: no row is a free set.
abbrev pub price_of : ℕ → List StudySetPrice → Option StudySetPrice
price_of k [] = none
price_of k (p ∷ ps) = if p.study_set_id == k then some p else price_of k ps

-- PriceRepo.UpsertPrice; study_set_id is the primary key.
abbrev pub upsert_price : ℕ → PricingType → ℤ → List StudySetPrice → List StudySetPrice
upsert_price k t v [] = record { study_set_id = k; pricing_type = t; price_vnd = v } ∷ []
upsert_price k t v (p ∷ ps) =
    if p.study_set_id == k
    then record { study_set_id = k; pricing_type = t; price_vnd = v } ∷ ps
    else p ∷ upsert_price k t v ps

-- EntitlementRepo.GetEntitlement, and the check of the purchase transaction.
abbrev pub entitlement_of : ℕ → ℕ → List Entitlement → Option Entitlement
entitlement_of u k [] = none
entitlement_of u k (e ∷ es) =
    if e.user_id == u && e.study_set_id == k then some e else entitlement_of u k es

-- InsertEntitlement, with ON CONFLICT (user_id, study_set_id) DO NOTHING.
unfoldable pub insert_entitlement_row : Db → ℕ → ℕ → Option ℕ → Db
insert_entitlement_row db u k tx =
    let row : Entitlement = record {
      id = db.next_entitlement;
      user_id = u;
      study_set_id = k;
      granted_via = via_purchase;
      tx_id = tx;
      expires_at = none;
    } in
    elim (entitlement_of u k db.entitlements) [
      | some _ ↦ db
      | none ↦ record db {
        entitlements = row ∷ db.entitlements;
        next_entitlement = db.next_entitlement + 1;
      }
    ]

abbrev is_free : PricingType → Bool
is_free free = true
is_free one_time = false

-- PurchaseResponse
pub record PurchaseResponse : Type 0 where
  pub new_balance : ℤ
  pub price : ℕ

-- The statements from the lock to the commit, for a positive price, and the balance that is read back
-- for the answer. Where a statement fails, the transaction is rolled back; where the commit fails,
-- it has taken effect or not: `commit_lost` is a commit whose answer alone is lost.
unfoldable pub purchase_tx : Faults → ℕ → ℕ → ℕ → Db → Db × Result PurchaseResponse
unfolding debit_wallet insert_entitlement_row
purchase_tx fault u k price db =
    if fault get_entitlement
    then (db, err internal)
    else elim (entitlement_of u k db.entitlements) [
      | some _ ↦ (db, err already_owned)
      | none ↦
          if fault get_balance
          then (db, err internal)
          else if ltb_ℤ (balance u db.ledger) (pos price)
          then (db, err insufficient_balance)
          else if fault insert_tx || fault insert_entitlement
          then (db, err internal)
          else let (debited, tx) =
              debit_wallet db u price (append "set_" (format_int k))
                (append "Mua study set #" (format_int k)) in
            let after = insert_entitlement_row debited u k (some tx) in
            let shown =
              if fault read_back
              then sub_ℕ (credits u db.ledger) (debits u db.ledger + price)
              else balance u after.ledger in
            if fault commit
            then (if fault commit_lost then after else db, err internal)
            else (after, ok (record { new_balance = shown; price = price }))
    ]

-- PurchaseStudySet. The price is read before the transaction begins.
unfoldable pub purchase_study_set : Faults → Db → ℕ → ℕ → Db × Result PurchaseResponse
unfolding purchase_tx
purchase_study_set fault db u k =
    if fault get_price then (db, err internal) else elim (price_of k db.prices) [
      | none ↦ (db, err free_set)
      | some p ↦
          if is_free p.pricing_type || not (is_positive p.price_vnd)
          then (db, err free_set)
          else if fault begin_tx || fault lock_row
          then (db, err internal)
          else purchase_tx fault u k (pos_part p.price_vnd) db
    ]

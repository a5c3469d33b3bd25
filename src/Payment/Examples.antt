-- ===== src/Payment/Examples.antt =====
-- The payment service on small databases: tests of its operations, and its theorems at work.
use mathlib.Core.List.{Memᴰ}
use hquizlet_platform.Prelude.{
  ℕ, Option, ◌≡◌, ◌↔◌, ◌⊎◌, refl, ◌≤◌, ◌+◌, true, false, [], ◌∷◌, none, some, if◌then◌else◌, ◌==◌,
}
use hquizlet_platform.Prelude.Int.{pos, negsuc}
use hquizlet_platform.Payment.Model.{
  PaymentOrder, pending, paid, one_time, Entitlement, via_purchase, Db, Faults, no_faults, err,
  commit, insufficient_balance, invalid_amount, order_not_pending,
}
use hquizlet_platform.Payment.Ledger.{
  credits, debits, balance, has_deposit_ref, debit_wallet, insert_deposit,
}
use hquizlet_platform.Payment.Orders.{order_by_id, create_order, place_order, cancel_pending_order}
use hquizlet_platform.Payment.Orders.Rows.{paid_total}
use hquizlet_platform.Payment.Deposit.{
  already_processed, amount_mismatch, settle, credit_deposit_if_paid_ref, admin_credit,
}
use hquizlet_platform.Payment.Deposit.Settling.{settle-credits}
use hquizlet_platform.Payment.Purchase.{
  PurchaseResponse, price_of, entitlement_of, purchase_tx, purchase_study_set,
  insert_entitlement_row,
}
use hquizlet_platform.Payment.Purchase.Atomic.{purchase_effect}
use hquizlet_platform.Payment.Access.{AccessInfo, get_access_info}
use hquizlet_platform.Payment.Access.Rules.{needs_payment, HoldsAt, access_rule}
use hquizlet_platform.Payment.World.{
  World, init, create, read, deposit, buy, grant, Reach, here, next,
}
use hquizlet_platform.Payment.World.Ledgers.{deposit_total}
use hquizlet_platform.Payment.World.Invariant.{wallet_never_negative, deposits_covered_by_orders}
use hquizlet_platform.Payment.World.Finality.{closed_order_is_final}
use hquizlet_platform.Payment.World.Possession.{purchase_gives_lasting_access}

-- User 7 orders a deposit of 20000, it is paid, and set 3 (set 4) costs 15000 (90000).
abbrev w1 : World
w1 = record init { db = (place_order no_faults init.db 7 (pos 20000) "HQ1" "qr" 100).0 }

abbrev order1 : PaymentOrder
order1 = record {
  id = 1;
  user_id = 7;
  sepay_order_code = "HQ1";
  amount_vnd = 20000;
  status = pending;
  qr_code_url = "qr";
  expired_at = 1800000000100;
}

abbrev w2 : World
w2 = record w1 { waiting = order1 ∷ w1.waiting }

abbrev w3 : World
w3 = record w2 { db = (settle no_faults order1 (pos 20000) "FT1" w2.db).0 }

abbrev w4 : World
w4 = record w3 { db = (purchase_tx no_faults 7 3 15000 w3.db).0 }

abbrev shop : Db
shop = record w3.db {
  prices =
      record { study_set_id = 3; pricing_type = one_time; price_vnd = pos 15000 }
      ∷ record { study_set_id = 4; pricing_type = one_time; price_vnd = pos 90000 }
      ∷ [];
}

-- User 9 had set 3 until the time 50.
abbrev lapsed : Entitlement
lapsed = record {
  id = 1;
  user_id = 9;
  study_set_id = 3;
  granted_via = via_purchase;
  tx_id = none;
  expires_at = some 50;
}

abbrev lapsed_shop : Db
lapsed_shop = record shop { entitlements = lapsed ∷ [] }

abbrev bought_shop : Db
bought_shop = (purchase_study_set no_faults shop 7 3).0

abbrev receipt : PurchaseResponse
receipt = record { new_balance = pos 5000; price = 15000 }

abbrev fails_at_commit : Faults
fails_at_commit commit = true
fails_at_commit _ = false

order_is_read : w1.db.orders ≡ order1 ∷ []
unfolding place_order
order_is_read = refl

deposit_is_credited : balance 7 w3.db.ledger ≡ pos 20000
unfolding place_order settle insert_deposit
deposit_is_credited = refl

second_webhook :
    (credit_deposit_if_paid_ref no_faults w3.db "HQ1" (pos 20000) "FT2").1 ≡ already_processed
unfolding place_order settle insert_deposit credit_deposit_if_paid_ref
second_webhook = refl

wrong_amount :
    (credit_deposit_if_paid_ref no_faults w1.db "HQ1" (pos 19999) "FT1").1 ≡ amount_mismatch
unfolding place_order settle insert_deposit credit_deposit_if_paid_ref
wrong_amount = refl

small_order : (create_order no_faults init.db 7 (negsuc 0) "HQ1" "qr" 100).1 ≡ err invalid_amount
unfolding create_order
small_order = refl

cancel_twice :
    (cancel_pending_order no_faults (cancel_pending_order no_faults w1.db 1 7).0 1 7).1
    ≡ some order_not_pending
unfolding place_order cancel_pending_order
cancel_twice = refl

granted_bonus : balance 7 (admin_credit no_faults shop 1 7 (pos 10) "bonus").0.ledger ≡ pos 20010
unfolding place_order settle insert_deposit admin_credit
granted_bonus = refl

too_dear : (purchase_study_set no_faults shop 7 4).1 ≡ err insufficient_balance
unfolding place_order settle insert_deposit purchase_study_set
too_dear = refl

run3 : Reach init w3
unfolding place_order
run3 =
    next
      (next (next here (create _ no_faults 7 (pos 20000) "HQ1" "qr" 100))
        (read w1 "HQ1" order1 refl))
      (deposit w2 no_faults order1 (pos 20000) "FT1" (Memᴰ.head refl))

run4 : Reach init w4
run4 = next run3 (buy w3 no_faults 7 3 15000)

wallet_never_negative_example : debits 7 w4.db.ledger ≤ credits 7 w4.db.ledger
wallet_never_negative_example = wallet_never_negative w4 7 run4

deposits_covered_by_orders_example : deposit_total 7 w4.db.ledger ≤ paid_total 7 w4.db.orders
deposits_covered_by_orders_example = deposits_covered_by_orders w4 7 run4

closed_order_is_final_example : order_by_id 1 w4.db.orders ≡ some (record order1 { status = paid })
unfolding place_order settle insert_deposit
closed_order_is_final_example =
    closed_order_is_final w3 w4 1 (record order1 { status = paid }) run3
      (next here (buy w3 no_faults 7 3 15000)) refl refl

settle-credits_example :
    (credits 7 w3.db.ledger
      ≡ credits 7 w2.db.ledger
        + (if has_deposit_ref "FT1" w2.db.ledger then 0 else if 7 == 7 then 20000 else 0))
    × (debits 7 w3.db.ledger ≡ debits 7 w2.db.ledger)
    × (pos 20000 ≡ pos 20000)
unfolding place_order settle
settle-credits_example = settle-credits no_faults order1 (pos 20000) "FT1" w2.db 7 refl

purchase_effect_example :
    (debits 7 bought_shop.ledger ≡ debits 7 shop.ledger + 15000)
    × (credits 7 bought_shop.ledger ≡ credits 7 shop.ledger)
    × (debits 7 shop.ledger + 15000 ≤ credits 7 shop.ledger)
    × (pos 5000 ≡ balance 7 bought_shop.ledger)
    × (entitlement_of 7 3 shop.entitlements ≡ none)
unfolding place_order settle insert_deposit purchase_study_set debit_wallet insert_entitlement_row
purchase_effect_example = purchase_effect no_faults shop 7 3 receipt refl

abbrev free_info : AccessInfo
free_info = record {
  pricing_type = one_time;
  price_vnd = pos 15000;
  has_access = true;
  requires_purchase = false;
  is_owner = false;
  granted_via = some via_purchase;
}

abbrev asked_info : AccessInfo
asked_info = record free_info { has_access = false; requires_purchase = true; granted_via = none }

abbrev study_owner : Option ℕ
study_owner = some 2

access_rule_example :
    (true ≡ true
      ↔ (needs_payment (price_of 3 bought_shop.prices) ≡ false)
        ⊎ (study_owner ≡ some 7)
        ⊎ HoldsAt 99 (entitlement_of 7 3 bought_shop.entitlements))
    × (false ≡ false)
unfolding place_order settle insert_deposit purchase_study_set debit_wallet insert_entitlement_row
    get_access_info
access_rule_example = access_rule no_faults bought_shop study_owner 99 7 3 free_info refl

abbrev after_grant : World
after_grant = record w3 { db = (admin_credit no_faults bought_shop 1 7 (pos 10) "bonus").0 }

purchase_gives_lasting_access_example : true ≡ true
unfolding place_order settle insert_deposit purchase_study_set debit_wallet insert_entitlement_row
    get_access_info admin_credit
purchase_gives_lasting_access_example =
    purchase_gives_lasting_access (record w3 { db = shop }) after_grant no_faults no_faults 7 3
      receipt none 99 free_info refl
      (next here (grant (record w3 { db = bought_shop }) no_faults 1 7 (pos 10) "bonus")) refl

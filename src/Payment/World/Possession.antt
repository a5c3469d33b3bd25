-- ===== src/Payment/World/Possession.antt =====
-- What a user has bought stays the user's.
use hquizlet_platform.Prelude.{ℕ, ◌≡◌, true, String, List, Option, arith, inr}
use hquizlet_platform.Prelude.Int.{ℤ}
use hquizlet_platform.Payment.Model.{Entitlement, Db, Faults, PaymentOrder, ok}
use hquizlet_platform.Payment.Ledger.{insert_deposit}
use hquizlet_platform.Payment.Orders.{place_order, cancel_pending_by_id}
use hquizlet_platform.Payment.Deposit.{settle, admin_credit}
use hquizlet_platform.Payment.Purchase.{PurchaseResponse, entitlement_of, purchase_study_set}
use hquizlet_platform.Payment.Purchase.Atomic.{entitles, purchase-entitles, purchase_tx-entitles}
use hquizlet_platform.Payment.Access.{AccessInfo, get_access_info, set_price}
use hquizlet_platform.Payment.Access.Rules.{HoldsAt, access_rule}
use hquizlet_platform.Payment.World.{
  World, Step, create, cancel, read, deposit, grant, buy, price, Reach, here, next,
}

module _ (fault : Faults) (db : Db) where
  create-entitlements :
      (u : ℕ) (amount : ℤ) (code qr : String) (now : ℕ)
      → (place_order fault db u amount code qr now).0.entitlements ≡ db.entitlements
  unfolding place_order
  create-entitlements u amount code qr now = ground arith

  cancel-entitlements :
      (k u : ℕ) → (cancel_pending_by_id fault db k u).0.entitlements ≡ db.entitlements
  unfolding cancel_pending_by_id
  cancel-entitlements k u = ground arith

  settle-entitlements :
      (o : PaymentOrder) (amount : ℤ) (ref : String)
      → (settle fault o amount ref db).0.entitlements ≡ db.entitlements
  unfolding settle insert_deposit
  settle-entitlements o amount ref = ground arith

  credit-entitlements :
      (actor u : ℕ) (amount : ℤ) (note : String)
      → (admin_credit fault db actor u amount note).0.entitlements ≡ db.entitlements
  unfolding admin_credit
  credit-entitlements actor u amount note = ground arith

  price-entitlements :
      (owner : Option ℕ) (now u : ℕ) (legacy : String) (roles : List String) (k : ℕ) (kind : String)
      (amount : ℤ)
      → (set_price fault db owner now u legacy roles k kind amount).0.entitlements ≡ db.entitlements
  unfolding set_price
  price-entitlements owner now u legacy roles k kind amount = ground arith

abbrev Holds : ℕ → ℕ → Db → Type 0
Holds u k db = entitles (entitlement_of u k db.entitlements) ≡ true

Step-Holds : {v w : World} (u k : ℕ) → Step v w → Holds u k v.db → Holds u k w.db
Step-Holds u k (create v fault x amount code qr now) h =
    rw (create-entitlements fault v.db x amount code qr now) h
Step-Holds u k (cancel v fault j x) h = rw (cancel-entitlements fault v.db j x) h
Step-Holds u k (read v code o e) h = h
Step-Holds u k (deposit v fault o amount ref m) h =
    rw (settle-entitlements fault v.db o amount ref) h
Step-Holds u k (grant v fault actor x amount note) h =
    rw (credit-entitlements fault v.db actor x amount note) h
Step-Holds u k (buy v fault x j n) h = purchase_tx-entitles fault x j n u k v.db h
Step-Holds u k (price v fault owner now x legacy roles j kind amount) h =
    rw (price-entitlements fault v.db owner now x legacy roles j kind amount) h

Reach-Holds : {v w : World} (u k : ℕ) → Reach v w → Holds u k v.db → Holds u k w.db
Reach-Holds u k here h = h
Reach-Holds u k (next r s) h = Step-Holds u k s (Reach-Holds u k r h)

entitles-HoldsAt : (now : ℕ) (e : Option Entitlement) → entitles e ≡ true → HoldsAt now e
entitles-HoldsAt now e h = ground arith

-- After a successful purchase the buyer has access to the set at every later time, whatever else
-- the service does in between: a new price, or a study service that cannot be reached, takes no
-- bought set away.
pub purchase_gives_lasting_access :
    (v w : World) (fault later : Faults) (u k : ℕ) (r : PurchaseResponse) (owner : Option ℕ)
    (now : ℕ) (info : AccessInfo)
    → (purchase_study_set fault v.db u k).1 ≡ ok r
    → Reach (record v { db = (purchase_study_set fault v.db u k).0 }) w
    → get_access_info later w.db owner now u k ≡ ok info
    → info.has_access ≡ true
purchase_gives_lasting_access v w fault later u k r owner now info h run shown =
    (access_rule later w.db owner now u k info shown).0.1 (
      inr (
        inr (
          entitles-HoldsAt now (entitlement_of u k w.db.entitlements)
            (Reach-Holds u k run (purchase-entitles fault v.db u k r h)))))

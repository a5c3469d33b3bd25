-- ===== src/Payment/Purchase/Atomic.antt =====
-- What PurchaseStudySet does where it succeeds, and the entitlements that a purchase keeps.
use hquizlet_platform.Prelude.{
  ℕ, ◌+◌, ◌≤◌, ◌≡◌, Bool, true, false, Option, none, some, arith, ==_refl,
}
use hquizlet_platform.Payment.Model.{Entitlement, Db, ok, Faults}
use hquizlet_platform.Payment.Ledger.{credits, debits, balance}
use hquizlet_platform.Payment.Purchase.{
  PurchaseResponse, entitlement_of, purchase_tx, purchase_study_set,
}

abbrev is_never : Option ℕ → Bool
is_never none = true
is_never (some _) = false

-- An entitlement that does not expire.
abbrev pub entitles : Option Entitlement → Bool
entitles none = false
entitles (some e) = is_never e.expires_at

module _ (fault : Faults) (db : Db) (u k : ℕ) where
  abbrev bought : Db
  bought = (purchase_study_set fault db u k).0

  -- A successful purchase debits the price, once, from a wallet that can pay it; no credit changes,
  -- the answer shows the balance that is left, and the buyer did not have the set before.
  pub purchase_effect :
      (r : PurchaseResponse)
      → (purchase_study_set fault db u k).1 ≡ ok r
      → (debits u bought.ledger ≡ debits u db.ledger + r.price)
        × (credits u bought.ledger ≡ credits u db.ledger)
        × (debits u db.ledger + r.price ≤ credits u db.ledger)
        × (r.new_balance ≡ balance u bought.ledger)
        × (entitlement_of u k db.entitlements ≡ none)
  unfolding purchase_study_set
  purchase_effect r h = ground (arith, ==_refl u)

  pub purchase-entitles :
      (r : PurchaseResponse)
      → (purchase_study_set fault db u k).1 ≡ ok r
      → entitles (entitlement_of u k bought.entitlements) ≡ true
  unfolding purchase_study_set
  purchase-entitles r h = ground (arith, ==_refl u, ==_refl k)

pub purchase_tx-entitles :
    (fault : Faults) (u k price v j : ℕ) (db : Db)
    → entitles (entitlement_of v j db.entitlements) ≡ true
    → entitles (entitlement_of v j (purchase_tx fault u k price db).0.entitlements) ≡ true
unfolding purchase_tx
purchase_tx-entitles fault u k price v j db h = ground arith

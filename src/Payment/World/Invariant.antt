-- ===== src/Payment/World/Invariant.antt =====
-- What holds of the payment service after any requests, however they interleave and fail.
use mathlib.Core.List.{Memᴰ}
use hquizlet_platform.Prelude.{
  ℕ, ◌≤◌, ◌≡◌, refl, ◌∙◌, String, List, [], ◌∷◌, Option, some, arith, All,
}
use hquizlet_platform.Prelude.Int.{ℤ}
use hquizlet_platform.Payment.Model.{PaymentOrder, Db, Faults}
use hquizlet_platform.Payment.Ledger.{credits, debits}
use hquizlet_platform.Payment.Orders.Rows.{paid_total, origin, Matches, order_by_code-Matches}
use hquizlet_platform.Payment.Access.{set_price}
use hquizlet_platform.Payment.World.{
  World, Step, create, cancel, read, deposit, grant, buy, price, Reach, here, next, init,
}
use hquizlet_platform.Payment.World.Ledgers.{
  IsSound, deposit_total, place_order-IsSound, place_order-origin, cancel_pending_by_id-IsSound,
  cancel_pending_by_id-origin, settle-IsSound, settle-origin, admin_credit-IsSound,
  admin_credit-orders, purchase_tx-IsSound, purchase_tx-orders,
}

module _ (fault : Faults) (db : Db) (owner : Option ℕ) (now u : ℕ) (legacy : String)
    (roles : List String) (k : ℕ) (kind : String) (amount : ℤ) where
  abbrev pub priced : Db
  priced = (set_price fault db owner now u legacy roles k kind amount).0

  pub set_price-orders : priced.orders ≡ db.orders
  unfolding set_price
  set_price-orders = ground arith

  set_price-IsSound : IsSound db → IsSound priced
  unfolding set_price
  set_price-IsSound s = record {
    solvent = λ v. ground (arith, s.solvent v);
    covered = λ v. ground (arith, s.covered v);
    below = ground (arith, s.below);
    distinct = ground (arith, s.distinct);
  }

pub record Inv (w : World) : Type 0 where
  pub sound : IsSound w.db
  pub matched : All (λ o. Matches o w.db.orders) w.waiting

All-Matches :
    (os ps : List PaymentOrder)
    → ((k : ℕ) (x : ℕ × ℕ) → origin k os ≡ some x → origin k ps ≡ some x)
    → (l : List PaymentOrder) → All (λ o. Matches o os) l
    → All (λ o. Matches o ps) l
All-Matches os ps keep [] h = tt
All-Matches os ps keep (o ∷ l) h =
    (keep o.id (o.user_id, o.amount_vnd) h.0, All-Matches os ps keep l h.1)

All-mem :
    (os : List PaymentOrder) (o : PaymentOrder) (l : List PaymentOrder)
    → All (λ p. Matches p os) l
    → Memᴰ o l
    → Matches o os
All-mem os o [] h m = elim m [ ]
All-mem os o (p ∷ l) h (Memᴰ.head e) = ground (arith, h.0, e)
All-mem os o (p ∷ l) h (Memᴰ.tail m) = All-mem os o l h.1 m

pub Step-Inv : {v w : World} → Step v w → Inv v → Inv w
Step-Inv (create v fault u amount code qr now) i = record {
  sound = place_order-IsSound fault v.db u amount code qr now i.sound;
  matched =
      All-Matches _ _ (λ k x. place_order-origin fault v.db u amount code qr now k x i.sound)
        v.waiting i.matched;
}
Step-Inv (cancel v fault k u) i = record {
  sound = cancel_pending_by_id-IsSound fault v.db k u i.sound;
  matched =
      All-Matches _ _ (λ j x h. cancel_pending_by_id-origin fault v.db k u j ∙ h) v.waiting
        i.matched;
}
Step-Inv (read v code o h) i = record {
  sound = i.sound;
  matched = (order_by_code-Matches code v.db.orders o i.sound.distinct h, i.matched);
}
Step-Inv (deposit v fault o amount ref m) i = record {
  sound =
      settle-IsSound fault v.db o amount ref (All-mem v.db.orders o v.waiting i.matched m) i.sound;
  matched =
      All-Matches _ _ (λ j x h. settle-origin fault v.db o amount ref j ∙ h) v.waiting i.matched;
}
Step-Inv (grant v fault actor u amount note) i = record {
  sound = admin_credit-IsSound fault v.db actor u amount note i.sound;
  matched = rw (admin_credit-orders fault v.db actor u amount note) i.matched;
}
Step-Inv (buy v fault u k n) i = record {
  sound = purchase_tx-IsSound fault v.db u k n i.sound;
  matched = rw (purchase_tx-orders fault v.db u k n) i.matched;
}
Step-Inv (price v fault owner now u legacy roles k kind amount) i = record {
  sound = set_price-IsSound fault v.db owner now u legacy roles k kind amount i.sound;
  matched = rw (set_price-orders fault v.db owner now u legacy roles k kind amount) i.matched;
}

pub Reach-Inv : {v w : World} → Inv v → Reach v w → Inv w
Reach-Inv i here = i
Reach-Inv i (next r s) = Step-Inv s (Reach-Inv i r)

pub init-Inv : Inv init
init-Inv = record {
  sound = record {
    solvent = λ u. omega arith;
    covered = λ u. omega arith;
    below = refl;
    distinct = refl;
  };
  matched = tt;
}

-- Whatever requests the service has handled, and however their transactions interleaved and
-- failed, no user has spent more than was credited to the wallet.
pub wallet_never_negative :
    (w : World) (u : ℕ) → Reach init w → debits u w.db.ledger ≤ credits u w.db.ledger
wallet_never_negative w u r = (Reach-Inv init-Inv r).sound.solvent u

-- Whatever requests the service has handled, with webhooks delivered late, twice or at once, the
-- deposits credited to a user are at most the amounts of the user's orders that are PAID.
pub deposits_covered_by_orders :
    (w : World) (u : ℕ) → Reach init w → deposit_total u w.db.ledger ≤ paid_total u w.db.orders
deposits_covered_by_orders w u r = (Reach-Inv init-Inv r).sound.covered u

-- ===== src/Payment/Access/Rules.antt =====
-- GetAccessInfo against the rule that it stands for, and against the purchase.
use hquizlet_platform.Prelude.{
  ℕ, ◌<◌, ◌↔◌, ◌⊎◌, ◌≡◌, ◌≢◌, Bool, true, false, ◌&&◌, not, Option, none, some, arith,
}
use hquizlet_platform.Prelude.Int.{is_positive}
use hquizlet_platform.Payment.Model.{
  StudySetPrice, Entitlement, Db, ok, err, Faults, no_faults, already_owned,
}
use hquizlet_platform.Payment.Purchase.{
  PurchaseResponse, price_of, entitlement_of, purchase_study_set,
}
use hquizlet_platform.Payment.Access.{AccessInfo, is_one_time, is_live, owned_by, get_access_info}

abbrev pub needs_payment : Option StudySetPrice → Bool
needs_payment none = false
needs_payment (some p) = is_one_time p.pricing_type && is_positive p.price_vnd

-- An entitlement without an expiry, or with one later than a time.
abbrev pub EndsAfter : ℕ → Option ℕ → Type 0
EndsAfter now none = Unit
EndsAfter now (some end) = now < end

abbrev pub HoldsAt : ℕ → Option Entitlement → Type 0
HoldsAt now none = ⊥
HoldsAt now (some e) = EndsAfter now e.expires_at

module _ (fault : Faults) (db : Db) (owner : Option ℕ) (now u k : ℕ) where
  access-reason :
      (info : AccessInfo)
      → get_access_info fault db owner now u k ≡ ok info
      → info.has_access ≡ true
      → (needs_payment (price_of k db.prices) ≡ false)
        ⊎ (owner ≡ some u)
        ⊎ HoldsAt now (entitlement_of u k db.entitlements)
  unfolding get_access_info
  access-reason info h e = grind arith

  reason-access :
      (info : AccessInfo)
      → get_access_info fault db owner now u k ≡ ok info
      → (needs_payment (price_of k db.prices) ≡ false)
        ⊎ (owner ≡ some u)
        ⊎ HoldsAt now (entitlement_of u k db.entitlements)
      → info.has_access ≡ true
  unfolding get_access_info
  reason-access info h e = grind arith

  access-asks :
      (info : AccessInfo)
      → get_access_info fault db owner now u k ≡ ok info
      → info.requires_purchase ≡ not info.has_access
  unfolding get_access_info
  access-asks info h = ground arith

  -- Where the price and the entitlement can be read, access is given exactly to a set that costs
  -- nothing, to a user whom the study service names as the owner of the set, and to the holder of
  -- an entitlement without an expiry or with one that is still to come; where the study service
  -- cannot be reached, an owner counts as any other user. Who has no access is asked to buy, and
  -- nobody else.
  pub access_rule :
      (info : AccessInfo)
      → get_access_info fault db owner now u k ≡ ok info
      → (info.has_access ≡ true
          ↔ (needs_payment (price_of k db.prices) ≡ false)
            ⊎ (owner ≡ some u)
            ⊎ HoldsAt now (entitlement_of u k db.entitlements))
        × (info.requires_purchase ≡ not info.has_access)
  access_rule info h =
      ((λ e. access-reason info h e, λ e. reason-access info h e), access-asks info h)

  -- A user whose entitlement has expired is asked to buy the set again, and cannot: the purchase
  -- is refused because there is an entitlement, whether it has expired or not.
  pub expired_entitlement_blocks_purchase :
      (e : Entitlement) (info : AccessInfo) (r : PurchaseResponse)
      → needs_payment (price_of k db.prices) ≡ true
      → owned_by owner u ≡ false
      → entitlement_of u k db.entitlements ≡ some e
      → is_live now e ≡ false
      → get_access_info fault db owner now u k ≡ ok info
      → (info.requires_purchase ≡ true)
        × ((purchase_study_set fault db u k).1 ≢ ok r)
        × ((purchase_study_set no_faults db u k).1 ≡ err already_owned)
  unfolding get_access_info purchase_study_set
  expired_entitlement_blocks_purchase e info r paid other held dead h = ground arith

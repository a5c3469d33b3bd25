-- ===== src/Payment/Access.antt =====
-- services/payment/internal/service/access_svc.go, and the price handler of
-- services/payment/internal/http/handler/price.go. The study service's answer about the owner is an
-- argument: `none` where it cannot be reached.
pub mod Rules
use hquizlet_platform.Prelude.{
  ℕ, Bool, true, false, not, ◌&&◌, ◌||◌, String, List, [], Option, none, some, ltb, ◌==◌, str_eq,
  if◌then◌else◌,
}
use hquizlet_platform.Prelude.Int.{ℤ, pos, is_positive}
use hquizlet_platform.Payment.Model.{
  PricingType, free, one_time, StudySetPrice, Entitlement, GrantedVia, Db, internal, Result, ok,
  err, Faults, get_price, get_entitlement, upsert,
}
use hquizlet_platform.Authz.Actions.{study_set_set_price}
use hquizlet_platform.Authz.Resource.{Target}
use hquizlet_platform.Authz.Principal.{Actor}
use hquizlet_platform.Authz.Evaluator.{can}
use hquizlet_platform.Payment.Purchase.{price_of, entitlement_of, upsert_price}

-- StudySetAccessInfo
pub record AccessInfo : Type 0 where
  pub pricing_type : PricingType
  pub price_vnd : ℤ
  pub has_access : Bool
  pub requires_purchase : Bool
  pub is_owner : Bool
  pub granted_via : Option GrantedVia

abbrev pricing_of : Option StudySetPrice → PricingType
pricing_of none = free
pricing_of (some p) = p.pricing_type

abbrev price_value : Option StudySetPrice → ℤ
price_value none = pos 0
price_value (some p) = p.price_vnd

abbrev pub is_one_time : PricingType → Bool
is_one_time free = false
is_one_time one_time = true

-- `ent.ExpiresAt == nil || ent.ExpiresAt.After(time.Now())`
abbrev pub is_live : ℕ → Entitlement → Bool
is_live now e = elim e.expires_at [ none ↦ true | some t ↦ ltb now t ]

-- checkOwnership, and the fallback of its caller: an unreachable study service means no owner.
abbrev pub owned_by : Option ℕ → ℕ → Bool
owned_by none u = false
owned_by (some owner) u = owner == u

-- The decision of GetAccessInfo at a set with a price: hasAccess and grantedVia.
abbrev paid_access : ℕ → Bool → Option Entitlement → Bool × Option GrantedVia
paid_access now true e = (true, none)
paid_access now false none = (false, none)
paid_access now false (some e) = if is_live now e then (true, some e.granted_via) else (false, none)

-- GetAccessInfo
unfoldable pub get_access_info : Faults → Db → Option ℕ → ℕ → ℕ → ℕ → Result AccessInfo
get_access_info fault db owner now u k =
    let p = price_of k db.prices in
    let is_owner = owned_by owner u in
    let decision = paid_access now is_owner (entitlement_of u k db.entitlements) in
    let priced = is_one_time (pricing_of p) && is_positive (price_value p) in
    if fault get_price || fault get_entitlement
    then err internal
    else ok (record {
      pricing_type = pricing_of p;
      price_vnd = price_value p;
      has_access = if priced then decision.0 else true;
      requires_purchase = if priced then not decision.0 else false;
      is_owner = is_owner;
      granted_via = if priced then decision.1 else none;
    })

-- The answers of the handler setPrice.
pub data PriceReply : Type 0 where
  price_set teacher_required owner_required bad_pricing_type bad_price failed : PriceReply

abbrev parse_pricing : String → Option PricingType
parse_pricing t =
    if str_eq t "free" then some free else if str_eq t "one_time" then some one_time else none

abbrev owner_flag : Result AccessInfo → Option Bool
owner_flag (err e) = none
owner_flag (ok info) = some info.is_owner

-- The part of setPrice behind its checks of the actor.
write_price : Faults → Db → ℕ → String → ℤ → Db × PriceReply
write_price fault db k kind price = elim (parse_pricing kind) [
  | none ↦ (db, bad_pricing_type)
  | some t ↦
      if is_one_time t && not (is_positive price)
      then (db, bad_price)
      else if fault upsert
      then (db, failed)
      else (record db { prices = upsert_price k t price db.prices }, price_set)
]

-- PriceHandler.setPrice, for a well-formed request of the user `u` with these roles.
unfoldable pub set_price :
    Faults → Db → Option ℕ → ℕ → ℕ → String → List String → ℕ → String → ℤ → Db × PriceReply
unfolding write_price
set_price fault db owner now u legacy roles k kind price =
    let actor : Actor = record {
      user_id = pos u;
      legacy_role = legacy;
      platform_roles = roles;
      class_role = "";
      class_id = pos 0;
      org_roles = [];
    } in
    let res : Target = record {
      kind = "study-set";
      id = pos 0;
      owner_user_id = pos u;
      class_id = pos 0;
      org_id = pos 0;
    } in
    if not (can actor study_set_set_price res)
    then (db, teacher_required)
    else elim (owner_flag (get_access_info fault db owner now u k)) [
      | none ↦ (db, failed)
      | some is_owner ↦
          if not is_owner then (db, owner_required) else write_price fault db k kind price
    ]

-- ===== src/Store/Pipeline.antt =====
-- fpt/store/pipeline.py: what an observation of an offer does to its deals. None in place of a
-- result with its tables is an exception.
pub mod Shipping
pub mod Frame
pub mod Offers
pub mod Ingest
pub mod Keeps
pub mod Answers
use fishing_deal_tracker.Prelude.{
  ℕ, ◌+◌, ◌*◌, String, Bool, true, false, not, ◌&&◌, ◌||◌, Option, none, some, List, [], ◌∷◌, ltb,
  is_some, if◌then◌else◌,
}
use fishing_deal_tracker.Prelude.Int.{ℤ, ◌+ℤ◌, pos}
use fishing_deal_tracker.Prelude.Eq.{◌==◌, nat_eq}
use fishing_deal_tracker.Prelude.Query.{◌>>=◌}
use fishing_deal_tracker.Floats.{Floats}
use fishing_deal_tracker.Domain.{
  ConditionGroup, DetectedVia, PageType, ParsedOffer, Quality, Reason, Rule, condition_value,
  group_beq,
}
use fishing_deal_tracker.Deals.Confirm.{ConfirmResult, ConfirmStatus, confirm_candidate, minute}
use fishing_deal_tracker.Deals.Detect.{
  DealCandidate, DealRules, detect_deep_discount_claimed, detect_deep_discount_new,
  detect_used_vs_current_new,
}
use fishing_deal_tracker.Deals.References.{ReferenceDetail, VerifiedReference, claimed_inflated}
use fishing_deal_tracker.Store.Database.{Db, DealReferenceKind, ExpireReason}
use fishing_deal_tracker.Store.Queries.{
  OfferContext, get_offer_context, resolve_current_new_for_variant,
  resolve_verified_reference_for_offer,
}
use fishing_deal_tracker.Store.Deals.Rows.{
  OpenDeal, create_candidate_deal, find_open_deal, is_active, is_unconfirmed,
}
use fishing_deal_tracker.Store.Deals.Confirmation.{
  Confirming, apply_confirm_result, build_confirm_context, enqueue_confirm_task,
}
use fishing_deal_tracker.Store.Deals.Recheck.{
  DealRecheckResult, RecheckRules, refresh_or_expire_active_deal, verified_cents,
}

-- `DealAction`, by its kind and with the values that go with it.
pub data DealAction : Type 0 where
  no_action : DealAction
  candidate_created : (deal_id : ℕ) → DealAction
  confirmed : (deal_id : ℕ) → ConfirmStatus → DealAction
  rechecked : (deal_id : ℕ) → DealRecheckResult → DealAction

-- `("DEEP_DISCOUNT_NEW", "DEEP_DISCOUNT_CLAIMED", "USED_VS_CURRENT_NEW")`
abbrev pub rules_in_order : List Rule
rules_in_order = Rule.deep_discount_new ∷ Rule.deep_discount_claimed ∷ Rule.used_vs_current_new ∷ []

-- `_landed_price_cents`: the price to compare, and the landed price to store.
unfoldable pub landed_price_cents : ParsedOffer → Option ℤ × Option ℤ
landed_price_cents offer = elim offer.price_cents [
  | none ↦ (none, none)
  | some price ↦ elim offer.shipping_cents [
    | some shipping ↦ (some (price +ℤ shipping), some (price +ℤ shipping))
    | none ↦ (some price, none)
  ]
]

abbrev pub is_used_rule : Rule → Bool
is_used_rule Rule.used_vs_current_new = true
is_used_rule _ = false

-- `landed_price if (rule == … and landed_price is not None) else item_price`
abbrev pub compare_price : Rule → (item landed : Option ℤ) → Option ℤ
compare_price rule none landed = none
compare_price rule (some item) none = some item
compare_price rule (some item) (some landed) = some (if is_used_rule rule then landed else item)

-- The rest of a loop that returns at the first turn with a result.
abbrev pub or_next {ℓ} : {A : Type ℓ} → Option A → Option A → Option A
or_next none next = next
or_next (some a) next = some a

module _ {F : Type 0} ⦃fl : Floats F⦄ where
  -- One turn of the loop of `_try_recheck_active`; none where it goes on to the next rule.
  unfoldable pub recheck_rule :
      RecheckRules F
      → Db F
      → (offer_id : ℕ) → ParsedOffer
      → (observed_id : ℕ) → Rule
      → Option (DealAction × Db F)
  recheck_rule config db offer_id offer observed_id rule = elim (find_open_deal db offer_id rule) [
    | none ↦ none
    | some open_deal ↦
        if not (is_active open_deal.status)
        then none
        else elim (compare_price rule (landed_price_cents offer).0 (landed_price_cents offer).1) [
          | none ↦ none
          | some price ↦
              let (result, db') =
                refresh_or_expire_active_deal config db open_deal offer_id observed_id price
                  (landed_price_cents offer).1 offer.availability none none
                  offer.claimed_reference_cents in
              some (DealAction.rechecked open_deal.id result, db')
        ]
  ]

  -- `_try_recheck_active`
  unfoldable pub try_recheck_active :
      RecheckRules F
      → Db F
      → (offer_id : ℕ) → ParsedOffer
      → (observed_id : ℕ) → List Rule
      → Option (DealAction × Db F)
  try_recheck_active config db offer_id offer observed_id [] = none
  try_recheck_active config db offer_id offer observed_id (rule ∷ rules) =
      or_next (recheck_rule config db offer_id offer observed_id rule)
        (try_recheck_active config db offer_id offer observed_id rules)

-- What the confirming fetch gives beside the offer: the `ParsedListing`, the response, the verdict
-- of the validation, and the category's floor.
pub record Fetched : Type 0 where
  pub retailer_id : ℕ
  pub category : String
  pub listing_url : String
  pub retailer_sku : String
  pub variant_key_observed : Option String
  pub observed_id : ℕ
  pub observed_at : ℕ
  pub page_type : PageType
  pub quality : Quality
  pub reasons : List Reason
  pub category_floor_cents : Option ℤ
  pub skip_confirm_task_enqueue : Bool

-- `.value` of the condition.
abbrev pub confirming : ParsedOffer → Fetched → (price : ℤ) → Confirming
confirming offer fetch price = record {
  observation_id = fetch.observed_id;
  observed_at = fetch.observed_at;
  page_type = fetch.page_type;
  price_cents = price;
  quality = fetch.quality;
  quality_reasons = fetch.reasons;
  retailer_sku = fetch.retailer_sku;
  offer_key = offer.offer_key;
  condition = condition_value offer.condition;
  seller_key = offer.seller_key;
  variant_key_observed = fetch.variant_key_observed;
  unit_count = offer.unit_count;
  category_floor_cents = fetch.category_floor_cents;
  claimed_reference_cents = offer.claimed_reference_cents;
}

-- The tests that `_try_confirm` makes of an open deal, its price aside.
abbrev pub may_confirm : OpenDeal → Fetched → Bool
may_confirm open_deal fetch =
    is_unconfirmed open_deal.status
    && not (open_deal.detected_observation_id == fetch.observed_id)
    && not (ltb fetch.observed_at (open_deal.detected_at + 10 * minute))

module _ {F : Type 0} ⦃fl : Floats F⦄ where
  abbrev pub result_of : Db F → OpenDeal → (offer_id : ℕ) → Confirming → ConfirmResult
  result_of db open_deal offer_id c =
      confirm_candidate (build_confirm_context db open_deal offer_id c)

  -- One turn of the loop of `_try_confirm`.
  unfoldable pub confirm_rule :
      Db F → (offer_id : ℕ) → ParsedOffer → Fetched → Rule → Option (DealAction × Db F)
  confirm_rule db offer_id offer fetch rule = elim (find_open_deal db offer_id rule) [
    | none ↦ none
    | some open_deal ↦ if not (may_confirm open_deal fetch) then none else elim offer.price_cents [
      | none ↦ none
      | some price ↦
          let ctx = build_confirm_context db open_deal offer_id (confirming offer fetch price) in
          let result = confirm_candidate ctx in
          some (
            DealAction.confirmed open_deal.id result.status,
            apply_confirm_result db open_deal.id fetch.observed_id result (some ctx),
          )
    ]
  ]

  -- `_try_confirm`
  unfoldable pub try_confirm :
      Db F → (offer_id : ℕ) → ParsedOffer → Fetched → List Rule → Option (DealAction × Db F)
  try_confirm db offer_id offer fetch [] = none
  try_confirm db offer_id offer fetch (rule ∷ rules) =
      or_next (confirm_rule db offer_id offer fetch rule)
        (try_confirm db offer_id offer fetch rules)

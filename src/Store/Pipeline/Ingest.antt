-- ===== src/Store/Pipeline/Ingest.antt =====
-- `_run_detection` of fpt/store/pipeline.py, and the choice that `ingest_parsed_listing` makes for
-- each observation of an offer: recheck, confirm or detect.
use fishing_deal_tracker.Prelude.{
  ℕ, Bool, true, false, Option, none, some, or_default, if◌then◌else◌,
}
use fishing_deal_tracker.Prelude.Int.{ℤ, pos}
use fishing_deal_tracker.Prelude.Eq.{nat_eq}
use fishing_deal_tracker.Floats.{Floats}
use fishing_deal_tracker.Domain.{ConditionGroup, DetectedVia, ParsedOffer, group_beq}
use fishing_deal_tracker.Deals.Detect.{
  DealCandidate, DealRules, detect_deep_discount_claimed, detect_deep_discount_new,
  detect_used_vs_current_new,
}
use fishing_deal_tracker.Deals.References.{ReferenceDetail, VerifiedReference, claimed_inflated}
use fishing_deal_tracker.Store.Database.{Db, DealReferenceKind}
use fishing_deal_tracker.Store.Queries.{
  get_offer_context, is_ok, resolve_current_new_for_variant, resolve_verified_reference_for_offer,
}
use fishing_deal_tracker.Store.Deals.Rows.{OpenDeal, create_candidate_deal}
use fishing_deal_tracker.Store.Deals.Confirmation.{enqueue_confirm_task}
use fishing_deal_tracker.Store.Deals.Recheck.{RecheckRules, verified_cents}
use fishing_deal_tracker.Store.Pipeline.{
  DealAction, Fetched, landed_price_cents, or_next, rules_in_order, try_confirm, try_recheck_active,
}

-- A candidate of a new offer, with the kind and the detail of its reference.
pub record Detected (F : Type 0) : Type 0 where
  pub candidate : DealCandidate F
  pub reference_kind : DealReferenceKind
  pub reference_detail : ReferenceDetail

module _ {F : Type 0} where
  -- The confirmation task of a deal that was detected, unless it is to be skipped.
  abbrev pub enqueue_for : Fetched → (deal_id : ℕ) → Db F → Db F
  enqueue_for fetch deal_id db =
      if fetch.skip_confirm_task_enqueue
      then db
      else (enqueue_confirm_task db fetch.retailer_id deal_id fetch.listing_url fetch.category
          fetch.observed_at 10 3).1

  abbrev pub created_action : Fetched → Option OpenDeal × Db F → Option (DealAction × Db F)
  created_action fetch (none, db) = none
  created_action fetch (some open_deal, db) =
      some (DealAction.candidate_created open_deal.id, enqueue_for fetch open_deal.id db)

module _ {F : Type 0} ⦃fl : Floats F⦄ where
  abbrev pub detected_claimed : Option (DealCandidate F) → Option (Detected F)
  detected_claimed none = none
  detected_claimed (some c) = some (record {
    candidate = c;
    reference_kind = DealReferenceKind.retailer_claimed;
    reference_detail = ReferenceDetail.no_detail;
  })

  abbrev pub detected_verified : VerifiedReference → DealCandidate F → Detected F
  detected_verified v c = record {
    candidate = c;
    reference_kind = DealReferenceKind.verified v.kind;
    reference_detail = v.detail;
  }

  -- The verified rule where a reference is verified, then the claimed one.
  unfoldable pub detect_new :
      DealRules F → ParsedOffer → (price : ℤ) → Option VerifiedReference → Option (Detected F)
  detect_new config offer price none = detected_claimed (
      detect_deep_discount_claimed config offer.condition price offer.claimed_reference_cents
        offer.on_clearance false none)
  detect_new config offer price (some v) =
      elim (detect_deep_discount_new config offer.condition offer.availability price (some v.cents)
        none) [
          | some c ↦ some (detected_verified v c)
          | none ↦ detected_claimed (
              detect_deep_discount_claimed config offer.condition price
                offer.claimed_reference_cents offer.on_clearance true none)
        ]

  abbrev pub create_new :
      Db F
      → (offer_id : ℕ) → ParsedOffer
      → Fetched
      → (inflated : Option Bool) → Option (Detected F)
      → Option (DealAction × Db F)
  create_new db offer_id offer fetch inflated none = some (DealAction.no_action, db)
  create_new db offer_id offer fetch inflated (some d) = created_action fetch (
      create_candidate_deal db offer_id d.candidate fetch.observed_id DetectedVia.product_page
        d.reference_kind d.reference_detail fetch.observed_at offer.claimed_reference_cents
        offer.claimed_reference_kind inflated)

  abbrev pub create_used :
      Db F → (offer_id : ℕ) → Fetched → Option (DealCandidate F) → Option (DealAction × Db F)
  create_used db offer_id fetch none = some (DealAction.no_action, db)
  create_used db offer_id fetch (some c) = created_action fetch (
      create_candidate_deal db offer_id c fetch.observed_id DetectedVia.product_page
        DealReferenceKind.current_new ReferenceDetail.no_detail fetch.observed_at none none none)

  -- `_run_detection` with `detected_via="PRODUCT_PAGE"`, for an offer whose price its caller has
  -- checked; 5/4 is the default ratio 1.25 of `claimed_inflated`.
  unfoldable pub run_detection :
      DealRules F
      → Db F
      → (offer_id : ℕ) → ParsedOffer
      → (price : ℤ) → Fetched
      → Option (DealAction × Db F)
  run_detection config db offer_id offer price fetch = elim (get_offer_context db offer_id) [
    | none ↦ none
    | some ctx ↦
        if group_beq ctx.condition_group ConditionGroup.new_group
        then create_new db offer_id offer fetch
            (claimed_inflated offer.claimed_reference_cents
              (verified_cents (resolve_verified_reference_for_offer db offer_id))
              (fl.div_int (pos 5) (pos 4)))
            (detect_new config offer price (resolve_verified_reference_for_offer db offer_id))
        else create_used db offer_id fetch (
            detect_used_vs_current_new config offer.condition offer.availability
              (or_default (landed_price_cents offer).0 price)
              (resolve_current_new_for_variant db ctx.variant_id offer_id) none)
  ]

  abbrev pub detect_if_priced :
      DealRules F
      → Db F
      → (offer_id : ℕ) → ParsedOffer
      → Fetched
      → Option ℤ
      → Option (DealAction × Db F)
  detect_if_priced config db offer_id offer fetch none = some (DealAction.no_action, db)
  detect_if_priced config db offer_id offer fetch (some price) =
      run_detection config db offer_id offer price fetch

  abbrev pub recheck_if_ok :
      RecheckRules F → Db F → (offer_id : ℕ) → ParsedOffer → Fetched → Option (DealAction × Db F)
  recheck_if_ok recheck db offer_id offer fetch =
      if is_ok fetch.quality
      then try_recheck_active recheck db offer_id offer fetch.observed_id rules_in_order
      else none

  abbrev pub detect_if_ok :
      DealRules F → Db F → (offer_id : ℕ) → ParsedOffer → Fetched → Option (DealAction × Db F)
  detect_if_ok config db offer_id offer fetch =
      if is_ok fetch.quality
      then detect_if_priced config db offer_id offer fetch offer.price_cents
      else some (DealAction.no_action, db)

  -- What `ingest_parsed_listing` does after an observation was recorded that is no duplicate: the
  -- recheck of an ACTIVE deal, or else the confirmation of an open one, or else the detection.
  unfoldable pub act_on_observation :
      DealRules F
      → RecheckRules F
      → Db F
      → (offer_id : ℕ) → ParsedOffer
      → Fetched
      → Option (DealAction × Db F)
  act_on_observation config recheck db offer_id offer fetch =
      or_next (recheck_if_ok recheck db offer_id offer fetch) (
        or_next (try_confirm db offer_id offer fetch rules_in_order)
          (detect_if_ok config db offer_id offer fetch))

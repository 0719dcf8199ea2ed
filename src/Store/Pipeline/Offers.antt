-- ===== src/Store/Pipeline/Offers.antt =====
-- `ingest_parsed_listing` of fpt/store/pipeline.py from the upsert of the listing on: the listing,
-- its crawl task, and then, for each offer, the validation, the record and the deal.
pub mod Steps
pub mod Whole
pub mod Sample
pub mod Replay
pub mod Silent
mod Tests
use fishing_deal_tracker.Prelude.{
  ℕ, String, Bool, true, false, ◌&&◌, Option, none, some, List, [], ◌∷◌, ◌++◌, is_some, leb,
  if◌then◌else◌,
}
use fishing_deal_tracker.Prelude.Int.{ℤ}
use fishing_deal_tracker.Prelude.Eq.{◌==◌, nat_eq}
use fishing_deal_tracker.Prelude.Order.{keep, sort}
use fishing_deal_tracker.Prelude.Query.{head?}
use fishing_deal_tracker.Floats.{Floats}
use fishing_deal_tracker.Domain.{PageType, ParsedOffer}
use fishing_deal_tracker.Deals.Detect.{DealRules}
use fishing_deal_tracker.Validation.{
  Band, Guards, ObservationContext, ObservationInput, ValidationResult, validate_observation,
}
use fishing_deal_tracker.Store.Database.{Db, DedupeKey, Observation, TaskKind}
use fishing_deal_tracker.Store.Queries.{is_ok}
use fishing_deal_tracker.Store.Listings.{
  ListingValues, get_or_create_seller, upsert_listing, upsert_offer,
}
use fishing_deal_tracker.Store.Observations.{
  ObservedValues, RecordedObservation, get_or_create_crawl_task, record_observation,
}
use fishing_deal_tracker.Store.Deals.Recheck.{RecheckRules}
use fishing_deal_tracker.Store.Pipeline.{DealAction, Fetched}
use fishing_deal_tracker.Store.Pipeline.Ingest.{act_on_observation}

-- What is known of the listing and its fetch when the loop over the offers begins.
pub record ListingContext : Type 0 where
  pub retailer_id : ℕ
  pub category : String
  pub kind : TaskKind
  pub page_type : PageType
  pub persisted_url : String
  pub retailer_sku : String
  pub variant_key : String
  pub unit_count : Option ℤ
  pub floor_cents : Option ℤ
  pub fetched_at : ℕ
  pub adapter_version : String
  pub snapshot_ref : String
  pub skip_confirm_task_enqueue : Bool

-- The files of rules, bands and guards that the functions load, and the calendar.
pub record Settings (F : Type 0) : Type 0 where
  pub deal_rules : DealRules F
  pub recheck_rules : RecheckRules F
  pub category_bands : List (String × Band)
  pub guards : Guards F
  pub date_et : ℕ → ℕ

-- For a listing that is not rejected.
pub record IngestOutcome : Type 0 where
  pub listing_id : ℕ
  pub offer_ids : List ℕ
  pub observations : List RecordedObservation
  pub deal_actions : List DealAction

-- `ORDER BY observed_at DESC`
abbrev pub observed_later : Observation → Observation → Bool
observed_later a b = leb b.observed_at a.observed_at

abbrev pub is_ok_of : (offer_id : ℕ) → Observation → Bool
is_ok_of offer_id o = o.offer_id == offer_id && is_ok o.quality

abbrev pub price_and_count : Option Observation → Option ℤ × Option ℤ
price_and_count none = (none, none)
price_and_count (some o) = (o.price_cents, o.unit_count)

abbrev pub is_used_listing : PageType → Bool
is_used_listing PageType.used_listing = true
is_used_listing _ = false

abbrev pub observation_input : ListingContext → ParsedOffer → ObservationInput
observation_input ctx offer = record {
  price_cents = offer.price_cents;
  currency = "USD";
  category = ctx.category;
  claimed_reference_cents = offer.claimed_reference_cents;
  on_clearance = offer.on_clearance;
  unit_count = offer.unit_count;
  variant_key_observed = some ctx.variant_key;
  availability = offer.availability;
  condition_wording_mapped = true;
  is_used_page_type = is_used_listing ctx.page_type;
}

abbrev pub observation_context :
    ListingContext → (last_ok : Option ℤ × Option ℤ) → ObservationContext
observation_context ctx last_ok = record {
  last_ok_price_cents = last_ok.0;
  last_ok_unit_count = last_ok.1;
  listing_variant_key_observed = some ctx.variant_key;
  listing_unit_count = ctx.unit_count;
  previous_variant_count = none;
  current_variant_count = none;
  previous_distinct_price_count = none;
  current_distinct_price_count = none;
}

abbrev pub observed_values :
    ListingContext → ParsedOffer → (offer_id crawl_task_id : ℕ) → ObservedValues
observed_values ctx offer offer_id crawl_task_id = record {
  offer_id = offer_id;
  crawl_task_id = crawl_task_id;
  task_kind = ctx.kind;
  observed_at = ctx.fetched_at;
  price_cents = offer.price_cents;
  shipping_cents = offer.shipping_cents;
  claimed_reference_cents = offer.claimed_reference_cents;
  claimed_reference_kind = offer.claimed_reference_kind;
  on_clearance = offer.on_clearance;
  availability = offer.availability;
  stock_qty = offer.stock_qty;
  stock_qty_is_floor = offer.stock_qty_is_floor;
  restock_date = offer.restock_date;
  unit_count = offer.unit_count;
  variant_key_observed = some ctx.variant_key;
  adapter_version = ctx.adapter_version;
  currency = "USD";
}

-- What the recheck, the confirmation and the detection are told.
abbrev pub fetched_of : ListingContext → RecordedObservation → Fetched
fetched_of ctx r = record {
  retailer_id = ctx.retailer_id;
  category = ctx.category;
  listing_url = ctx.persisted_url;
  retailer_sku = ctx.retailer_sku;
  variant_key_observed = some ctx.variant_key;
  observed_id = r.observation_id;
  observed_at = ctx.fetched_at;
  page_type = ctx.page_type;
  quality = r.quality;
  reasons = r.reasons;
  category_floor_cents = ctx.floor_cents;
  skip_confirm_task_enqueue = ctx.skip_confirm_task_enqueue;
}

-- Where the detection is not run, there is no action to report.
abbrev pub actions_of : (is_detected : Bool) → DealAction → List DealAction
actions_of false DealAction.no_action = []
actions_of is_detected action_taken = action_taken ∷ []

abbrev pub add_outcome :
    IngestOutcome → (offer_id : ℕ) → RecordedObservation → List DealAction → IngestOutcome
add_outcome out offer_id r actions = record out {
  offer_ids = out.offer_ids ++ (offer_id ∷ []);
  observations = out.observations ++ (r ∷ []);
  deal_actions = out.deal_actions ++ actions;
}

module _ {F : Type 0} where
  -- `_last_ok_context`
  unfoldable pub last_ok_context : Db F → (offer_id : ℕ) → Option ℤ × Option ℤ
  last_ok_context db offer_id =
      price_and_count (head? (sort observed_later (keep (is_ok_of offer_id) db.price_observations)))

  -- The seller and the offer of a row of the page.
  unfoldable pub store_offer : ListingContext → (listing_id : ℕ) → ParsedOffer → Db F → ℕ × Db F
  store_offer ctx listing_id offer db =
      let seller =
        get_or_create_seller db ctx.retailer_id offer.seller_key offer.seller_type
          offer.seller_name in
      upsert_offer seller.1 listing_id seller.0 offer.offer_key offer.condition offer.condition_raw

  abbrev pub with_action :
      IngestOutcome
      → (offer_id : ℕ) → RecordedObservation
      → (is_detected : Bool) → Option (DealAction × Db F)
      → Option (IngestOutcome × Db F)
  with_action out offer_id r is_detected none = none
  with_action out offer_id r is_detected (some (taken, db)) =
      some (add_outcome out offer_id r (actions_of is_detected taken), db)

module _ {F : Type 0} ⦃fl : Floats F⦄ (settings : Settings F) (ctx : ListingContext) where
  unfoldable pub validated : Db F → (offer_id : ℕ) → ParsedOffer → ValidationResult
  validated db offer_id offer =
      validate_observation (observation_input ctx offer)
        (observation_context ctx (last_ok_context db offer_id)) settings.category_bands
        settings.guards

  -- A duplicate ends the turn.
  unfoldable pub after_record :
      IngestOutcome
      → (offer_id : ℕ) → ParsedOffer
      → RecordedObservation × Db F
      → Option (IngestOutcome × Db F)
  after_record out offer_id offer (r, db) =
      if r.was_duplicate
      then some (add_outcome out offer_id r [], db)
      else with_action out offer_id r (is_ok r.quality && is_some offer.price_cents) (
          act_on_observation settings.deal_rules settings.recheck_rules db offer_id offer
            (fetched_of ctx r))

  -- One turn of the loop over the offers. None is an exception.
  unfoldable pub ingest_offer :
      (listing_id crawl_task_id : ℕ)
      → IngestOutcome
      → Db F
      → ParsedOffer
      → Option (IngestOutcome × Db F)
  ingest_offer listing_id crawl_task_id out db offer =
      let stored = store_offer ctx listing_id offer db in
      after_record out stored.0 offer (
        record_observation settings.date_et stored.1
          (observed_values ctx offer stored.0 crawl_task_id) (validated stored.1 stored.0 offer)
          ctx.snapshot_ref)

  unfoldable pub ingest_offers :
      (listing_id crawl_task_id : ℕ)
      → IngestOutcome
      → Db F
      → List ParsedOffer
      → Option (IngestOutcome × Db F)
  ingest_offers listing_id crawl_task_id out db [] = some (out, db)
  ingest_offers listing_id crawl_task_id out db (offer ∷ offers) =
      elim (ingest_offer listing_id crawl_task_id out db offer) [
        | none ↦ none
        | some r ↦ ingest_offers listing_id crawl_task_id r.0 r.1 offers
      ]

  -- The caller's task, or that of this fetch.
  abbrev pub task_for : (retailer_slug : String) → Db F → Option ℕ → ℕ × Db F
  task_for retailer_slug db (some task_id) = (task_id, db)
  task_for retailer_slug db none =
      get_or_create_crawl_task db ctx.retailer_id ctx.kind ctx.page_type ctx.persisted_url
        (DedupeKey.fetch_of ctx.kind retailer_slug ctx.retailer_sku ctx.snapshot_ref)

  -- From the upsert of the listing to the end: the id of the listing, and the outcome.
  unfoldable pub ingest_listing :
      (retailer_slug : String)
      → Db F
      → ListingValues
      → (crawl_task_id : Option ℕ) → List ParsedOffer
      → Option (IngestOutcome × Db F)
  ingest_listing retailer_slug db values crawl_task_id offers =
      let listing = upsert_listing db values in
      let task = task_for retailer_slug listing.1 crawl_task_id in
      ingest_offers listing.0 task.0
        (record { listing_id = listing.0; offer_ids = []; observations = []; deal_actions = [] })
        task.1 offers

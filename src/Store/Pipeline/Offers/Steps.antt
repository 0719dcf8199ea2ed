-- ===== src/Store/Pipeline/Offers/Steps.antt =====
-- That what each step of an ingest of fpt/store/pipeline.py keeps, the whole ingest keeps.
use mathlib.Core.Path.{subst}
use fishing_deal_tracker.Prelude.{
  ℕ, ◌≡◌, refl, String, Bool, true, false, Option, none, some, List, [], ◌∷◌, Option-cases, inl,
  inr, if◌then◌else◌,
}
use fishing_deal_tracker.Floats.{Floats}
use fishing_deal_tracker.Domain.{Condition, ParsedOffer, SellerType}
use fishing_deal_tracker.Validation.{ValidationResult}
use fishing_deal_tracker.Store.Database.{Db}
use fishing_deal_tracker.Store.Listings.{
  ListingValues, get_or_create_seller, upsert_listing, upsert_offer,
}
use fishing_deal_tracker.Store.Observations.{
  ObservedValues, RecordedObservation, record_observation,
}
use fishing_deal_tracker.Store.Pipeline.{DealAction, Fetched}
use fishing_deal_tracker.Store.Pipeline.Ingest.{act_on_observation}
use fishing_deal_tracker.Store.Pipeline.Offers.{
  IngestOutcome, ListingContext, Settings, after_record, fetched_of, ingest_listing, ingest_offer,
  ingest_offers, store_offer, with_action,
}

module _ {F : Type 0} ⦃fl : Floats F⦄ (settings : Settings F) where
  -- A property of the tables that each step of an ingest keeps.
  pub record StepLaws (P : Db F → Type 0) : Type 0 where
    pub seller :
        (db : Db F) (retailer_id : ℕ) (key : String) (t : SellerType) (name : Option String)
        → P db
        → P (get_or_create_seller db retailer_id key t name).1
    pub listing : (db : Db F) (v : ListingValues) → P db → P (upsert_listing db v).1
    pub offer :
        (db : Db F) (listing_id seller_id : ℕ) (key : String) (c : Condition) (raw : Option String)
        → P db
        → P (upsert_offer db listing_id seller_id key c raw).1
    pub observation :
        (db : Db F) (v : ObservedValues) (x : ValidationResult) (ref : String)
        → P db
        → P (record_observation settings.date_et db v x ref).1
    pub acts :
        (db : Db F) (offer_id : ℕ) (o : ParsedOffer) (fetch : Fetched) (a : DealAction) (db' : Db F)
        → P db
        → act_on_observation settings.deal_rules settings.recheck_rules db offer_id o fetch
          ≡ some (a, db')
        → P db'

module _ {F : Type 0} ⦃fl : Floats F⦄ (settings : Settings F) (ctx : ListingContext)
    (P : Db F → Type 0) (laws : StepLaws settings P) where
  abbrev pub EndsIn : Option (IngestOutcome × Db F) → Type 0
  EndsIn none = Unit
  EndsIn (some r) = P r.1

  if-EndsIn :
      (b : Bool) (x y : Option (IngestOutcome × Db F))
      → EndsIn x
      → EndsIn y
      → EndsIn (if b then x else y)
  if-EndsIn true x y h k = h
  if-EndsIn false x y h k = k

  with_action-EndsIn :
      (out : IngestOutcome) (offer_id : ℕ) (r : RecordedObservation) (is_detected : Bool)
      → (a : Option (DealAction × Db F))
      → ((taken : DealAction) (db : Db F) → a ≡ some (taken, db) → P db)
      → EndsIn (with_action out offer_id r is_detected a)
  with_action-EndsIn out offer_id r is_detected none h = tt
  with_action-EndsIn out offer_id r is_detected (some (taken, db)) h = h taken db refl

  after_record-EndsIn :
      (out : IngestOutcome) (offer_id : ℕ) (o : ParsedOffer) (r : RecordedObservation × Db F)
      → P r.1
      → EndsIn (after_record settings ctx out offer_id o r)
  unfolding after_record
  after_record-EndsIn out offer_id o (r, db) h = if-EndsIn r.was_duplicate _ _ h (
      with_action-EndsIn out offer_id r _ _
        (λ taken db' q. laws.acts db offer_id o (fetched_of ctx r) taken db' h q))

  ingest_offer-EndsIn :
      (listing_id crawl_task_id : ℕ) (out : IngestOutcome) (db : Db F) (o : ParsedOffer)
      → P db
      → EndsIn (ingest_offer settings ctx listing_id crawl_task_id out db o)
  unfolding ingest_offer store_offer
  ingest_offer-EndsIn listing_id crawl_task_id out db o h = after_record-EndsIn out _ o _ (
      laws.observation _ _ _ ctx.snapshot_ref (
        laws.offer _ listing_id _ o.offer_key o.condition o.condition_raw
          (laws.seller db ctx.retailer_id o.seller_key o.seller_type o.seller_name h)))

  ingest_offers-EndsIn :
      (listing_id crawl_task_id : ℕ) (offers : List ParsedOffer) (out : IngestOutcome) (db : Db F)
      → P db
      → EndsIn (ingest_offers settings ctx listing_id crawl_task_id out db offers)
  unfolding ingest_offers
  ingest_offers-EndsIn listing_id crawl_task_id [] out db h = h
  ingest_offers-EndsIn listing_id crawl_task_id (o ∷ offers) out db h =
      elim (Option-cases (ingest_offer settings ctx listing_id crawl_task_id out db o)) [
        | inl e ↦ rw (e, ingest_offers, EndsIn) tt
        | inr (r, e) ↦
            rw (e, ingest_offers)
              (ingest_offers-EndsIn listing_id crawl_task_id offers r.0 r.1
                (subst EndsIn e (ingest_offer-EndsIn listing_id crawl_task_id out db o h)))
      ]

  -- What each step keeps, the ingest of a listing for a task of the queue keeps.
  pub ingest_listing-keeps :
      (slug : String) (db : Db F) (values : ListingValues) (task_id : ℕ)
      → (offers : List ParsedOffer) (out : IngestOutcome) (db' : Db F) → P db
      → ingest_listing settings ctx slug db values (some task_id) offers ≡ some (out, db')
      → P db'
  unfolding ingest_listing
  ingest_listing-keeps slug db values task_id offers out db' h e =
      subst EndsIn e (ingest_offers-EndsIn _ task_id offers _ _ (laws.listing db values h))

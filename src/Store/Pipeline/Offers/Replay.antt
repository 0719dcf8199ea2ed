-- ===== src/Store/Pipeline/Offers/Replay.antt =====
-- A fetch that fpt/store/pipeline.py is given once more.
use fishing_deal_tracker.Prelude.{ℕ, ◌≡◌, refl, true, some, []}
use fishing_deal_tracker.Floats.{Floats}
use fishing_deal_tracker.Domain.{ParsedOffer}
use fishing_deal_tracker.Store.Database.{Db}
use fishing_deal_tracker.Store.Listings.{get_or_create_seller, upsert_offer}
use fishing_deal_tracker.Store.Observations.{
  find_existing_observation_by_snapshot, record_observation, recorded,
}
use fishing_deal_tracker.Store.Pipeline.Offers.{
  IngestOutcome, ListingContext, Settings, add_outcome, after_record, ingest_offer, store_offer,
  validated,
}

module _ {F : Type 0} where
  -- Storing the offer of a page leaves the deals, the tasks and the observations.
  store_offer-leaves :
      (ctx : ListingContext) (listing_id : ℕ) (offer : ParsedOffer) (db : Db F)
      → ((store_offer ctx listing_id offer db).1.deals ≡ db.deals)
        × ((store_offer ctx listing_id offer db).1.crawl_tasks ≡ db.crawl_tasks)
        × ((store_offer ctx listing_id offer db).1.price_observations ≡ db.price_observations)
  unfolding store_offer get_or_create_seller upsert_offer
  store_offer-leaves ctx listing_id offer db = (refl, refl, refl)

module _ {F : Type 0} ⦃fl : Floats F⦄ (settings : Settings F) (ctx : ListingContext) where
  -- Where the snapshot of the fetch is recorded for the offer already, the turn of the offer ends
  -- after the record: it reports the observation that was there as a duplicate and no deal action,
  -- and neither the deals nor the tasks nor the observations change.
  pub ingest_offer-replayed :
      (listing_id crawl_task_id : ℕ) (out : IngestOutcome) (db : Db F) (offer : ParsedOffer)
      → (existing : ℕ)
      → find_existing_observation_by_snapshot
          (store_offer ctx listing_id offer db).1
          (store_offer ctx listing_id offer db).0
          ctx.snapshot_ref
        ≡ some existing
      → (db' : Db F) × (ingest_offer settings ctx listing_id crawl_task_id out db offer
          ≡ some (
            add_outcome out
                (store_offer ctx listing_id offer db).0
                (recorded existing
                  (validated settings ctx
                    (store_offer ctx listing_id offer db).1
                    (store_offer ctx listing_id offer db).0
                    offer)
                  true)
                [],
            db',
          ))
        × (db'.deals ≡ db.deals)
        × (db'.crawl_tasks ≡ db.crawl_tasks)
        × (db'.price_observations ≡ db.price_observations)
  unfolding ingest_offer record_observation after_record
  ingest_offer-replayed listing_id crawl_task_id out db offer existing e =
      let same = store_offer-leaves ctx listing_id offer db in
      ((store_offer ctx listing_id offer db).1, rw e refl, same.0, same.1, same.2)

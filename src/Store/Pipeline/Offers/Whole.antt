-- ===== src/Store/Pipeline/Offers/Whole.antt =====
-- That the ingest of a listing in fpt/store/pipeline.py keeps what the tables guarantee.
use fishing_deal_tracker.Prelude.{
  ℕ, ◌+◌, ◌≡◌, refl, String, Option, none, some, List, ◌∷◌, is_some, Bool-cases, inl, inr,
}
use fishing_deal_tracker.Prelude.Query.{find?}
use fishing_deal_tracker.Floats.{Floats}
use fishing_deal_tracker.Domain.{ParsedOffer}
use fishing_deal_tracker.Validation.{ValidationResult}
use fishing_deal_tracker.Store.Database.{CrawlTask, Db}
use fishing_deal_tracker.Store.Deals.Confirmation.{has_open_key, insert_task}
use fishing_deal_tracker.Store.Deals.Invariant.{IsValid}
use fishing_deal_tracker.Store.Listings.{
  ListingValues, get_or_create_seller, upsert_listing, upsert_offer,
}
use fishing_deal_tracker.Store.Listings.Keys.{
  HasKeys, get_or_create_seller-HasKeys, upsert_listing-HasKeys, upsert_offer-HasKeys,
}
use fishing_deal_tracker.Store.Observations.{
  ObservedValues, find_existing_observation_by_snapshot, record_observation, record_unless,
}
use fishing_deal_tracker.Store.Observations.Once.{
  OncePerSnapshot, record_observation-OncePerSnapshot,
}
use fishing_deal_tracker.Store.Pipeline.Keeps.{act_on_observation-IsValid, same-IsValid}
use fishing_deal_tracker.Store.Pipeline.Frame.{Frame, act_on_observation-Frame}
use fishing_deal_tracker.Store.Pipeline.Offers.Steps.{StepLaws, ingest_listing-keeps}
use fishing_deal_tracker.Store.Pipeline.Offers.{
  IngestOutcome, ListingContext, Settings, ingest_listing,
}

module _ {F : Type 0} where
  pub unless-same :
      (P : Db F → Type 0) (date_et : ℕ → ℕ) (db : Db F) (v : ObservedValues) (x : ValidationResult)
      → (ref : String) (existing : Option ℕ) → P db
      → P (record_unless date_et db v x ref none).1
      → P (record_unless date_et db v x ref existing).1
  unless-same P date_et db v x ref none h k = k
  unless-same P date_et db v x ref (some existing) h k = h

  pub insert_task-keeps :
      (P : Db F → Type 0) (db : Db F) (task : CrawlTask)
      → P (record db { next_task_id = db.next_task_id + 1 })
      → P (record db { next_task_id = db.next_task_id + 1; crawl_tasks = task ∷ db.crawl_tasks })
      → P (insert_task db task).1
  unfolding insert_task
  insert_task-keeps P db task h k =
      elim (Bool-cases (is_some (find? (has_open_key task.dedupe_key) db.crawl_tasks))) [
        | inl e ↦ rw e h
        | inr e ↦ rw e k
      ]

  same-HasKeys :
      (db db' : Db F)
      → db'.sellers ≡ db.sellers
      → db'.listings ≡ db.listings
      → db'.offers ≡ db.offers
      → HasKeys db
      → HasKeys db'
  same-HasKeys db db' s l o h = record {
    sellers = rw s h.sellers;
    listings = rw l h.listings;
    offers = rw o h.offers;
    grouped = rw o h.grouped;
  }

  HasKeys-Frame : Frame {F = F} HasKeys
  HasKeys-Frame = record {
    deals = λ db deals next h. same-HasKeys db _ refl refl refl h;
    tasks = λ db task q h.
        insert_task-keeps HasKeys db task (same-HasKeys db _ refl refl refl h)
          (same-HasKeys db _ refl refl refl h);
  }

  abbrev HasOnce : Db F → Type 0
  HasOnce db = OncePerSnapshot db.price_observations

  HasOnce-Frame : Frame {F = F} HasOnce
  HasOnce-Frame = record {
    deals = λ db deals next h. h;
    tasks = λ db task q h. insert_task-keeps HasOnce db task h h;
  }

  -- What the tables guarantee: the invariant of the deals, the unique keys of sellers, listings and
  -- offers with the offers' groups, and one observation for each snapshot of an offer.
  pub record IsWhole (db : Db F) : Type 0 where
    pub deals : IsValid db
    pub keys : HasKeys db
    pub once : OncePerSnapshot db.price_observations

module _ {F : Type 0} ⦃fl : Floats F⦄ (settings : Settings F) where
  pub IsValid-laws : StepLaws settings IsValid
  unfolding get_or_create_seller upsert_listing upsert_offer record_observation
  IsValid-laws = record {
    seller = λ db r k t n h. same-IsValid db _ refl refl h;
    listing = λ db v h. same-IsValid db _ refl refl h;
    offer = λ db l s k c r h. same-IsValid db _ refl refl h;
    observation = λ db v x ref h.
        unless-same IsValid settings.date_et db v x ref
          (find_existing_observation_by_snapshot db v.offer_id ref) h
          (same-IsValid db _ refl refl h);
    acts = λ db offer_id o fetch a db' h e.
        act_on_observation-IsValid settings.deal_rules settings.recheck_rules db offer_id o fetch a
          db' h e;
  }

  HasKeys-laws : StepLaws settings HasKeys
  unfolding record_observation
  HasKeys-laws = record {
    seller = λ db r k t n h. get_or_create_seller-HasKeys db r k t n h;
    listing = λ db v h. upsert_listing-HasKeys db v h;
    offer = λ db l s k c r h. upsert_offer-HasKeys db l s k c r h;
    observation = λ db v x ref h.
        unless-same HasKeys settings.date_et db v x ref
          (find_existing_observation_by_snapshot db v.offer_id ref) h
          (same-HasKeys db _ refl refl refl h);
    acts = λ db offer_id o fetch a db' h e.
        act_on_observation-Frame HasKeys HasKeys-Frame settings.deal_rules settings.recheck_rules db
          offer_id o fetch a db' h e;
  }

  HasOnce-laws : StepLaws settings HasOnce
  unfolding get_or_create_seller upsert_listing upsert_offer
  HasOnce-laws = record {
    seller = λ db r k t n h. h;
    listing = λ db v h. h;
    offer = λ db l s k c r h. h;
    observation = λ db v x ref h. record_observation-OncePerSnapshot settings.date_et db v x ref h;
    acts = λ db offer_id o fetch a db' h e.
        act_on_observation-Frame HasOnce HasOnce-Frame settings.deal_rules settings.recheck_rules db
          offer_id o fetch a db' h e;
  }

  -- The ingest of a listing for a task of the queue keeps all that the tables guarantee, whatever
  -- the page offers: one open deal for each offer and rule, unique ids and an observation behind
  -- every confirmed deal; one seller, listing and offer for each key, in the group of its condition;
  -- and one observation at most for each snapshot of an offer.
  pub ingest_listing-IsWhole :
      (ctx : ListingContext) (slug : String) (db : Db F) (values : ListingValues) (task_id : ℕ)
      → (offers : List ParsedOffer) (out : IngestOutcome) (db' : Db F) → IsWhole db
      → ingest_listing settings ctx slug db values (some task_id) offers ≡ some (out, db')
      → IsWhole db'
  ingest_listing-IsWhole ctx slug db values task_id offers out db' h e = record {
    deals =
        ingest_listing-keeps settings ctx IsValid IsValid-laws slug db values task_id offers out db'
          h.deals e;
    keys =
        ingest_listing-keeps settings ctx HasKeys HasKeys-laws slug db values task_id offers out db'
          h.keys e;
    once =
        ingest_listing-keeps settings ctx HasOnce HasOnce-laws slug db values task_id offers out db'
          h.once e;
  }

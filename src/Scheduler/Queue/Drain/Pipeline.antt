-- ===== src/Scheduler/Queue/Drain/Pipeline.antt =====
-- A drain of fpt/scheduler/queue.py whose listings go to the ingest of fpt/store/pipeline.py.
use mathlib.Core.Option.{some-injective}
use fishing_deal_tracker.Prelude.{ℕ, ◌≡◌, refl, ap, String, Option, none, some, List, [], ◌∷◌}
use fishing_deal_tracker.Floats.{Floats}
use fishing_deal_tracker.Domain.{ParsedOffer}
use fishing_deal_tracker.Store.Database.{CrawlTask, Db}
use fishing_deal_tracker.Store.Deals.Invariant.{IsValid}
use fishing_deal_tracker.Store.Listings.{
  ListingValues, get_or_create_seller, upsert_listing, upsert_offer,
}
use fishing_deal_tracker.Store.Observations.{
  find_existing_observation_by_snapshot, record_observation,
}
use fishing_deal_tracker.Store.Pipeline.Frame.{Frame, act_on_observation-Frame}
use fishing_deal_tracker.Store.Pipeline.Offers.{
  IngestOutcome, ListingContext, Settings, ingest_listing,
}
use fishing_deal_tracker.Store.Pipeline.Offers.Steps.{StepLaws, ingest_listing-keeps}
use fishing_deal_tracker.Store.Pipeline.Offers.Whole.{IsValid-laws, insert_task-keeps, unless-same}
use fishing_deal_tracker.Scheduler.Limiter.{RetailerPolicy, RetailerState}
use fishing_deal_tracker.Scheduler.Queue.Drain.{Drain, Site, drain_retailer_queue}
use fishing_deal_tracker.Scheduler.Queue.Drain.Deals.{drain_retailer_queue-IsValid}
use fishing_deal_tracker.Scheduler.Queue.Drain.Laws.{IngestLaws, OnlyQueues}
use fishing_deal_tracker.Scheduler.Queue.Drain.Tasks.{Idle, drain_retailer_queue-Idle}

-- A parsed listing, with what the ingest makes of it before the listing is stored.
pub record Prepared : Type 0 where
  pub ctx : ListingContext
  pub values : ListingValues
  pub offers : List ParsedOffer

module _ {F : Type 0} where
  abbrev pub tables_of : Option (IngestOutcome × Db F) → Option (Db F)
  tables_of none = none
  tables_of (some r) = some r.1

  tables_of-some :
      (o : Option (IngestOutcome × Db F)) (db : Db F)
      → tables_of o ≡ some db
      → (out : IngestOutcome) × (o ≡ some (out, db))
  tables_of-some none db e = absurd (cc)
  tables_of-some (some (out, db')) db e =
      let same : db' ≡ db = some-injective db' db e in (out, ap (λ d. some (out, d)) same)

  -- The tasks that were there, and fresh ones.
  abbrev Queues : List CrawlTask → Db F → Type 0
  Queues before db = OnlyQueues before db.crawl_tasks

  Queues-Frame : (before : List CrawlTask) → Frame {F = F} (Queues before)
  Queues-Frame before = record {
    deals = λ db deals next h. h;
    tasks = λ db task q h. insert_task-keeps (Queues before) db task h (record {
      added = task ∷ h.added;
      whole = ap (λ l. task ∷ l) h.whole;
      fresh = (q, h.fresh);
    });
  }

module _ {F : Type 0} ⦃fl : Floats F⦄ (settings : Settings F) where
  Queues-laws : (before : List CrawlTask) → StepLaws settings (Queues before)
  unfolding get_or_create_seller upsert_listing upsert_offer record_observation
  Queues-laws before = record {
    seller = λ db r k t n h. h;
    listing = λ db v h. h;
    offer = λ db l s k c r h. h;
    observation = λ db v x ref h.
        unless-same (Queues before) settings.date_et db v x ref
          (find_existing_observation_by_snapshot db v.offer_id ref) h h;
    acts = λ db offer_id o fetch a db' h e.
        act_on_observation-Frame (Queues before) (Queues-Frame before) settings.deal_rules
          settings.recheck_rules db offer_id o fetch a db' h e;
  }

  -- The collaborators of a drain, with the ingest of the pipeline for the task that is leased.
  unfoldable pub with_pipeline : (slug : String) → Site F Prepared → Site F Prepared
  with_pipeline slug site = record site {
    ingest = λ db t response p.
        tables_of (ingest_listing settings p.ctx slug db p.values (some t.id) p.offers);
  }

  -- The ingest of the pipeline is as a drain relies on.
  pub with_pipeline-IngestLaws :
      (slug : String) (site : Site F Prepared) → IngestLaws (with_pipeline slug site)
  unfolding with_pipeline
  with_pipeline-IngestLaws slug site = record {
    only_queues = λ db t response p db' e.
        let r =
          tables_of-some (ingest_listing settings p.ctx slug db p.values (some t.id) p.offers) db'
            e in
        ingest_listing-keeps settings p.ctx (Queues db.crawl_tasks) (Queues-laws db.crawl_tasks)
          slug db p.values t.id p.offers r.0 db' (record { added = []; whole = refl; fresh = tt })
          r.1;
    keeps_valid = λ db t response p db' e v.
        let r =
          tables_of-some (ingest_listing settings p.ctx slug db p.values (some t.id) p.offers) db'
            e in
        ingest_listing-keeps settings p.ctx IsValid (IsValid-laws settings) slug db p.values t.id
          p.offers r.0 db' v r.1;
  }

  -- The queue, the limiter and the pipeline together: a drain that hands its listings to the
  -- pipeline ends with the invariant of the deals kept and with no task leased, if it began so,
  -- whatever the web answers.
  pub drain_pipeline-IsSound :
      (slug : String) (site : Site F Prepared) (policy : RetailerPolicy F) (db : Db F)
      → (limiter : RetailerState) (retailer_id now max_tasks : ℕ) (d : Drain F) → IsValid db
      → Idle db.crawl_tasks
      → drain_retailer_queue (with_pipeline slug site) policy db limiter retailer_id now max_tasks
        ≡ some d
      → IsValid d.db × Idle d.db.crawl_tasks
  drain_pipeline-IsSound slug site policy db limiter retailer_id now max_tasks d v i e =
      let laws = with_pipeline-IngestLaws slug site in
      (
        drain_retailer_queue-IsValid (with_pipeline slug site) policy laws db limiter retailer_id
            now max_tasks d v e,
        (drain_retailer_queue-Idle (with_pipeline slug site) policy laws db limiter retailer_id now
            max_tasks d i e).0,
      )

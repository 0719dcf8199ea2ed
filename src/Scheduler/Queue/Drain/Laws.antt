-- ===== src/Scheduler/Queue/Drain/Laws.antt =====
-- What a drain of fpt/scheduler/queue.py relies on from the pipeline that it hands listings to.
use fishing_deal_tracker.Prelude.{◌≡◌, some, List, ◌++◌}
use fishing_deal_tracker.Prelude.Order.{All}
use fishing_deal_tracker.Domain.{FetchResponse}
use fishing_deal_tracker.Store.Database.{CrawlTask, Db}
use fishing_deal_tracker.Store.Deals.Invariant.{IsValid}
use fishing_deal_tracker.Store.Pipeline.Frame.{IsFresh}
use fishing_deal_tracker.Scheduler.Queue.Drain.{Site}

-- The tasks are those that were there, and perhaps new ones that are fresh.
pub record OnlyQueues (before after : List CrawlTask) : Type 0 where
  pub added : List CrawlTask
  pub whole : after ≡ added ++ before
  pub fresh : All IsFresh added

module _ {F Listing : Type 0} where
  pub record IngestLaws (site : Site F Listing) : Type 0 where
    pub only_queues :
        (db : Db F) (t : CrawlTask) (response : FetchResponse) (listing : Listing) (db' : Db F)
        → site.ingest db t response listing ≡ some db'
        → OnlyQueues db.crawl_tasks db'.crawl_tasks
    pub keeps_valid :
        (db : Db F) (t : CrawlTask) (response : FetchResponse) (listing : Listing) (db' : Db F)
        → site.ingest db t response listing ≡ some db'
        → IsValid db
        → IsValid db'

-- ===== src/Scheduler/Queue/Drain.antt =====
-- `drain_retailer_queue` of fpt/scheduler/queue.py, over the collaborators of a drain.
pub mod Laws
pub mod Rounds
pub mod Steps
pub mod Ends
pub mod Tasks
pub mod Budget
pub mod Deals
pub mod Pipeline
mod Tests
use fishing_deal_tracker.Prelude.{
  ℕ, zero, suc, ◌+◌, String, Bool, true, false, ◌&&◌, Option, none, some, List, [], ◌∷◌, ◌++◌,
  length, ltb, leb, if◌then◌else◌,
}
use fishing_deal_tracker.Prelude.Eq.{◌==◌, nat_eq}
use fishing_deal_tracker.Prelude.Order.{keep, sort}
use fishing_deal_tracker.Prelude.Query.{filter_map, head?}
use fishing_deal_tracker.Floats.{Floats}
use fishing_deal_tracker.Domain.{FetchRequest, FetchResponse, PageType, ResponseOutcome}
use fishing_deal_tracker.Deals.Confirm.{RejectReason}
use fishing_deal_tracker.Fetch.Blocks.{detect_block_or_empty}
use fishing_deal_tracker.Store.Database.{CrawlTask, Db, Deal, DealStatus, TaskKind, TaskStatus}
use fishing_deal_tracker.Store.Deals.Rows.{has_id, is_unconfirmed, update_where}
use fishing_deal_tracker.Scheduler.Limiter.{
  Denial, RetailerPolicy, RetailerState, can_admit, is_before, record_outcome, record_request,
}
use fishing_deal_tracker.Scheduler.Queue.{
  expire_overdue_confirm_tasks, has_task_id, select_task, update_tasks, write_task,
}

-- What `fetch_safely` returns or raises, and what `adapter.parse` does.
pub data FetchResult (Response : Type 0) : Type 0 where
  unsafe_url transport_error : FetchResult Response
  fetched : Response → FetchResult Response

pub data ParseAnswer (Listing : Type 0) : Type 0 where
  recursion_error parse_error : ParseAnswer Listing
  parsed : (listings : List Listing) → ParseAnswer Listing

-- The collaborators of a drain, each asked with the number of the round: the gate of robots.txt, the
-- fetcher, the adapter, the ingest, and the delay drawn, in microseconds. None is an exception that
-- nothing catches: of the gate, of the building of a request, of the sentinels and of the ingest.
pub record Site (F Listing : Type 0) : Type 0 where
  pub admits : (round : ℕ) (url : String) → Option Bool
  pub build_request : CrawlTask → Option FetchRequest
  pub fetch : (round : ℕ) → FetchRequest → FetchResult FetchResponse
  pub content_sentinels : PageType → Option (List (List ℕ))
  pub parse : FetchResponse → ParseAnswer Listing
  pub ingest : Db F → CrawlTask → FetchResponse → Listing → Option (Db F)
  pub next_delay : (round : ℕ) → ℕ

-- A row of `DrainResult.tasks`, less its texts. No status is given where the fetch had an outcome.
pub record TaskReport : Type 0 where
  pub task_id : ℕ
  pub kind : TaskKind
  pub url : String
  pub status : Option TaskStatus
  pub outcome : Option ResponseOutcome
  pub listing_count : Option ℕ

abbrev pub report : CrawlTask → Option TaskStatus → Option ResponseOutcome → Option ℕ → TaskReport
report t status outcome listing_count = record {
  task_id = t.id;
  kind = t.kind;
  url = t.url;
  status = status;
  outcome = outcome;
  listing_count = listing_count;
}

-- The local variables of the loop, with the tables.
pub record Drain (F : Type 0) : Type 0 where
  pub db : Db F
  pub limiter : RetailerState
  pub clock : ℕ
  pub tasks : List TaskReport

-- How a round ends: by `break`, by the next round, or by an exception that nothing catches.
pub data Turn (F : Type 0) : Type 0 where
  stopped : Drain F → Turn F
  continued : Drain F → Turn F
  raised : Turn F

abbrev pub skip_task : (status : TaskStatus) (clock : ℕ) → CrawlTask → CrawlTask
skip_task status clock t = record t { status = status; finished_at = some clock }

abbrev pub lease_task : CrawlTask → CrawlTask
lease_task t = record t { status = TaskStatus.leased }

-- `outcome` is written where the statement sets it.
abbrev pub finish_task :
    (status : TaskStatus) → Option ResponseOutcome → (clock : ℕ) → CrawlTask → CrawlTask
finish_task status none clock t = record t {
  status = status;
  finished_at = some clock;
  attempts = t.attempts + 1;
}
finish_task status (some outcome) clock t = record t {
  status = status;
  outcome = some outcome;
  finished_at = some clock;
  attempts = t.attempts + 1;
}

abbrev pub is_blocked : ResponseOutcome → Bool
is_blocked ResponseOutcome.blocked = true
is_blocked _ = false

abbrev pub is_ok_outcome : ResponseOutcome → Bool
is_ok_outcome ResponseOutcome.ok = true
is_ok_outcome _ = false

-- `reason in ("hourly_cap", "daily_cap")`
abbrev pub is_cap : Denial → Bool
is_cap Denial.hourly_cap = true
is_cap Denial.daily_cap = true
is_cap _ = false

module _ {F : Type 0} where
  -- A task leaves the queue unfetched.
  abbrev pub skipped : CrawlTask → TaskStatus → Drain F → Drain F
  skipped t status d = record d {
    db = write_task t.id (skip_task status d.clock) d.db;
    tasks = d.tasks ++ (report t (some status) none none ∷ []);
  }

  -- The end of a fetch: the row, the report and the delay.
  abbrev pub finished :
      CrawlTask → TaskStatus → Option ResponseOutcome → TaskReport → (delay : ℕ) → Drain F → Drain F
  finished t status outcome row delay d = record d {
    db = write_task t.id (finish_task status outcome d.clock) d.db;
    tasks = d.tasks ++ (row ∷ []);
    clock = d.clock + delay;
  }

  abbrev pub requested : Drain F → Drain F
  requested d = record d { limiter = record_request d.clock d.limiter }

module _ {F Listing : Type 0} (site : Site F Listing) where
  -- `for listing in parse_result.listings: ingest_parsed_listing(…)`
  unfoldable pub ingest_all : Db F → CrawlTask → FetchResponse → List Listing → Option (Db F)
  ingest_all db t response [] = some db
  ingest_all db t response (listing ∷ rest) = elim (site.ingest db t response listing) [
    | none ↦ none
    | some db' ↦ ingest_all db' t response rest
  ]

  abbrev pub ingested : CrawlTask → (listings delay : ℕ) → Drain F → Option (Db F) → Turn F
  ingested t listings delay d none = Turn.raised
  ingested t listings delay d (some db) = Turn.continued (
      finished t TaskStatus.done (some ResponseOutcome.ok)
        (report t none (some ResponseOutcome.ok) (some listings)) delay (record d { db = db }))

  -- From `adapter.parse` on, for a response that is OK.
  abbrev pub after_parse :
      CrawlTask → FetchResponse → (delay : ℕ) → Drain F → ParseAnswer Listing → Turn F
  after_parse t response delay d (ParseAnswer.parsed listings) =
      ingested t (length listings) delay d (ingest_all d.db t response listings)
  after_parse t response delay d ParseAnswer.recursion_error = Turn.continued (
      finished t TaskStatus.failed (some ResponseOutcome.structure_changed)
        (report t (some TaskStatus.failed) none none) delay d)
  after_parse t response delay d ParseAnswer.parse_error = Turn.continued (
      finished t TaskStatus.failed (some ResponseOutcome.structure_changed)
        (report t (some TaskStatus.failed) none none) delay d)

  abbrev pub after_check :
      CrawlTask → FetchResponse → (delay : ℕ) → Drain F → ResponseOutcome → Turn F
  after_check t response delay d outcome =
      if is_ok_outcome outcome
      then after_parse t response delay d (site.parse response)
      else Turn.continued
          (finished t TaskStatus.done (some outcome) (report t none (some outcome) none) delay d)

  module _ ⦃fl : Floats F⦄ (policy : RetailerPolicy F) where
    -- From the adapter's sentinels on.
    abbrev pub with_sentinels :
        CrawlTask → FetchResponse → (delay : ℕ) → Drain F → Option (List (List ℕ)) → Turn F
    with_sentinels t response delay d none = Turn.raised
    with_sentinels t response delay d (some sentinels) =
        let outcome =
          (detect_block_or_empty response.status response.body response.final_url
            response.request.url sentinels).outcome in
        after_check t response delay
          (record d { limiter = record_outcome policy (is_blocked outcome) d.clock d.limiter })
          outcome

    -- From the answer of the fetch on.
    unfoldable pub after_fetch :
        CrawlTask → (delay : ℕ) → Drain F → FetchResult FetchResponse → Turn F
    after_fetch t delay d FetchResult.unsafe_url =
        Turn.continued
          (finished t TaskStatus.failed none (report t (some TaskStatus.failed) none none) delay d)
    after_fetch t delay d FetchResult.transport_error = Turn.continued (
        finished t TaskStatus.failed none (report t (some TaskStatus.failed) none none) delay
          (requested d))
    after_fetch t delay d (FetchResult.fetched response) =
        with_sentinels t response delay (requested d) (site.content_sentinels t.page_type)

    -- From the adapter's request on.
    abbrev pub with_request : (round : ℕ) → CrawlTask → Drain F → Option FetchRequest → Turn F
    with_request round t d none = Turn.raised
    with_request round t d (some request) =
        after_fetch t (site.next_delay round) d (site.fetch round request)

    -- From the answer of robots.txt on.
    abbrev pub after_robots : (round : ℕ) → CrawlTask → Drain F → Option Bool → Turn F
    after_robots round t d none = Turn.raised
    after_robots round t d (some true) =
        with_request round t (record d { db = write_task t.id lease_task d.db })
          (site.build_request t)
    after_robots round t d (some false) = Turn.continued (skipped t TaskStatus.skipped_robots d)

    -- From the answer of the limiter on.
    unfoldable pub after_admission : (round : ℕ) → CrawlTask → Option Denial → Drain F → Turn F
    after_admission round t (some reason) d =
        if is_cap reason
        then Turn.continued (skipped t TaskStatus.skipped_budget d)
        else Turn.stopped d
    after_admission round t none d = after_robots round t d (site.admits round t.url)

    abbrev pub with_task : (round : ℕ) → Drain F → Option CrawlTask → Turn F
    with_task round d none = Turn.stopped d
    with_task round d (some t) =
        after_admission round t (can_admit policy d.limiter t.kind d.clock).0
          (record d { limiter = (can_admit policy d.limiter t.kind d.clock).1 })

    unfoldable pub drain_round : (retailer_id round : ℕ) → Drain F → Turn F
    drain_round retailer_id round d =
        with_task round d (select_task retailer_id d.clock d.db.crawl_tasks)

    -- `for _ in range(max_tasks)`, from the given round on. None is the exception.
    unfoldable pub drain_from : (retailer_id max_tasks round : ℕ) → Drain F → Option (Drain F)
    drain_from retailer_id zero round d = some d
    drain_from retailer_id (suc n) round d = elim (drain_round retailer_id round d) [
      | Turn.raised ↦ none
      | Turn.stopped d' ↦ some d'
      | Turn.continued d' ↦ drain_from retailer_id n (round + 1) d'
    ]

    unfoldable pub drain_retailer_queue :
        Db F → RetailerState → (retailer_id now max_tasks : ℕ) → Option (Drain F)
    drain_retailer_queue db limiter retailer_id now max_tasks =
        drain_from retailer_id max_tasks 0 (record {
          db = (expire_overdue_confirm_tasks db retailer_id now).1;
          limiter = limiter;
          clock = now;
          tasks = [];
        })

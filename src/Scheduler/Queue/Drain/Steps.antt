-- ===== src/Scheduler/Queue/Drain/Steps.antt =====
-- What a round of a drain of fpt/scheduler/queue.py adds to the reports, and why it may be the last.
use fishing_deal_tracker.Prelude.{
  Bool, true, String, ℕ, suc, ◌≡◌, ◌≢◌, ◌⊎◌, refl, false, Option, none, some, List, [], ◌∷◌, arith,
  length, length-append, Bool-cases, Option-cases, inl, inr,
}
use fishing_deal_tracker.Prelude.Order.{All}
use fishing_deal_tracker.Floats.{Floats}
use fishing_deal_tracker.Domain.{FetchRequest, FetchResponse, PageType, ResponseOutcome}
use fishing_deal_tracker.Store.Database.{CrawlTask, Db}
use fishing_deal_tracker.Scheduler.Limiter.{Denial, RetailerPolicy, can_admit, denial}
use fishing_deal_tracker.Scheduler.Queue.{select_task}
use fishing_deal_tracker.Scheduler.Queue.Selected.{
  IsDue, IsNext, select_task-IsNext, select_task-none,
}
use fishing_deal_tracker.Scheduler.Queue.Drain.{
  Drain, FetchResult, ParseAnswer, Site, Turn, after_admission, after_check, after_fetch,
  after_parse, after_robots, with_request, with_sentinels, ingest_all, ingested, is_cap,
  is_ok_outcome, with_task,
}

module _ {F Listing : Type 0} ⦃fl : Floats F⦄ (site : Site F Listing)
    (policy : RetailerPolicy F) where
  -- No exception leaves the calls that stand outside every `try`.
  pub record SiteReturns : Type 0 where
    pub robots : (round : ℕ) (url : String) → site.admits round url ≢ none
    pub requests : (t : CrawlTask) → site.build_request t ≢ none
    pub sentinels : (page_type : PageType) → site.content_sentinels page_type ≢ none
    pub ingests :
        (db : Db F) (t : CrawlTask) (response : FetchResponse) (listing : Listing)
        → site.ingest db t response listing ≢ none

  -- The limiter refuses the task that is next, and for no cap.
  pub record IsRefused (retailer_id : ℕ) (d : Drain F) : Type 0 where
    pub next : CrawlTask
    pub reason : Denial
    pub is_next : IsNext retailer_id d.clock d.db.crawl_tasks next
    pub refused : denial policy d.limiter next.kind d.clock ≡ some reason
    pub not_cap : is_cap reason ≡ false

  abbrev pub NothingDue : (retailer_id : ℕ) → Drain F → Type 0
  NothingDue retailer_id d = All (λ t. IsDue retailer_id d.clock t → ⊥) d.db.crawl_tasks

  -- A round that goes on has reported one task more.
  abbrev pub Steps : (retailer_id reports : ℕ) → Turn F → Type 0
  Steps retailer_id reports Turn.raised = ⊥
  Steps retailer_id reports (Turn.stopped d) =
      (length d.tasks ≡ reports) × (NothingDue retailer_id d ⊎ IsRefused retailer_id d)
  Steps retailer_id reports (Turn.continued d) = length d.tasks ≡ suc reports

  module _ (returns : SiteReturns) (retailer_id : ℕ) where
    ingest_all-returns :
        (db : Db F) (t : CrawlTask) (response : FetchResponse) (ls : List Listing)
        → ingest_all site db t response ls ≢ none
    unfolding ingest_all
    ingest_all-returns db t response [] = λ e. absurd (cc)
    ingest_all-returns db t response (l ∷ ls) = elim (Option-cases (site.ingest db t response l)) [
      | inl e ↦ absurd (returns.ingests db t response l e)
      | inr (db', e) ↦ rw (e, ingest_all) (ingest_all-returns db' t response ls)
    ]

    ingested-Steps :
        (t : CrawlTask) (listings delay : ℕ) (d : Drain F) (db : Option (Db F))
        → db ≢ none
        → Steps retailer_id (length d.tasks) (ingested site t listings delay d db)
    ingested-Steps t listings delay d none h = h refl
    ingested-Steps t listings delay d (some db) h = omega (arith, length-append d.tasks)

    after_parse-Steps :
        (t : CrawlTask) (response : FetchResponse) (delay : ℕ) (d : Drain F)
        → (p : ParseAnswer Listing)
        → Steps retailer_id (length d.tasks) (after_parse site t response delay d p)
    after_parse-Steps t response delay d (ParseAnswer.parsed ls) =
        ingested-Steps t _ delay d _ (ingest_all-returns d.db t response ls)
    after_parse-Steps t response delay d ParseAnswer.recursion_error =
        omega (arith, length-append d.tasks)
    after_parse-Steps t response delay d ParseAnswer.parse_error =
        omega (arith, length-append d.tasks)

    after_check-Steps :
        (t : CrawlTask) (response : FetchResponse) (delay : ℕ) (d : Drain F) (o : ResponseOutcome)
        → Steps retailer_id (length d.tasks) (after_check site t response delay d o)
    after_check-Steps t response delay d o = elim (Bool-cases (is_ok_outcome o)) [
      | inl e ↦ rw e (after_parse-Steps t response delay d (site.parse response))
      | inr e ↦ rw e (omega (arith, length-append d.tasks))
    ]

    with_sentinels-Steps :
        (t : CrawlTask) (response : FetchResponse) (delay : ℕ) (d : Drain F)
        → (o : Option (List (List ℕ))) → o ≢ none
        → Steps retailer_id (length d.tasks) (with_sentinels site policy t response delay d o)
    with_sentinels-Steps t response delay d none h = h refl
    with_sentinels-Steps t response delay d (some sentinels) h =
        after_check-Steps t response delay _ _

    after_fetch-Steps :
        (t : CrawlTask) (delay : ℕ) (d : Drain F) (a : FetchResult FetchResponse)
        → Steps retailer_id (length d.tasks) (after_fetch site policy t delay d a)
    unfolding after_fetch
    after_fetch-Steps t delay d FetchResult.unsafe_url = omega (arith, length-append d.tasks)
    after_fetch-Steps t delay d FetchResult.transport_error = omega (arith, length-append d.tasks)
    after_fetch-Steps t delay d (FetchResult.fetched response) =
        with_sentinels-Steps t response delay _ (site.content_sentinels t.page_type)
          (returns.sentinels t.page_type)

    with_request-Steps :
        (round : ℕ) (t : CrawlTask) (d : Drain F) (o : Option FetchRequest)
        → o ≢ none
        → Steps retailer_id (length d.tasks) (with_request site policy round t d o)
    with_request-Steps round t d none h = h refl
    with_request-Steps round t d (some request) h =
        after_fetch-Steps t (site.next_delay round) d (site.fetch round request)

    after_robots-Steps :
        (round : ℕ) (t : CrawlTask) (d : Drain F) (o : Option Bool)
        → o ≢ none
        → Steps retailer_id (length d.tasks) (after_robots site policy round t d o)
    after_robots-Steps round t d none h = h refl
    after_robots-Steps round t d (some true) h =
        with_request-Steps round t _ (site.build_request t) (returns.requests t)
    after_robots-Steps round t d (some false) h = omega (arith, length-append d.tasks)

    after_admission-Steps :
        (round : ℕ) (t : CrawlTask) (answer : Option Denial) (d : Drain F)
        → IsNext retailer_id d.clock d.db.crawl_tasks t
        → denial policy d.limiter t.kind d.clock ≡ answer
        → Steps retailer_id (length d.tasks) (after_admission site policy round t answer d)
    unfolding after_admission
    after_admission-Steps round t (some why) d n q = elim (Bool-cases (is_cap why)) [
      | inl e ↦ rw e (omega (arith, length-append d.tasks))
      | inr e ↦
          rw e
            (refl, inr (record { next = t; reason = why; is_next = n; refused = q; not_cap = e }))
    ]
    after_admission-Steps round t none d n q =
        after_robots-Steps round t d (site.admits round t.url) (returns.robots round t.url)

    pub with_task-Steps :
        (round : ℕ) (d : Drain F) (o : Option CrawlTask)
        → select_task retailer_id d.clock d.db.crawl_tasks ≡ o
        → Steps retailer_id (length d.tasks) (with_task site policy round d o)
    unfolding can_admit
    with_task-Steps round d none e =
        (refl, inl (select_task-none retailer_id d.clock d.db.crawl_tasks e))
    with_task-Steps round d (some t) e =
        after_admission-Steps round t _ _
          (select_task-IsNext retailer_id d.clock d.db.crawl_tasks t e) refl

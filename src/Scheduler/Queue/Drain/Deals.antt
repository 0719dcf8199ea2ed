-- ===== src/Scheduler/Queue/Drain/Deals.antt =====
-- That a drain of fpt/scheduler/queue.py keeps the invariant of the `deals` table.
use mathlib.Core.Path.{subst}
use fishing_deal_tracker.Prelude.{
  Bool, true, false, ℕ, ◌≡◌, refl, Option, none, some, List, [], ◌∷◌, Bool-cases, Option-cases, inl,
  inr,
}
use fishing_deal_tracker.Floats.{Floats}
use fishing_deal_tracker.Domain.{FetchRequest, FetchResponse, ResponseOutcome}
use fishing_deal_tracker.Store.Database.{CrawlTask, Db}
use fishing_deal_tracker.Store.Deals.Invariant.{IsValid}
use fishing_deal_tracker.Store.Pipeline.Keeps.{same-IsValid}
use fishing_deal_tracker.Scheduler.Limiter.{Denial, RetailerPolicy, RetailerState, can_admit}
use fishing_deal_tracker.Scheduler.Queue.{write_task}
use fishing_deal_tracker.Scheduler.Queue.Overdue.{expire_overdue_confirm_tasks-IsValid}
use fishing_deal_tracker.Scheduler.Queue.Drain.{
  Drain, FetchResult, ParseAnswer, Site, after_admission, after_check, after_fetch, after_parse,
  after_robots, with_request, with_sentinels, drain_retailer_queue, drain_round, ingest_all,
  ingested, is_cap, is_ok_outcome, with_task,
}
use fishing_deal_tracker.Scheduler.Queue.Drain.Laws.{IngestLaws}
use fishing_deal_tracker.Scheduler.Queue.Drain.Rounds.{EndHolds, TurnHolds, drain_from-holds}

module _ {F : Type 0} where
  -- A write to the tasks alone.
  write_task-IsValid :
      (task_id : ℕ) (f : CrawlTask → CrawlTask) (db : Db F)
      → IsValid db
      → IsValid (write_task task_id f db)
  write_task-IsValid task_id f db v = same-IsValid db (write_task task_id f db) refl refl v

  abbrev HasValid : Drain F → Type 0
  HasValid d = IsValid d.db

  abbrev AllValid : Option (Db F) → Type 0
  AllValid none = Unit
  AllValid (some db) = IsValid db

module _ {F Listing : Type 0} ⦃fl : Floats F⦄ (site : Site F Listing) (policy : RetailerPolicy F)
    (laws : IngestLaws site) where
  ingest_all-AllValid :
      (db : Db F) (t : CrawlTask) (response : FetchResponse) (ls : List Listing)
      → IsValid db
      → AllValid (ingest_all site db t response ls)
  unfolding ingest_all
  ingest_all-AllValid db t response [] v = v
  ingest_all-AllValid db t response (l ∷ ls) v = elim (Option-cases (site.ingest db t response l)) [
    | inl e ↦ rw (e, ingest_all, AllValid) tt
    | inr (db', e) ↦
        rw (e, ingest_all)
          (ingest_all-AllValid db' t response ls (laws.keeps_valid db t response l db' e v))
  ]

  ingested-HasValid :
      (t : CrawlTask) (listings delay : ℕ) (d : Drain F) (db : Option (Db F))
      → AllValid db
      → TurnHolds HasValid (ingested site t listings delay d db)
  ingested-HasValid t listings delay d none v = tt
  ingested-HasValid t listings delay d (some db) v = write_task-IsValid t.id _ db v

  after_parse-HasValid :
      (t : CrawlTask) (response : FetchResponse) (delay : ℕ) (d : Drain F) (p : ParseAnswer Listing)
      → HasValid d
      → TurnHolds HasValid (after_parse site t response delay d p)
  after_parse-HasValid t response delay d (ParseAnswer.parsed ls) v =
      ingested-HasValid t _ delay d _ (ingest_all-AllValid d.db t response ls v)
  after_parse-HasValid t response delay d ParseAnswer.recursion_error v =
      write_task-IsValid t.id _ d.db v
  after_parse-HasValid t response delay d ParseAnswer.parse_error v =
      write_task-IsValid t.id _ d.db v

  after_check-HasValid :
      (t : CrawlTask) (response : FetchResponse) (delay : ℕ) (d : Drain F) (o : ResponseOutcome)
      → HasValid d
      → TurnHolds HasValid (after_check site t response delay d o)
  after_check-HasValid t response delay d o v = elim (Bool-cases (is_ok_outcome o)) [
    | inl e ↦ rw e (after_parse-HasValid t response delay d (site.parse response) v)
    | inr e ↦ rw e (write_task-IsValid t.id _ d.db v)
  ]

  with_sentinels-HasValid :
      (t : CrawlTask) (response : FetchResponse) (delay : ℕ) (d : Drain F)
      → (o : Option (List (List ℕ))) → HasValid d
      → TurnHolds HasValid (with_sentinels site policy t response delay d o)
  with_sentinels-HasValid t response delay d none v = tt
  with_sentinels-HasValid t response delay d (some sentinels) v =
      after_check-HasValid t response delay _ _ v

  after_fetch-HasValid :
      (t : CrawlTask) (delay : ℕ) (d : Drain F) (a : FetchResult FetchResponse)
      → HasValid d
      → TurnHolds HasValid (after_fetch site policy t delay d a)
  unfolding after_fetch
  after_fetch-HasValid t delay d FetchResult.unsafe_url v = write_task-IsValid t.id _ d.db v
  after_fetch-HasValid t delay d FetchResult.transport_error v = write_task-IsValid t.id _ d.db v
  after_fetch-HasValid t delay d (FetchResult.fetched response) v =
      with_sentinels-HasValid t response delay _ (site.content_sentinels t.page_type) v

  with_request-HasValid :
      (round : ℕ) (t : CrawlTask) (d : Drain F) (o : Option FetchRequest)
      → HasValid d
      → TurnHolds HasValid (with_request site policy round t d o)
  with_request-HasValid round t d none v = tt
  with_request-HasValid round t d (some request) v =
      after_fetch-HasValid t (site.next_delay round) d (site.fetch round request) v

  after_robots-HasValid :
      (round : ℕ) (t : CrawlTask) (d : Drain F) (o : Option Bool)
      → HasValid d
      → TurnHolds HasValid (after_robots site policy round t d o)
  after_robots-HasValid round t d none v = tt
  after_robots-HasValid round t d (some true) v =
      with_request-HasValid round t _ (site.build_request t) (write_task-IsValid t.id _ d.db v)
  after_robots-HasValid round t d (some false) v = write_task-IsValid t.id _ d.db v

  after_admission-HasValid :
      (round : ℕ) (t : CrawlTask) (answer : Option Denial) (d : Drain F)
      → HasValid d
      → TurnHolds HasValid (after_admission site policy round t answer d)
  unfolding after_admission
  after_admission-HasValid round t (some reason) d v = elim (Bool-cases (is_cap reason)) [
    | inl e ↦ rw e (write_task-IsValid t.id _ d.db v)
    | inr e ↦ rw e v
  ]
  after_admission-HasValid round t none d v =
      after_robots-HasValid round t d (site.admits round t.url) v

  with_task-HasValid :
      (round : ℕ) (d : Drain F) (o : Option CrawlTask)
      → HasValid d
      → TurnHolds HasValid (with_task site policy round d o)
  with_task-HasValid round d none v = v
  with_task-HasValid round d (some t) v =
      after_admission-HasValid round t (can_admit policy d.limiter t.kind d.clock).0 _ v

  -- A drain keeps one open deal for each offer and rule, one row for each id, and an observation
  -- behind every confirmed deal, given that the ingest of a listing does: the expiry before the
  -- rounds and the writes to the tasks between the ingests break none of these.
  pub drain_retailer_queue-IsValid :
      (db : Db F) (limiter : RetailerState) (retailer_id now max_tasks : ℕ) (d : Drain F)
      → IsValid db
      → drain_retailer_queue site policy db limiter retailer_id now max_tasks ≡ some d
      → IsValid d.db
  unfolding drain_retailer_queue drain_round
  drain_retailer_queue-IsValid db limiter retailer_id now max_tasks d v e =
      subst (EndHolds HasValid) e (
        drain_from-holds site policy HasValid retailer_id
          (λ round s h. with_task-HasValid round s _ h) max_tasks 0 _
          (expire_overdue_confirm_tasks-IsValid db retailer_id now v))

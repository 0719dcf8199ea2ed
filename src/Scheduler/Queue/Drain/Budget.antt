-- ===== src/Scheduler/Queue/Drain/Budget.antt =====
-- That a drain of fpt/scheduler/queue.py uses the limiter as a worker is to: it asks before each
-- fetch, and fetches only what is admitted.
use mathlib.Core.Path.{subst}
use fishing_deal_tracker.Prelude.{
  Bool, true, false, ℕ, ◌≡◌, refl, Option, none, some, List, Bool-cases, inl, inr,
}
use fishing_deal_tracker.Floats.{Floats}
use fishing_deal_tracker.Domain.{FetchRequest, FetchResponse, ResponseOutcome}
use fishing_deal_tracker.Store.Database.{CrawlTask, Db}
use fishing_deal_tracker.Scheduler.Limiter.{
  Denial, RetailerPolicy, RetailerState, can_admit, record_request,
}
use fishing_deal_tracker.Scheduler.Limiter.Budget.{InBudget, Run, Step, run-InBudget}
use fishing_deal_tracker.Scheduler.Queue.Drain.{
  Drain, FetchResult, ParseAnswer, Site, after_admission, after_check, after_fetch, after_parse,
  after_robots, with_request, with_sentinels, drain_retailer_queue, drain_round, ingested, is_cap,
  is_ok_outcome, with_task,
}
use fishing_deal_tracker.Scheduler.Queue.Drain.Rounds.{EndHolds, TurnHolds, drain_from-holds}

module _ {F Listing : Type 0} ⦃fl : Floats F⦄ (site : Site F Listing)
    (policy : RetailerPolicy F) where
  abbrev IsRun : Drain F → Type 0
  IsRun d = Run policy d.limiter

  ingested-IsRun :
      (t : CrawlTask) (listings delay : ℕ) (d : Drain F) (db : Option (Db F))
      → IsRun d
      → TurnHolds IsRun (ingested site t listings delay d db)
  ingested-IsRun t listings delay d none r = tt
  ingested-IsRun t listings delay d (some db) r = r

  after_parse-IsRun :
      (t : CrawlTask) (response : FetchResponse) (delay : ℕ) (d : Drain F) (p : ParseAnswer Listing)
      → IsRun d
      → TurnHolds IsRun (after_parse site t response delay d p)
  after_parse-IsRun t response delay d (ParseAnswer.parsed ls) r = ingested-IsRun t _ delay d _ r
  after_parse-IsRun t response delay d ParseAnswer.recursion_error r = r
  after_parse-IsRun t response delay d ParseAnswer.parse_error r = r

  after_check-IsRun :
      (t : CrawlTask) (response : FetchResponse) (delay : ℕ) (d : Drain F) (o : ResponseOutcome)
      → IsRun d
      → TurnHolds IsRun (after_check site t response delay d o)
  after_check-IsRun t response delay d o r = elim (Bool-cases (is_ok_outcome o)) [
    | inl e ↦ rw e (after_parse-IsRun t response delay d (site.parse response) r)
    | inr e ↦ rw e r
  ]

  with_sentinels-IsRun :
      (t : CrawlTask) (response : FetchResponse) (delay : ℕ) (d : Drain F)
      → (o : Option (List (List ℕ))) → IsRun d
      → TurnHolds IsRun (with_sentinels site policy t response delay d o)
  with_sentinels-IsRun t response delay d none r = tt
  with_sentinels-IsRun t response delay d (some sentinels) r =
      after_check-IsRun t response delay _ _ (Run.next r (Step.reported d.limiter _ d.clock))

  -- A fetch that may have been made was admitted, so its request may be counted.
  after_fetch-IsRun :
      (t : CrawlTask) (delay : ℕ) (d : Drain F) (a : FetchResult FetchResponse)
      → IsRun d
      → Run policy (record_request d.clock d.limiter)
      → TurnHolds IsRun (after_fetch site policy t delay d a)
  unfolding after_fetch
  after_fetch-IsRun t delay d FetchResult.unsafe_url r q = r
  after_fetch-IsRun t delay d FetchResult.transport_error r q = q
  after_fetch-IsRun t delay d (FetchResult.fetched response) r q =
      with_sentinels-IsRun t response delay _ (site.content_sentinels t.page_type) q

  with_request-IsRun :
      (round : ℕ) (t : CrawlTask) (d : Drain F) (o : Option FetchRequest)
      → IsRun d
      → Run policy (record_request d.clock d.limiter)
      → TurnHolds IsRun (with_request site policy round t d o)
  with_request-IsRun round t d none r q = tt
  with_request-IsRun round t d (some request) r q =
      after_fetch-IsRun t (site.next_delay round) d (site.fetch round request) r q

  after_robots-IsRun :
      (round : ℕ) (t : CrawlTask) (d : Drain F) (o : Option Bool)
      → IsRun d
      → Run policy (record_request d.clock d.limiter)
      → TurnHolds IsRun (after_robots site policy round t d o)
  after_robots-IsRun round t d none r q = tt
  after_robots-IsRun round t d (some true) r q =
      with_request-IsRun round t _ (site.build_request t) r q
  after_robots-IsRun round t d (some false) r q = r

  after_admission-IsRun :
      (round : ℕ) (t : CrawlTask) (answer : Option Denial) (d : Drain F)
      → IsRun d
      → (answer ≡ none → Run policy (record_request d.clock d.limiter))
      → TurnHolds IsRun (after_admission site policy round t answer d)
  unfolding after_admission
  after_admission-IsRun round t (some reason) d r q = elim (Bool-cases (is_cap reason)) [
    | inl e ↦ rw e r
    | inr e ↦ rw e r
  ]
  after_admission-IsRun round t none d r q =
      after_robots-IsRun round t d (site.admits round t.url) r (q refl)

  with_task-IsRun :
      (round : ℕ) (d : Drain F) (o : Option CrawlTask)
      → IsRun d
      → TurnHolds IsRun (with_task site policy round d o)
  with_task-IsRun round d none r = r
  with_task-IsRun round d (some t) r =
      after_admission-IsRun round t (can_admit policy d.limiter t.kind d.clock).0 _
        (Run.next r (Step.asked d.limiter t.kind d.clock))
        (λ e. Run.next r (Step.fetched d.limiter t.kind d.clock e))

  -- Whatever the fetcher, the adapter and the pipeline answer, a drain leaves the limiter in a state
  -- that a worker reaches which asks before each fetch, fetches what was admitted and reports the
  -- outcome: the rules of the limiter are those the drain follows.
  pub drain_retailer_queue-Run :
      (db : Db F) (limiter : RetailerState) (retailer_id now max_tasks : ℕ) (d : Drain F)
      → Run policy limiter
      → drain_retailer_queue site policy db limiter retailer_id now max_tasks ≡ some d
      → Run policy d.limiter
  unfolding drain_retailer_queue drain_round
  drain_retailer_queue-Run db limiter retailer_id now max_tasks d r e = subst (EndHolds IsRun) e (
      drain_from-holds site policy IsRun retailer_id (λ round s h. with_task-IsRun round s _ h)
        max_tasks 0 _ r)

  -- However many tasks are queued and whatever the fetches bring, a drain that returns, and that has
  -- started with a limiter in a state that is reached from the initial one by asking before each
  -- fetch, counting what was admitted and reporting outcomes, ends with no more requests counted for
  -- the hour and the day than the policy allows.
  pub drain_retailer_queue-InBudget :
      (db : Db F) (limiter : RetailerState) (retailer_id now max_tasks : ℕ) (d : Drain F)
      → Run policy limiter
      → drain_retailer_queue site policy db limiter retailer_id now max_tasks ≡ some d
      → InBudget policy d.limiter
  drain_retailer_queue-InBudget db limiter retailer_id now max_tasks d r e =
      run-InBudget policy d.limiter
        (drain_retailer_queue-Run db limiter retailer_id now max_tasks d r e)

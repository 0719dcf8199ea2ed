-- ===== src/Scheduler/Queue/Drain/Ends.antt =====
-- When a drain of fpt/scheduler/queue.py ends, and why.
use mathlib.Core.Path.{subst}
use fishing_deal_tracker.Prelude.{
  ℕ, zero, suc, ◌+◌, ◌≤◌, ◌≡◌, ◌⊎◌, refl, Option, none, some, [], arith, length, inl, inr,
}
use fishing_deal_tracker.Floats.{Floats}
use fishing_deal_tracker.Store.Database.{Db}
use fishing_deal_tracker.Scheduler.Limiter.{RetailerPolicy, RetailerState}
use fishing_deal_tracker.Scheduler.Queue.{expire_overdue_confirm_tasks}
use fishing_deal_tracker.Scheduler.Queue.Drain.{
  Drain, Site, Turn, drain_from, drain_retailer_queue, drain_round,
}
use fishing_deal_tracker.Scheduler.Queue.Drain.Steps.{
  SiteReturns, IsRefused, NothingDue, Steps, with_task-Steps,
}

module _ {F Listing : Type 0} ⦃fl : Floats F⦄ (site : Site F Listing)
    (policy : RetailerPolicy F) where
  -- How a drain that may make so many reports has ended.
  pub record HasEnded (retailer_id most : ℕ) (answer : Option (Drain F)) : Type 0 where
    pub end : Drain F
    pub returned : answer ≡ some end
    pub at_most : length end.tasks ≤ most
    pub why :
        (length end.tasks ≡ most)
        ⊎ (NothingDue site policy retailer_id end ⊎ IsRefused site policy retailer_id end)

  drain_round-Steps :
      (returns : SiteReturns site policy) (retailer_id round : ℕ) (d : Drain F)
      → Steps site policy retailer_id (length d.tasks) (drain_round site policy retailer_id round d)
  unfolding drain_round
  drain_round-Steps returns retailer_id round d =
      with_task-Steps site policy returns retailer_id round d _ refl

  drain_from-HasEnded :
      (returns : SiteReturns site policy) (retailer_id max_tasks round : ℕ) (d : Drain F)
      → HasEnded retailer_id
          (max_tasks + length d.tasks)
          (drain_from site policy retailer_id max_tasks round d)
  unfolding drain_from
  drain_from-HasEnded returns retailer_id zero round d = record {
    end = d;
    returned = refl;
    at_most = omega arith;
    why = inl (omega arith);
  }
  drain_from-HasEnded returns retailer_id (suc n) round d =
      after (drain_round site policy retailer_id round d)
        (drain_round-Steps returns retailer_id round d)
        (λ e. drain_from-HasEnded returns retailer_id n (round + 1) e)
    where
      after :
          (turn : Turn F)
          → Steps site policy retailer_id (length d.tasks) turn
          → ((e : Drain F)
              → HasEnded retailer_id
                  (n + length e.tasks)
                  (drain_from site policy retailer_id n (round + 1) e))
          → HasEnded retailer_id (suc n + length d.tasks) (elim turn [
            | Turn.raised ↦ none
            | Turn.stopped d' ↦ some d'
            | Turn.continued d' ↦ drain_from site policy retailer_id n (round + 1) d'
          ])
      after Turn.raised k rest = absurd k
      after (Turn.stopped e) k rest = record {
        end = e;
        returned = refl;
        at_most = omega (arith, k.0);
        why = inr k.1;
      }
      after (Turn.continued e) k rest =
          let h = rest e in
          let same : n + length e.tasks ≡ suc n + length d.tasks = omega (arith, k) in
          subst (λ m. HasEnded retailer_id m (drain_from site policy retailer_id n (round + 1) e))
            same h

  -- A drain returns, whatever the fetch and the parse raise, if no exception leaves the gate of
  -- robots.txt, the building of a request, the adapter's sentinels and the ingest; at most
  -- `max_tasks` tasks are reported; and where it reports fewer, either no task is due at its clock,
  -- or the limiter refuses the task that is next for a reason that is no cap.
  pub drain_retailer_queue-HasEnded :
      (db : Db F) (limiter : RetailerState) (retailer_id now max_tasks : ℕ)
      → SiteReturns site policy
      → HasEnded retailer_id max_tasks
          (drain_retailer_queue site policy db limiter retailer_id now max_tasks)
  unfolding drain_retailer_queue
  drain_retailer_queue-HasEnded db limiter retailer_id now max_tasks returns =
      let h = drain_from-HasEnded returns retailer_id max_tasks 0 (record {
        db = (expire_overdue_confirm_tasks db retailer_id now).1;
        limiter = limiter;
        clock = now;
        tasks = [];
      }) in
      let same : max_tasks + 0 ≡ max_tasks = omega arith in
      subst
        (λ m.
          HasEnded retailer_id m
            (drain_retailer_queue site policy db limiter retailer_id now max_tasks))
        same h

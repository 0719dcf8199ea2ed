-- ===== src/Scheduler/Queue/Selected.antt =====
-- Which task `drain_retailer_queue` of fpt/scheduler/queue.py takes.
use mathlib.Core.Path.{subst}
use fishing_deal_tracker.Prelude.{
  ℕ, ◌≤◌, ◌<◌, ◌≡◌, ◌≢◌, ◌↔◌, ◌⊎◌, true, false, none, some, List, [], ◌∷◌, arith,
}
use fishing_deal_tracker.Prelude.Order.{
  All, All-implies, All-keep, All-kept, All-of_keep, All-pair, All-self, All-sort, In, keep, sort,
}
use fishing_deal_tracker.Prelude.Sorted.{All-of_sort, IsHeaded, sort-IsHeaded}
use fishing_deal_tracker.Prelude.Query.{head?}
use fishing_deal_tracker.Store.Database.{CrawlTask, TaskKind, TaskStatus}
use fishing_deal_tracker.Scheduler.Queue.{is_drainable, is_due, is_queued, is_sooner, select_task}

is_sooner_total : (a b : CrawlTask) → is_sooner a b ≡ false → is_sooner b a ≡ true
is_sooner_total a b e = ground arith

is_sooner_trans :
    (a b c : CrawlTask) → is_sooner a b ≡ true → is_sooner b c ≡ true → is_sooner a c ≡ true
is_sooner_trans a b c h k = ground arith

-- A task that a drain may take: it is queued, of the retailer, of a kind that is drained, and not
-- before its time.
pub record IsDue (retailer_id clock : ℕ) (t : CrawlTask) : Type 0 where
  pub of_retailer : t.retailer_id ≡ retailer_id
  pub queued : t.status ≡ TaskStatus.queued
  pub in_time : t.not_before ≤ clock
  pub no_discovery : t.kind ≢ TaskKind.discovery
  pub no_canary : t.kind ≢ TaskKind.canary

-- A smaller priority number, or the same one and no later a time.
abbrev pub GoesFirst : CrawlTask → CrawlTask → Type 0
GoesFirst a b =
    (a.priority < b.priority) ⊎ ((a.priority ≡ b.priority) × (a.not_before ≤ b.not_before))

is_queued_iff : (s : TaskStatus) → (is_queued s ≡ true) ↔ (s ≡ TaskStatus.queued)
is_queued_iff s = (λ h. ground arith, λ h. ground arith)

is_drainable_iff :
    (k : TaskKind) → (is_drainable k ≡ true) ↔ ((k ≢ TaskKind.discovery) × (k ≢ TaskKind.canary))
is_drainable_iff k = (λ h. ground arith, λ h. ground arith)

is_due_iff :
    (retailer_id clock : ℕ) (t : CrawlTask)
    → (is_due retailer_id clock t ≡ true) ↔ IsDue retailer_id clock t
is_due_iff retailer_id clock t =
    let q = is_queued_iff t.status in
    let k = is_drainable_iff t.kind in
    (
      λ h. record {
        of_retailer = ground arith;
        queued = q.0 (ground arith);
        in_time = ground arith;
        no_discovery = (k.0 (ground arith)).0;
        no_canary = (k.0 (ground arith)).1;
      },
      λ h.
          let a = h.of_retailer in
          let b = q.1 h.queued in
          let c = h.in_time in let d = k.1 (h.no_discovery, h.no_canary) in ground arith,
    )

is_sooner-GoesFirst : (a b : CrawlTask) → is_sooner a b ≡ true → GoesFirst a b
is_sooner-GoesFirst a b h = ground arith

-- The task of the queue that is the first among those that are due.
pub record IsNext (retailer_id clock : ℕ) (tasks : List CrawlTask) (t : CrawlTask) : Type 0 where
  pub stands : In t tasks
  pub due : IsDue retailer_id clock t
  pub first : All (λ u. IsDue retailer_id clock u → GoesFirst t u) tasks

module _ (retailer_id clock : ℕ) (tasks : List CrawlTask) where
  abbrev due_tasks : List CrawlTask
  due_tasks = sort is_sooner (keep (is_due retailer_id clock) tasks)

  due_tasks-hold : All (λ t. In t tasks × (is_due retailer_id clock t ≡ true)) due_tasks
  due_tasks-hold = All-sort is_sooner _ (keep (is_due retailer_id clock) tasks) (
      All-pair _ _ (keep (is_due retailer_id clock) tasks)
        (All-keep _ (is_due retailer_id clock) tasks (All-self tasks))
        (All-kept (is_due retailer_id clock) tasks))

  due_tasks-all :
      (P : CrawlTask → Type 0)
      → All P due_tasks
      → All (λ t. is_due retailer_id clock t ≡ true → P t) tasks
  due_tasks-all P h =
      All-of_keep P (is_due retailer_id clock) tasks
        (All-of_sort is_sooner P (keep (is_due retailer_id clock) tasks) h)

  due_tasks-IsDue :
      (P : CrawlTask → Type 0)
      → All (λ u. is_due retailer_id clock u ≡ true → P u) tasks
      → All (λ u. IsDue retailer_id clock u → P u) tasks
  due_tasks-IsDue P h =
      All-implies _ _ tasks (λ u q due. q ((is_due_iff retailer_id clock u).1 due)) h

  head-IsNext :
      (ts : List CrawlTask) (t : CrawlTask)
      → IsHeaded is_sooner ts
      → All (λ u. In u tasks × (is_due retailer_id clock u ≡ true)) ts
      → ((P : CrawlTask → Type 0)
          → All P ts
          → All (λ u. is_due retailer_id clock u ≡ true → P u) tasks)
      → head? ts ≡ some t
      → IsNext retailer_id clock tasks t
  head-IsNext [] t h hold all e = absurd (cc)
  head-IsNext (u ∷ ts) t h hold all e =
      let same : u ≡ t = ground (arith, e) in
      subst (IsNext retailer_id clock tasks) same (record {
        stands = hold.0.0;
        due = (is_due_iff retailer_id clock u).0 hold.0.1;
        first =
            due_tasks-IsDue (GoesFirst u)
              (all (GoesFirst u) (All-implies _ _ (u ∷ ts) (λ v q. is_sooner-GoesFirst u v q) h));
      })

  -- The task that a round takes stands in the table, is due (queued, of the retailer, of a kind that
  -- is drained, and not before its time), and no other due task has a smaller priority number, nor
  -- the same one and an earlier time.
  pub select_task-IsNext :
      (t : CrawlTask)
      → select_task retailer_id clock tasks ≡ some t
      → IsNext retailer_id clock tasks t
  unfolding select_task
  select_task-IsNext t e =
      head-IsNext due_tasks t
        (sort-IsHeaded is_sooner is_sooner_total is_sooner_trans
          (keep (is_due retailer_id clock) tasks))
        due_tasks-hold due_tasks-all e

  head-empty : (ts : List CrawlTask) → head? ts ≡ none → All (λ t. ⊥) ts
  head-empty [] e = tt
  head-empty (t ∷ ts) e = absurd (cc)

  -- Where a round takes no task, none is due.
  pub select_task-none :
      select_task retailer_id clock tasks ≡ none → All (λ t. IsDue retailer_id clock t → ⊥) tasks
  unfolding select_task
  select_task-none e = due_tasks-IsDue (λ t. ⊥) (due_tasks-all (λ t. ⊥) (head-empty due_tasks e))

-- ===== src/Scheduler/Queue.antt =====
-- fpt/scheduler/queue.py: the expiry of CONFIRM tasks that missed their deadline, and the fetches of
-- one retailer's queued tasks within its budget.
pub mod Overdue
pub mod Selected
pub mod Drain
mod Tests
use fishing_deal_tracker.Prelude.{
  ℕ, suc, ◌+◌, String, Bool, true, false, ◌&&◌, Option, none, some, List, [], ◌∷◌, ◌++◌, length,
  ltb, leb, if◌then◌else◌,
}
use fishing_deal_tracker.Prelude.Eq.{◌==◌, nat_eq}
use fishing_deal_tracker.Prelude.Order.{keep, sort}
use fishing_deal_tracker.Prelude.Query.{filter_map, head?}
use fishing_deal_tracker.Floats.{Floats}
use fishing_deal_tracker.Domain.{PageType, ResponseOutcome}
use fishing_deal_tracker.Deals.Confirm.{RejectReason}
use fishing_deal_tracker.Fetch.Blocks.{detect_block_or_empty}
use fishing_deal_tracker.Store.Database.{CrawlTask, Db, Deal, DealStatus, TaskKind, TaskStatus}
use fishing_deal_tracker.Store.Deals.Rows.{has_id, is_unconfirmed, update_where}
use fishing_deal_tracker.Scheduler.Limiter.{
  Denial, RetailerPolicy, RetailerState, can_admit, is_before, record_outcome, record_request,
}

abbrev pub is_queued : TaskStatus → Bool
is_queued TaskStatus.queued = true
is_queued _ = false

abbrev pub is_confirm : TaskKind → Bool
is_confirm TaskKind.confirm = true
is_confirm _ = false

-- `kind in _DRAINABLE_KINDS`
abbrev pub is_drainable : TaskKind → Bool
is_drainable TaskKind.discovery = false
is_drainable TaskKind.canary = false
is_drainable _ = true

-- `UPDATE crawl_tasks SET … WHERE …`
abbrev pub update_tasks :
    (CrawlTask → Bool) → (CrawlTask → CrawlTask) → List CrawlTask → List CrawlTask
update_tasks p f [] = []
update_tasks p f (t ∷ ts) = (if p t then f t else t) ∷ update_tasks p f ts

abbrev pub has_task_id : ℕ → CrawlTask → Bool
has_task_id task_id t = t.id == task_id

-- `deadline < now`, which no NULL is.
abbrev pub is_past : (now : ℕ) → Option ℕ → Bool
is_past now none = false
is_past now (some deadline) = ltb deadline now

abbrev pub is_overdue : (retailer_id now : ℕ) → CrawlTask → Bool
is_overdue retailer_id now t =
    t.retailer_id == retailer_id
    && is_confirm t.kind
    && is_queued t.status
    && is_past now t.deadline

abbrev pub expire_task : (now : ℕ) → CrawlTask → CrawlTask
expire_task now t = record t { status = TaskStatus.expired; finished_at = some now }

abbrev pub deal_of : CrawlTask → Option ℕ
deal_of t = t.deal_id

-- `[row[0] for row in cur.fetchall() if row[0] is not None]`
abbrev pub overdue_deals : (retailer_id now : ℕ) → List CrawlTask → List ℕ
overdue_deals retailer_id now tasks = filter_map deal_of (keep (is_overdue retailer_id now) tasks)

module _ {F : Type 0} where
  -- `UPDATE crawl_tasks SET … WHERE id = …`
  abbrev pub write_task : (task_id : ℕ) → (CrawlTask → CrawlTask) → Db F → Db F
  write_task task_id f db = record db {
    crawl_tasks = update_tasks (has_task_id task_id) f db.crawl_tasks;
  }

  abbrev pub is_missed : (deal_id : ℕ) → Deal F → Bool
  is_missed deal_id d = has_id deal_id d && is_unconfirmed d.status

  abbrev pub missed_row : Deal F → Deal F
  missed_row d = record d {
    status = DealStatus.rejected;
    reject_reason = some RejectReason.confirm_deadline_missed;
  }

  -- `for deal_id in deal_ids: UPDATE deals …`
  unfoldable pub reject_missed : List ℕ → List (Deal F) → List (Deal F)
  reject_missed [] deals = deals
  reject_missed (deal_id ∷ rest) deals =
      reject_missed rest (update_where (is_missed deal_id) missed_row deals)

  unfoldable pub expire_overdue_confirm_tasks : Db F → (retailer_id now : ℕ) → ℕ × Db F
  expire_overdue_confirm_tasks db retailer_id now =
      let deal_ids = overdue_deals retailer_id now db.crawl_tasks in
      (
        length deal_ids,
        record db {
          crawl_tasks = update_tasks (is_overdue retailer_id now) (expire_task now) db.crawl_tasks;
          deals = reject_missed deal_ids db.deals;
        },
      )

-- The WHERE of the choice of a task.
abbrev pub is_due : (retailer_id clock : ℕ) → CrawlTask → Bool
is_due retailer_id clock t =
    t.retailer_id == retailer_id
    && is_queued t.status
    && leb t.not_before clock
    && is_drainable t.kind

-- `ORDER BY priority ASC, not_before ASC`
abbrev pub is_sooner : CrawlTask → CrawlTask → Bool
is_sooner a b =
    if ltb a.priority b.priority
    then true
    else a.priority == b.priority && leb a.not_before b.not_before

unfoldable pub select_task : (retailer_id clock : ℕ) → List CrawlTask → Option CrawlTask
select_task retailer_id clock tasks = head? (sort is_sooner (keep (is_due retailer_id clock) tasks))

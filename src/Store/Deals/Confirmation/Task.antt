-- ===== src/Store/Deals/Confirmation/Task.antt =====
-- `enqueue_confirm_task` of fpt/store/deals.py and its insert.
use fishing_deal_tracker.Prelude.{
  ℕ, ◌+◌, ◌*◌, String, Bool, true, false, ◌&&◌, none, some, ◌∷◌, is_some, if◌then◌else◌,
}
use fishing_deal_tracker.Prelude.Eq.{int_eq, string_eq}
use fishing_deal_tracker.Prelude.Query.{find?}
use fishing_deal_tracker.Domain.{PageType}
use fishing_deal_tracker.Deals.Confirm.{minute}
use fishing_deal_tracker.Store.Database.{CrawlTask, Db, DedupeKey, TaskKind, TaskStatus, dedupe_beq}
use fishing_deal_tracker.Store.Queries.{hour}

-- `status IN ('QUEUED', 'LEASED')`
abbrev pub is_pending : TaskStatus → Bool
is_pending TaskStatus.queued = true
is_pending TaskStatus.leased = true
is_pending _ = false

abbrev pub has_open_key : DedupeKey → CrawlTask → Bool
has_open_key key t = is_pending t.status && dedupe_beq t.dedupe_key key

module _ {F : Type 0} where
  -- An insert into `crawl_tasks`, unless a task with its key is open.
  unfoldable pub insert_task : Db F → CrawlTask → Bool × Db F
  insert_task db task =
      let numbered = record db { next_task_id = db.next_task_id + 1 } in
      if is_some (find? (has_open_key task.dedupe_key) db.crawl_tasks)
      then (false, numbered)
      else (true, record numbered { crawl_tasks = task ∷ db.crawl_tasks })

  unfoldable pub enqueue_confirm_task :
      (db : Db F) (retailer_id deal_id : ℕ) (url category_hint : String)
      → (detected_at min_delay_minutes deadline_hours : ℕ) → Bool × Db F
  enqueue_confirm_task db retailer_id deal_id url category_hint detected_at min_delay
        deadline_hours =
      insert_task db (record {
        id = db.next_task_id;
        retailer_id = retailer_id;
        kind = TaskKind.confirm;
        priority = 10;
        page_type = PageType.product;
        url = url;
        category_hint = some category_hint;
        deal_id = some deal_id;
        dedupe_key = DedupeKey.confirm_deal deal_id;
        not_before = detected_at + min_delay * minute;
        deadline = some (detected_at + deadline_hours * hour);
        status = TaskStatus.queued;
        outcome = none;
        attempts = 0;
        finished_at = none;
      })

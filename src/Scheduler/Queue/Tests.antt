-- ===== src/Scheduler/Queue/Tests.antt =====
-- A drain of a small queue, and the theorems at it: a confirmation is overdue, one task fails in
-- transport, and one brings a page.
use mathlib.Core.Path.{subst}
use mathlib.Core.Option.{some-injective}
use fishing_deal_tracker.Prelude.{
  if◌then◌else◌, ◌==◌, ℕ, ◌+◌, ◌-◌, ◌*◌, ◌≡◌, refl, sym, ap, true, false, Option, none, some, [],
  ◌∷◌, arith, is_some, Bool-cases, inl, inr,
}
use fishing_deal_tracker.Prelude.Int.{◌-ℤ◌}
use fishing_deal_tracker.Prelude.Order.{All, In}
use fishing_deal_tracker.Prelude.Query.{find?}
use fishing_deal_tracker.Floats.{Floats}
use fishing_deal_tracker.Floats.Fixed.{fixed}
use fishing_deal_tracker.Domain.{EgressMode, FetchRequest, FetchResponse, PageType, ResponseOutcome}
use fishing_deal_tracker.Deals.Confirm.{RejectReason, minute}
use fishing_deal_tracker.Fetch.Blocks.{bytes, detect_block_or_empty, includes}
use fishing_deal_tracker.Store.Database.{
  CrawlTask, Db, Deal, DealStatus, DedupeKey, TaskKind, TaskStatus,
}
use fishing_deal_tracker.Store.Deals.Confirmation.{has_open_key, insert_task}
use fishing_deal_tracker.Store.Deals.Invariant.{IsValid}
use fishing_deal_tracker.Store.Pipeline.Keeps.{same-IsValid}
use fishing_deal_tracker.Store.Fixture.{active_deal, empty_store, now}
use fishing_deal_tracker.Scheduler.Limiter.{
  RetailerPolicy, can_admit, denial, initial, record_outcome, record_request, roll_buckets,
}
use fishing_deal_tracker.Scheduler.Limiter.Budget.{InBudget, Run}
use fishing_deal_tracker.Scheduler.Queue.{
  expire_overdue_confirm_tasks, is_overdue, reject_missed, select_task,
}
use fishing_deal_tracker.Scheduler.Queue.Overdue.{
  Settled, expire_overdue_confirm_tasks-others, expire_overdue_confirm_tasks-settles,
}
use fishing_deal_tracker.Scheduler.Queue.Selected.{IsNext, select_task-IsNext}
use fishing_deal_tracker.Scheduler.Queue.Drain.{
  Drain, FetchResult, ParseAnswer, Site, after_admission, after_fetch, drain_from,
  drain_retailer_queue, drain_round, ingest_all, report,
}
use fishing_deal_tracker.Scheduler.Queue.Drain.Laws.{IngestLaws, OnlyQueues}
use fishing_deal_tracker.Scheduler.Queue.Drain.Budget.{drain_retailer_queue-InBudget}
use fishing_deal_tracker.Scheduler.Queue.Drain.Ends.{HasEnded, drain_retailer_queue-HasEnded}
use fishing_deal_tracker.Scheduler.Queue.Drain.Steps.{SiteReturns}

instance abbrev numbers : Floats ℕ
numbers = fixed

abbrev confirm_task : CrawlTask
confirm_task = record {
  id = 1;
  retailer_id = 1;
  kind = TaskKind.confirm;
  priority = 10;
  page_type = PageType.product;
  url = "https://www.academy.com/rod";
  category_hint = some "rods";
  deal_id = some 1;
  dedupe_key = DedupeKey.confirm_deal 1;
  not_before = now - 60 * minute;
  deadline = some (now - 1);
  status = TaskStatus.queued;
  outcome = none;
  attempts = 0;
  finished_at = none;
}

abbrev hot_task : CrawlTask
hot_task = record confirm_task {
  id = 2;
  kind = TaskKind.hot;
  priority = 20;
  deal_id = none;
  dedupe_key = DedupeKey.enroll_url 1 "a";
  deadline = none;
}

abbrev enroll_task : CrawlTask
enroll_task = record hot_task {
  id = 3;
  kind = TaskKind.enroll;
  priority = 30;
  dedupe_key = DedupeKey.enroll_url 1 "b";
}

-- The confirmation that the page's listing queues.
abbrev new_task : CrawlTask
new_task = record confirm_task {
  id = 9;
  deal_id = some 2;
  dedupe_key = DedupeKey.confirm_deal 2;
  not_before = now + 10 * minute;
  deadline = none;
}

abbrev waiting : Deal ℕ
waiting = record active_deal { status = DealStatus.confirming; confirming_observation_id = none }

abbrev held : Deal ℕ
held = record waiting { id = 2; offer_id = 2 }

abbrev store : Db ℕ
store = record empty_store {
  deals = waiting ∷ held ∷ [];
  crawl_tasks = enroll_task ∷ hot_task ∷ confirm_task ∷ [];
  next_deal_id = 3;
  next_task_id = 9;
}

abbrev policy : RetailerPolicy ℕ
policy = record {
  min_delay_s = 100_000;
  jitter_s = 20_000;
  max_requests_per_hour = 4;
  max_requests_per_day = 10;
  reserved_share = 1_500 ∷ 1_500 ∷ [];
  breaker = record {
    consecutive_blocks = 2;
    block_rate_threshold = 2_000;
    block_rate_min_sample = 20;
    cooldown_hours = 12;
    disable_after_trips_in_48h = 2;
  };
}

abbrev request_of : CrawlTask → FetchRequest
request_of t = record {
  task_id = t.id;
  page_type = t.page_type;
  url = t.url;
  params = [];
  render_js = false;
  api_cost_units = 0;
}

abbrev page : FetchRequest → FetchResponse
page request = record {
  request = request;
  status = 200;
  final_url = request.url;
  headers = [];
  body = bytes "a rod";
  elapsed_ms = 300;
  fetched_at = now;
  egress_mode = EgressMode.direct;
  snapshot_ref = "s";
  api_units_remaining = none;
}

-- The page of the one task comes, and no other.
abbrev fetch_of : FetchRequest → FetchResult FetchResponse
fetch_of request =
    if request.task_id == enroll_task.id
    then FetchResult.fetched (page request)
    else FetchResult.transport_error

-- A listing is the task that its ingest queues.
abbrev site : Site ℕ CrawlTask
site = record {
  admits = λ round url. some true;
  build_request = λ t. some (request_of t);
  fetch = λ round request. fetch_of request;
  content_sentinels = λ p. some (bytes "rod" ∷ []);
  parse = λ response. ParseAnswer.parsed (new_task ∷ []);
  ingest = λ db t response listing. some (insert_task db new_task).1;
  next_delay = λ round. 11_000_000;
}

abbrev expired_store : Db ℕ
expired_store = record store {
  deals =
      record waiting {
        status = DealStatus.rejected;
        reject_reason = some RejectReason.confirm_deadline_missed;
      }
      ∷ held
      ∷ [];
  crawl_tasks =
      enroll_task
      ∷ hot_task
      ∷ record confirm_task { status = TaskStatus.expired; finished_at = some now }
      ∷ [];
}

expiry : expire_overdue_confirm_tasks store 1 now ≡ (1, expired_store)
unfolding expire_overdue_confirm_tasks reject_missed
expiry = refl

abbrev end : Drain ℕ
end = record {
  db = record expired_store {
    crawl_tasks =
        new_task
        ∷ record enroll_task {
          status = TaskStatus.done;
          outcome = some ResponseOutcome.ok;
          attempts = 1;
          finished_at = some (now + 11_000_000);
        }
        ∷ record hot_task { status = TaskStatus.failed; attempts = 1; finished_at = some now }
        ∷ record confirm_task { status = TaskStatus.expired; finished_at = some now }
        ∷ [];
    next_task_id = 10;
  };
  limiter = record initial {
    last_request_at = some (now + 11_000_000);
    requests_this_hour = 2;
    requests_this_day = 2;
    hour_bucket_start = some now;
    day_bucket_start = some now;
    recent_outcomes = false ∷ [];
  };
  clock = now + 22_000_000;
  tasks =
      report hot_task (some TaskStatus.failed) none none
      ∷ report enroll_task none (some ResponseOutcome.ok) (some 1)
      ∷ [];
}

drained : drain_retailer_queue site policy store initial 1 now 50 ≡ some end
unfolding drain_retailer_queue drain_from drain_round select_task after_admission after_fetch
    ingest_all expire_overdue_confirm_tasks reject_missed can_admit denial roll_buckets
    record_request record_outcome detect_block_or_empty includes insert_task ◌-ℤ◌
drained = refl

store-IsValid : IsValid store
store-IsValid = record {
  one_open = (λ o. (refl, tt), (λ o. tt, tt));
  distinct = ((λ e. omega (arith, e), tt), (tt, tt));
  confirmed = (λ c. absurd (cc), (λ c. absurd (cc), tt));
  numbered = (omega arith, (omega arith, tt));
}

insert_new-OnlyQueues :
    (db : Db ℕ) → OnlyQueues db.crawl_tasks (insert_task db new_task).1.crawl_tasks
unfolding insert_task
insert_new-OnlyQueues db =
    elim (Bool-cases (is_some (find? (has_open_key new_task.dedupe_key) db.crawl_tasks))) [
      | inl e ↦ rw e (record { added = []; whole = refl; fresh = tt })
      | inr e ↦ rw e (record {
        added = new_task ∷ [];
        whole = refl;
        fresh = (record { queued = refl; untried = refl; unfinished = refl }, tt);
      })
    ]

insert_new-same :
    (db : Db ℕ)
    → ((insert_task db new_task).1.deals ≡ db.deals)
      × ((insert_task db new_task).1.next_deal_id ≡ db.next_deal_id)
unfolding insert_task
insert_new-same db = (ground arith, ground arith)

abbrev laws : IngestLaws site
laws = record {
  only_queues = λ db t response listing db' e.
      subst (λ d. OnlyQueues db.crawl_tasks d.crawl_tasks) (some-injective _ _ e)
        (insert_new-OnlyQueues db);
  keeps_valid = λ db t response listing db' e v.
      let same = insert_new-same db in
      subst IsValid (some-injective _ _ e)
        (same-IsValid db (insert_task db new_task).1 same.0 same.1 v);
}

expire_overdue_confirm_tasks-settles_example :
    All (λ t. is_overdue 1 now t ≡ false) (expire_overdue_confirm_tasks store 1 now).1.crawl_tasks
    × All
        (λ t.
          is_overdue 1 now t ≡ true
          → (k : ℕ) → t.deal_id ≡ some k
          → Settled k (expire_overdue_confirm_tasks store 1 now).1.deals)
        store.crawl_tasks
expire_overdue_confirm_tasks-settles_example = expire_overdue_confirm_tasks-settles store 1 now

carries_other :
    (t : CrawlTask) → In t store.crawl_tasks → t.deal_id ≡ some 2 → is_overdue 1 now t ≡ false
carries_other t (inl e) q = rw e refl
carries_other t (inr (inl e)) q = rw e refl
carries_other t (inr (inr (inl e))) q =
    let k : ◌≡◌ {A = Option ℕ} (some 1) (some 2) = rw (sym (ap (λ u. u.deal_id) e)) q in
    absurd (ground (arith, k))
carries_other t (inr (inr (inr i))) q = absurd i

expire_overdue_confirm_tasks-others_example :
    In held (expire_overdue_confirm_tasks store 1 now).1.deals
expire_overdue_confirm_tasks-others_example =
    expire_overdue_confirm_tasks-others store 1 now held (inr (inl refl)) carries_other

selected : select_task 1 now expired_store.crawl_tasks ≡ some hot_task
unfolding select_task
selected = refl

select_task-IsNext_example : IsNext 1 now expired_store.crawl_tasks hot_task
select_task-IsNext_example = select_task-IsNext 1 now expired_store.crawl_tasks hot_task selected

drain_retailer_queue-InBudget_example : InBudget policy end.limiter
drain_retailer_queue-InBudget_example =
    drain_retailer_queue-InBudget site policy store initial 1 now 50 end Run.start drained

returns : SiteReturns site policy
returns = record {
  robots = λ round url e. absurd (cc);
  requests = λ t e. absurd (cc);
  sentinels = λ p e. absurd (cc);
  ingests = λ db t response listing e. absurd (cc);
}

drain_retailer_queue-HasEnded_example :
    HasEnded site policy 1 50 (drain_retailer_queue site policy store initial 1 now 50)
drain_retailer_queue-HasEnded_example =
    drain_retailer_queue-HasEnded site policy store initial 1 now 50 returns

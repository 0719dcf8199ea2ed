-- ===== src/Scheduler/Queue/Drain/Tests.antt =====
-- A drain that hands its page to the pipeline, and the theorem at it.
use fishing_deal_tracker.Prelude.{
  ℕ, ◌≡◌, refl, ap, true, false, Option, none, some, [], ◌∷◌, arith, length,
}
use fishing_deal_tracker.Prelude.Int.{◌-ℤ◌}
use fishing_deal_tracker.Prelude.Order.{min_by}
use fishing_deal_tracker.Floats.{Floats}
use fishing_deal_tracker.Floats.Fixed.{fixed}
use fishing_deal_tracker.Domain.{EgressMode, PageType}
use fishing_deal_tracker.Validation.{guard_reasons, validate_observation}
use fishing_deal_tracker.Deals.Discount.{discount_pct, percent_off}
use fishing_deal_tracker.Deals.Detect.{candidate_if_deep, detect_deep_discount_new}
use fishing_deal_tracker.Deals.References.{
  claimed_inflated, own_history_of, resolve_cross_retailer_new, resolve_own_history_median,
  resolve_verified_reference,
}
use fishing_deal_tracker.Store.Database.{Db, TaskKind}
use fishing_deal_tracker.Store.Queries.{
  category_of, cross_row, cross_rows, get_offer_context, latest_in_stock, resolve_cross_retailer,
  resolve_own_history, resolve_verified_reference_for_offer,
}
use fishing_deal_tracker.Store.Deals.Rows.{create_candidate_deal, find_open_deal}
use fishing_deal_tracker.Store.Deals.Confirmation.{enqueue_confirm_task, insert_task}
use fishing_deal_tracker.Store.Deals.Invariant.{IsValid}
use fishing_deal_tracker.Store.Fixture.{empty_store, now, parsed}
use fishing_deal_tracker.Store.Listings.{get_or_create_seller, upsert_listing, upsert_offer}
use fishing_deal_tracker.Store.Observations.{
  find_existing_observation_by_snapshot, record_observation,
}
use fishing_deal_tracker.Store.Pipeline.{
  confirm_rule, recheck_rule, try_confirm, try_recheck_active,
}
use fishing_deal_tracker.Store.Pipeline.Ingest.{act_on_observation, detect_new, run_detection}
use fishing_deal_tracker.Store.Pipeline.Offers.{
  after_record, ingest_listing, ingest_offer, ingest_offers, last_ok_context, store_offer,
  validated,
}
use fishing_deal_tracker.Store.Pipeline.Offers.Sample.{ctx, settings, values}
use fishing_deal_tracker.Fetch.Blocks.{bytes, detect_block_or_empty, includes}
use fishing_deal_tracker.Store.Database.{CrawlTask, DedupeKey, TaskStatus}
use fishing_deal_tracker.Scheduler.Limiter.{
  RetailerPolicy, can_admit, denial, initial, record_outcome, record_request, roll_buckets,
}
use fishing_deal_tracker.Scheduler.Queue.{expire_overdue_confirm_tasks, reject_missed, select_task}
use fishing_deal_tracker.Scheduler.Queue.Drain.{
  Drain, FetchResult, ParseAnswer, Site, after_admission, after_fetch, drain_from,
  drain_retailer_queue, drain_round, ingest_all,
}
use fishing_deal_tracker.Scheduler.Queue.Drain.Pipeline.{
  Prepared, drain_pipeline-IsSound, with_pipeline,
}
use fishing_deal_tracker.Scheduler.Queue.Drain.Tasks.{Idle}

instance abbrev numbers : Floats ℕ
numbers = fixed

abbrev enroll_task : CrawlTask
enroll_task = record {
  id = 3;
  retailer_id = 1;
  kind = TaskKind.enroll;
  priority = 30;
  page_type = PageType.product;
  url = "https://www.academy.com/rod";
  category_hint = some "rods";
  deal_id = none;
  dedupe_key = DedupeKey.enroll_url 1 "https://www.academy.com/rod";
  not_before = now;
  deadline = none;
  status = TaskStatus.queued;
  outcome = none;
  attempts = 0;
  finished_at = none;
}

abbrev store : Db ℕ
store = record empty_store { crawl_tasks = enroll_task ∷ []; next_task_id = 4 }

abbrev policy : RetailerPolicy ℕ
policy = record {
  min_delay_s = 100_000;
  jitter_s = 20_000;
  max_requests_per_hour = 4;
  max_requests_per_day = 10;
  reserved_share = 1_500 ∷ 1_500 ∷ [];
  breaker = record {
    consecutive_blocks = 2;
    block_rate_threshold = 2_000;
    block_rate_min_sample = 20;
    cooldown_hours = 12;
    disable_after_trips_in_48h = 2;
  };
}

abbrev site : Site ℕ Prepared
site = record {
  admits = λ round url. some true;
  build_request = λ t. some (record {
    task_id = t.id;
    page_type = t.page_type;
    url = t.url;
    params = [];
    render_js = false;
    api_cost_units = 0;
  });
  fetch = λ round request. FetchResult.fetched (record {
    request = request;
    status = 200;
    final_url = request.url;
    headers = [];
    body = bytes "a rod";
    elapsed_ms = 300;
    fetched_at = now;
    egress_mode = EgressMode.direct;
    snapshot_ref = "s";
    api_units_remaining = none;
  });
  content_sentinels = λ p. some (bytes "rod" ∷ []);
  parse = λ response.
      ParseAnswer.parsed (record { ctx = ctx; values = values; offers = parsed ∷ [] } ∷ []);
  ingest = λ db t response p. none;
  next_delay = λ round. 11_000_000;
}

abbrev run : Option (Drain ℕ)
run = drain_retailer_queue (with_pipeline settings "academy" site) policy store initial 1 now 50

-- The reports, the deals and the tasks at the end.
abbrev counts : Option (Drain ℕ) → ℕ × ℕ × ℕ
counts none = (0, 0, 0)
counts (some d) = (length d.tasks, length d.db.deals, length d.db.crawl_tasks)

-- One task is fetched, and its page makes a deal with a task to confirm it.
drained : counts run ≡ (1, 1, 2)
unfolding ingest_listing ingest_offers ingest_offer store_offer get_or_create_seller upsert_offer
    upsert_listing record_observation find_existing_observation_by_snapshot after_record validated
    validate_observation guard_reasons last_ok_context act_on_observation try_recheck_active
    recheck_rule try_confirm confirm_rule find_open_deal run_detection get_offer_context category_of
    resolve_verified_reference_for_offer resolve_own_history resolve_own_history_median
    resolve_cross_retailer cross_rows cross_row latest_in_stock resolve_cross_retailer_new
    resolve_verified_reference min_by detect_new detect_deep_discount_new candidate_if_deep
    discount_pct percent_off ◌-ℤ◌ create_candidate_deal enqueue_confirm_task insert_task
    claimed_inflated own_history_of drain_retailer_queue drain_from drain_round select_task
    after_admission after_fetch ingest_all expire_overdue_confirm_tasks reject_missed can_admit
    denial roll_buckets record_request record_outcome detect_block_or_empty includes with_pipeline
drained = refl

abbrev end : Option (Drain ℕ) → Drain ℕ
end none = record { db = store; limiter = initial; clock = now; tasks = [] }
end (some d) = d

some-of : (o : Option (Drain ℕ)) → counts o ≡ (1, 1, 2) → o ≡ some (end o)
some-of none e = let k = ap (λ x. x.0) e in absurd (omega (arith, k))
some-of (some d) e = refl

store-IsValid : IsValid store
store-IsValid = record { one_open = tt; distinct = tt; confirmed = tt; numbered = tt }

ended : run ≡ some (end run)
ended = some-of run drained

drain_pipeline-IsSound_example : IsValid (end run).db × Idle (end run).db.crawl_tasks
drain_pipeline-IsSound_example =
    drain_pipeline-IsSound settings "academy" site policy store initial 1 now 50 (end run)
      store-IsValid (refl, tt) ended

-- ===== src/Store/Tests.antt =====
-- Runs of the store on the fixture, and the theorems at them.
use fishing_deal_tracker.Prelude.{
  ◌⊎◌, ℕ, ◌+◌, ◌*◌, ◌≡◌, ◌≢◌, refl, true, none, some, [], ◌∷◌, arith,
}
use fishing_deal_tracker.Prelude.Int.{ℤ, pos, ◌+ℤ◌, ◌-ℤ◌}
use fishing_deal_tracker.Prelude.Order.{min_by}
use fishing_deal_tracker.Floats.{Floats}
use fishing_deal_tracker.Floats.Fixed.{fixed, fixed_laws}
use fishing_deal_tracker.Domain.{
  Availability, Condition, ConditionGroup, DetectedVia, PageType, Rule, SellerType,
}
use fishing_deal_tracker.Deals.Discount.{discount_pct, percent_off}
use fishing_deal_tracker.Deals.Detect.{candidate_if_deep, detect_deep_discount_new}
use fishing_deal_tracker.Deals.Confirm.{ConfirmResult, ConfirmStatus, confirm_candidate}
use fishing_deal_tracker.Deals.References.{
  from_cross, resolve_cross_retailer_new, resolve_own_history_median, resolve_verified_reference,
  claimed_inflated,
}
use fishing_deal_tracker.Deals.References.Lowest.{IsVerifiedLink}
use fishing_deal_tracker.Store.Fixture.{
  active_deal, deep, empty_store, fetch, no_rules, now, parsed, recheck_rules, second_price,
  second_price_candidate, store_with_deal, used_deal,
}
use fishing_deal_tracker.Store.Database.{
  CrawlTask, Db, Deal, DealReferenceKind, DedupeKey, TaskKind, TaskStatus,
}
use fishing_deal_tracker.Store.Queries.{
  OfferContext, category_of, cross_row, cross_rows, get_offer_context, hour, latest_in_stock,
  resolve_cross_retailer, resolve_own_history, resolve_verified_reference_for_offer,
}
use fishing_deal_tracker.Store.Queries.Scope.{Evidence, resolve_cross_retailer-Evidence}
use fishing_deal_tracker.Store.Deals.Rows.{
  create_candidate_deal, find_open_deal, new_deal, to_open_deal,
}
use fishing_deal_tracker.Store.Deals.Confirmation.{
  Confirming, build_confirm_context, enqueue_confirm_task, insert_task, offer_group,
}
use fishing_deal_tracker.Store.Deals.Recheck.{expire_stale_deals, refresh_or_expire_active_deal}
use fishing_deal_tracker.Store.Deals.Invariant.{IsValid}
use fishing_deal_tracker.Store.Deals.Lifecycle.{expire_stale_deals-IsValid}
use fishing_deal_tracker.Prelude.{◌↔◌}
use fishing_deal_tracker.Domain.{Lane, is_sellable}
use fishing_deal_tracker.Store.Deals.Recheck.{
  DealRecheckResult, current_reference, max_increase, min_discount,
}
use fishing_deal_tracker.Store.Deals.Outcome.{
  IsDone, LivesOn, refresh_or_expire_active_deal-refreshed_iff,
}
use fishing_deal_tracker.Store.Deals.UsedLane.{used_lane_rejected}
use fishing_deal_tracker.Store.Pipeline.{
  DealAction, compare_price, confirming, confirm_rule, landed_price_cents, recheck_rule,
  try_confirm, try_recheck_active,
}
use fishing_deal_tracker.Store.Pipeline.Ingest.{act_on_observation, detect_new, run_detection}
use fishing_deal_tracker.Store.Pipeline.Answers.{FindsRefused, IsQueued, run_detection-queues}
use fishing_deal_tracker.Store.Pipeline.Keeps.{act_on_observation-IsValid}
use fishing_deal_tracker.Store.Pipeline.Shipping.{compare_price-landed}

instance abbrev numbers : Floats ℕ
numbers = fixed

empty_store-IsValid : IsValid empty_store
empty_store-IsValid = record { one_open = tt; distinct = tt; confirmed = tt; numbered = tt }

store_with_deal-IsValid : IsValid store_with_deal
store_with_deal-IsValid = record {
  one_open = (λ _. tt, tt);
  distinct = (tt, tt);
  confirmed = (λ _. refl, tt);
  numbered = (omega arith, tt);
}

found : find_open_deal store_with_deal 1 Rule.deep_discount_new ≡ some (to_open_deal active_deal)
unfolding find_open_deal
found = refl

latest_run : latest_in_stock empty_store 2 (48 * hour) ≡ some second_price
unfolding latest_in_stock
latest_run = refl

cross_run :
    resolve_cross_retailer empty_store 1
      (some 1)
      ConditionGroup.new_group
      (some (pos 1))
      (some "rods")
    ≡ some second_price_candidate
unfolding resolve_cross_retailer cross_rows cross_row category_of latest_in_stock
    resolve_cross_retailer_new min_by
cross_run = refl

resolve_cross_retailer-Evidence_example :
    (v : ℕ) × (u : ℤ) × (some 1 ≡ some v)
    × (some (pos 1) ≡ some u)
    × (ConditionGroup.new_group ≡ ConditionGroup.new_group)
    × IsVerifiedLink "auto_gtin"
    × Evidence empty_store 1 v u second_price_candidate
resolve_cross_retailer-Evidence_example =
    resolve_cross_retailer-Evidence empty_store 1 (some 1) ConditionGroup.new_group (some (pos 1))
      (some "rods") second_price_candidate cross_run

abbrev accepted : ConfirmResult
accepted = record { status = ConfirmStatus.active; reject_reason = none; hold_reason = none }

expire_stale_deals-IsValid_example : IsValid (expire_stale_deals store_with_deal now 12).1
expire_stale_deals-IsValid_example =
    expire_stale_deals-IsValid store_with_deal now 12 store_with_deal-IsValid

abbrev used_fetch : Confirming
used_fetch = confirming (record parsed { condition = Condition.used_good }) fetch (pos 4000)

used_is_not_new :
    offer_group (get_offer_context empty_store 3) used_fetch.condition ≢ ConditionGroup.new_group
unfolding get_offer_context category_of
used_is_not_new e = cc

used_lane_rejected_example :
    (confirm_candidate (build_confirm_context empty_store used_deal 3 used_fetch)).status
    ≡ ConfirmStatus.rejected
used_lane_rejected_example =
    used_lane_rejected fixed_laws empty_store used_deal 3 used_fetch refl used_is_not_new

compare_price-landed_example :
    compare_price Rule.deep_discount_new (landed_price_cents parsed).0 (landed_price_cents parsed).1
    ≡ some (pos 4000 +ℤ pos 500)
compare_price-landed_example =
    compare_price-landed Rule.deep_discount_new parsed (pos 4000) (pos 500) refl refl

abbrev context : OfferContext
context = record {
  condition_group = ConditionGroup.new_group;
  variant_id = some 1;
  listing_id = 1;
  match_status = "manual";
  seller_type = SellerType.first_party;
  retailer_id = 1;
  unit_count = some (pos 1);
  variant_key_observed = some "v";
  category = some "rods";
}

context_run : get_offer_context empty_store 1 ≡ some context
unfolding get_offer_context category_of
context_run = refl

run_detection-queues_example :
    ((r : DealAction × Db ℕ) × (run_detection no_rules empty_store 1 parsed (pos 4000) fetch
        ≡ some r)
      × IsQueued fetch r)
    ⊎ ((run_detection no_rules empty_store 1 parsed (pos 4000) fetch ≡ none)
        × FindsRefused no_rules empty_store 1 parsed (pos 4000) context)
run_detection-queues_example =
    run_detection-queues no_rules empty_store 1 parsed (pos 4000) fetch context context_run

-- What the run stores: the deal, and the task that is to confirm it.
abbrev detected_deal : Deal ℕ
detected_deal =
    new_deal empty_store 1 deep 12 DetectedVia.product_page
      (DealReferenceKind.verified (from_cross second_price_candidate).kind)
      (from_cross second_price_candidate).detail now none none none

abbrev task : CrawlTask
task = record {
  id = 1;
  retailer_id = 1;
  kind = TaskKind.confirm;
  priority = 10;
  page_type = PageType.product;
  url = fetch.listing_url;
  category_hint = some "rods";
  deal_id = some 1;
  dedupe_key = DedupeKey.confirm_deal 1;
  not_before = now + 600_000_000;
  deadline = some (now + 3 * hour);
  status = TaskStatus.queued;
  outcome = none;
  attempts = 0;
  finished_at = none;
}

abbrev after : Db ℕ
after = record empty_store {
  deals = detected_deal ∷ [];
  crawl_tasks = task ∷ [];
  next_deal_id = 2;
  next_task_id = 2;
}

observed_run :
    act_on_observation no_rules recheck_rules empty_store 1 parsed fetch
    ≡ some (DealAction.candidate_created 1, after)
unfolding act_on_observation try_recheck_active recheck_rule try_confirm confirm_rule find_open_deal
    run_detection get_offer_context category_of resolve_verified_reference_for_offer
    resolve_own_history resolve_own_history_median resolve_cross_retailer cross_rows cross_row
    latest_in_stock resolve_cross_retailer_new resolve_verified_reference min_by detect_new
    detect_deep_discount_new candidate_if_deep discount_pct percent_off ◌-ℤ◌ create_candidate_deal
    enqueue_confirm_task insert_task claimed_inflated
observed_run = refl

act_on_observation-IsValid_example : IsValid after
act_on_observation-IsValid_example =
    act_on_observation-IsValid no_rules recheck_rules empty_store 1 parsed fetch
      (DealAction.candidate_created 1) after empty_store-IsValid observed_run

refresh_or_expire_active_deal-refreshed_iff_example :
    let result =
      refresh_or_expire_active_deal recheck_rules store_with_deal
        (to_open_deal active_deal)
        1
        12
        (pos 4000)
        none
        Availability.in_stock
        none
        none
        none in
    let reference = current_reference store_with_deal Lane.verified 1 none in
    ((result.0 ≡ DealRecheckResult.refreshed) ↔ (
      (is_sellable Availability.in_stock ≡ true)
      × ((r : ℤ) × (reference ≡ some r)
          × LivesOn
              (pos 4000)
              (pos 4000)
              (min_discount recheck_rules none)
              (max_increase recheck_rules none)
              r)))
    × IsDone store_with_deal (to_open_deal active_deal) 12 (pos 4000) none reference result
refresh_or_expire_active_deal-refreshed_iff_example =
    refresh_or_expire_active_deal-refreshed_iff recheck_rules store_with_deal
      (to_open_deal active_deal) 1 12 (pos 4000) none Availability.in_stock none none none

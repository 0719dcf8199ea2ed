-- ===== src/Store/Pipeline/Offers/Tests.antt =====
-- The ingest of a page that is a deal, and the theorems at it.
use fishing_deal_tracker.Prelude.{
  ℕ, ◌≡◌, refl, ap, true, Option, none, some, [], ◌∷◌, arith, length,
}
use fishing_deal_tracker.Prelude.Int.{◌-ℤ◌}
use fishing_deal_tracker.Prelude.Order.{All, min_by}
use fishing_deal_tracker.Floats.{Floats}
use fishing_deal_tracker.Floats.Fixed.{fixed}
use fishing_deal_tracker.Validation.{guard_reasons, validate_observation}
use fishing_deal_tracker.Deals.Discount.{discount_pct, percent_off}
use fishing_deal_tracker.Deals.Detect.{candidate_if_deep, detect_deep_discount_new}
use fishing_deal_tracker.Deals.References.{
  claimed_inflated, own_history_of, resolve_cross_retailer_new, resolve_own_history_median,
  resolve_verified_reference,
}
use fishing_deal_tracker.Store.Database.{Db}
use fishing_deal_tracker.Store.Queries.{
  category_of, cross_row, cross_rows, get_offer_context, latest_in_stock, resolve_cross_retailer,
  resolve_own_history, resolve_verified_reference_for_offer,
}
use fishing_deal_tracker.Store.Deals.Rows.{create_candidate_deal, find_open_deal}
use fishing_deal_tracker.Store.Deals.Confirmation.{enqueue_confirm_task, insert_task}
use fishing_deal_tracker.Store.Fixture.{empty_store, parsed, second_price}
use fishing_deal_tracker.Store.Listings.{get_or_create_seller, upsert_listing, upsert_offer}
use fishing_deal_tracker.Store.Observations.{
  find_existing_observation_by_snapshot, record_observation, recorded,
}
use fishing_deal_tracker.Store.Pipeline.{
  confirm_rule, recheck_rule, try_confirm, try_recheck_active,
}
use fishing_deal_tracker.Store.Pipeline.Ingest.{act_on_observation, detect_new, run_detection}
use fishing_deal_tracker.Store.Pipeline.Offers.{
  IngestOutcome, add_outcome, after_record, ingest_listing, ingest_offer, ingest_offers,
  last_ok_context, store_offer, validated,
}
use fishing_deal_tracker.Store.Pipeline.Offers.Sample.{ctx, settings, values}
use fishing_deal_tracker.Store.Pipeline.Offers.Silent.{CanFire, validated-CanFire}
use fishing_deal_tracker.Store.Pipeline.Offers.Replay.{ingest_offer-replayed}
use fishing_deal_tracker.Store.Pipeline.Offers.Whole.{IsWhole, ingest_listing-IsWhole}

instance abbrev numbers : Floats ℕ
numbers = fixed

abbrev run : Option (IngestOutcome × Db ℕ)
run = ingest_listing settings ctx "academy" empty_store values (some 3) (parsed ∷ [])

-- The page is a deal: its offer is known, and its price is deep below the other retailer's.
abbrev actions : Option (IngestOutcome × Db ℕ) → ℕ × ℕ × ℕ
actions none = (0, 0, 0)
actions (some (out, db)) = (length out.deal_actions, length db.deals, length db.crawl_tasks)

detected : actions run ≡ (1, 1, 1)
unfolding ingest_listing ingest_offers ingest_offer store_offer get_or_create_seller upsert_offer
    upsert_listing record_observation find_existing_observation_by_snapshot after_record validated
    validate_observation guard_reasons last_ok_context act_on_observation try_recheck_active
    recheck_rule try_confirm confirm_rule find_open_deal run_detection get_offer_context category_of
    resolve_verified_reference_for_offer resolve_own_history resolve_own_history_median
    resolve_cross_retailer cross_rows cross_row latest_in_stock resolve_cross_retailer_new
    resolve_verified_reference min_by detect_new detect_deep_discount_new candidate_if_deep
    discount_pct percent_off ◌-ℤ◌ create_candidate_deal enqueue_confirm_task insert_task
    claimed_inflated own_history_of
detected = refl

abbrev result : Option (IngestOutcome × Db ℕ) → IngestOutcome × Db ℕ
result none =
    (record { listing_id = 1; offer_ids = []; observations = []; deal_actions = [] }, empty_store)
result (some r) = r

some-of : (o : Option (IngestOutcome × Db ℕ)) → actions o ≡ (1, 1, 1) → o ≡ some (result o)
some-of none e = let k = ap (λ x. x.0) e in absurd (omega (arith, k))
some-of (some r) e = refl

returned : run ≡ some (result run)
returned = some-of run detected

empty_store-IsWhole : IsWhole empty_store
empty_store-IsWhole = record {
  deals = record { one_open = tt; distinct = tt; confirmed = tt; numbered = tt };
  keys = record {
    sellers = (tt, tt);
    listings = ((refl, tt), (tt, tt));
    offers = ((refl, (refl, tt)), ((refl, tt), (tt, tt)));
    grouped = (refl, (refl, (refl, tt)));
  };
  once = ((λ n. tt), tt);
}

ingest_listing-IsWhole_example : IsWhole (result run).1
ingest_listing-IsWhole_example =
    ingest_listing-IsWhole settings ctx "academy" empty_store values 3 (parsed ∷ []) (result run).0
      (result run).1 empty_store-IsWhole returned

-- The store where the snapshot of the fetch is recorded already.
abbrev replayed_store : Db ℕ
replayed_store = record empty_store {
  price_observations = record second_price { id = 8; offer_id = 1; snapshot_ref = "s8" } ∷ [];
}

is_replayed :
    find_existing_observation_by_snapshot
      (store_offer ctx 1 parsed replayed_store).1
      (store_offer ctx 1 parsed replayed_store).0
      "s8"
    ≡ some 8
unfolding find_existing_observation_by_snapshot store_offer get_or_create_seller upsert_offer
is_replayed = refl

abbrev no_outcome : IngestOutcome
no_outcome = record { listing_id = 1; offer_ids = []; observations = []; deal_actions = [] }

ingest_offer-replayed_example :
    (db' : Db ℕ) × (ingest_offer settings ctx 1 3 no_outcome replayed_store parsed
      ≡ some (
        add_outcome no_outcome
            (store_offer ctx 1 parsed replayed_store).0
            (recorded 8
              (validated settings ctx
                (store_offer ctx 1 parsed replayed_store).1
                (store_offer ctx 1 parsed replayed_store).0
                parsed)
              true)
            [],
        db',
      ))
    × (db'.deals ≡ [])
    × (db'.crawl_tasks ≡ [])
    × (db'.price_observations ≡ replayed_store.price_observations)
ingest_offer-replayed_example =
    ingest_offer-replayed settings ctx 1 3 no_outcome replayed_store parsed 8 is_replayed

validated-CanFire_example : All CanFire (validated settings ctx empty_store 1 parsed).reasons
validated-CanFire_example = validated-CanFire settings ctx empty_store 1 parsed

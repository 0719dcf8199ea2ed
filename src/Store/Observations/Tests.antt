-- ===== src/Store/Observations/Tests.antt =====
-- A snapshot that is recorded twice, and the theorem at it.
use fishing_deal_tracker.Prelude.{ℕ, ◌/◌, ◌*◌, ◌≡◌, ◌≢◌, refl, String, true, false, none, some, []}
use fishing_deal_tracker.Prelude.Int.{pos}
use fishing_deal_tracker.Prelude.Eq.{string_eq}
use fishing_deal_tracker.Domain.{Availability, Quality}
use fishing_deal_tracker.Validation.{ValidationResult}
use fishing_deal_tracker.Store.Database.{TaskKind}
use fishing_deal_tracker.Store.Queries.{hour}
use fishing_deal_tracker.Store.Fixture.{empty_store, now}
use fishing_deal_tracker.Store.Observations.{
  ObservedValues, find_existing_observation_by_snapshot, record_observation, recorded,
}
use fishing_deal_tracker.Store.Observations.Once.{record_observation-again}

-- The calendar of a zone without a difference.
abbrev day_of : ℕ → ℕ
day_of t = t / (24 * hour)

abbrev values : ObservedValues
values = record {
  offer_id = 1;
  crawl_task_id = 3;
  task_kind = TaskKind.enroll;
  observed_at = now;
  price_cents = some (pos 4000);
  shipping_cents = none;
  claimed_reference_cents = none;
  claimed_reference_kind = none;
  on_clearance = false;
  availability = Availability.in_stock;
  stock_qty = none;
  stock_qty_is_floor = false;
  restock_date = none;
  unit_count = some (pos 1);
  variant_key_observed = some "v";
  adapter_version = "1";
  currency = "USD";
}

abbrev verdict : ValidationResult
verdict = record { quality = Quality.ok; reasons = [] }

first_id : (record_observation day_of empty_store values verdict "s8").0.observation_id ≡ 8
unfolding record_observation find_existing_observation_by_snapshot
first_id = refl

abbrev snapshot : String
snapshot = "s8"

is_named : snapshot ≢ ""
is_named e = absurd (cc)

record_observation-again_example :
    record_observation day_of
      (record_observation day_of empty_store values verdict snapshot).1
      values
      verdict
      snapshot
    ≡ (
      recorded
          (record_observation day_of empty_store values verdict snapshot).0.observation_id
          verdict
          true,
      (record_observation day_of empty_store values verdict snapshot).1,
    )
record_observation-again_example =
    record_observation-again day_of empty_store values values verdict verdict snapshot is_named refl

-- ===== src/Store/Pipeline/Offers/Sample.antt =====
-- A page of the first retailer, and the settings, for the tests.
use fishing_deal_tracker.Prelude.{ℕ, ◌*◌, ◌/◌, false, none, some, []}
use fishing_deal_tracker.Prelude.Int.{pos}
use fishing_deal_tracker.Domain.{PageType}
use fishing_deal_tracker.Validation.{Guards}
use fishing_deal_tracker.Store.Database.{TaskKind}
use fishing_deal_tracker.Store.Queries.{hour}
use fishing_deal_tracker.Store.Fixture.{no_rules, now, recheck_rules}
use fishing_deal_tracker.Store.Listings.{ListingValues}
use fishing_deal_tracker.Store.Pipeline.Offers.{ListingContext, Settings}

abbrev pub guards : Guards ℕ
guards = record {
  large_move_min_pct = none;
  large_move_max_pct = none;
  unit_mismatch_tolerance_pct = none;
  unit_mismatch_guess_multiples = none;
  discovery_collapse_pct = none;
}

abbrev pub settings : Settings ℕ
settings = record {
  deal_rules = no_rules;
  recheck_rules = recheck_rules;
  category_bands = [];
  guards = guards;
  date_et = λ t. t / (24 * hour);
}

abbrev pub ctx : ListingContext
ctx = record {
  retailer_id = 1;
  category = "rods";
  kind = TaskKind.enroll;
  page_type = PageType.product;
  persisted_url = "https://www.academy.com/rod";
  retailer_sku = "SKU-1";
  variant_key = "v";
  unit_count = some (pos 1);
  floor_cents = some (pos 500);
  fetched_at = now;
  adapter_version = "1";
  snapshot_ref = "s8";
  skip_confirm_task_enqueue = false;
}

abbrev pub values : ListingValues
values = record {
  retailer_id = 1;
  retailer_sku = "SKU-1";
  retailer_product_code = none;
  url = "https://www.academy.com/rod";
  title_raw = "Rod";
  brand_raw = none;
  model_raw = none;
  variant_label_raw = "";
  attributes_raw = "{}";
  attributes_norm = "{}";
  variant_key_observed = some "v";
  gtin14 = [];
  mpn_raw = none;
  unit_count = some (pos 1);
  variant_id = some 1;
  match_status = "auto_created";
}

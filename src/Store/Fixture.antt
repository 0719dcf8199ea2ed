-- ===== src/Store/Fixture.antt =====
-- A small store for the tests: two retailers sell one rod, the second of them at $100.00, and the
-- first also a used one.
use fishing_deal_tracker.Prelude.{ℕ, ◌*◌, true, false, none, some, [], ◌∷◌}
use fishing_deal_tracker.Prelude.Int.{pos}
use fishing_deal_tracker.Floats.{Floats}
use fishing_deal_tracker.Floats.Fixed.{fixed}
use fishing_deal_tracker.Domain.{
  Availability, Condition, ConditionGroup, DetectedVia, Lane, PageType, ParsedOffer, Quality, Rule,
  SellerType,
}
use fishing_deal_tracker.Deals.Detect.{DealCandidate, DealRules}
use fishing_deal_tracker.Deals.Detect.Eligible.{deep_candidate}
use fishing_deal_tracker.Deals.References.{CrossRetailerCandidate, ReferenceDetail}
use fishing_deal_tracker.Store.Database.{
  Db, Deal, DealReferenceKind, DealStatus, Listing, Observation, Offer, TaskKind,
}
use fishing_deal_tracker.Store.Queries.{hour}
use fishing_deal_tracker.Store.Deals.Rows.{OpenDeal, new_deal}
use fishing_deal_tracker.Store.Deals.Recheck.{RecheckRules}
use fishing_deal_tracker.Store.Pipeline.{Fetched}

instance abbrev numbers : Floats ℕ
numbers = fixed

abbrev pub now : ℕ
now = 2400 * hour

abbrev pub first_listing : Listing
first_listing = record {
  id = 1;
  retailer_id = 1;
  retailer_sku = "SKU-1";
  retailer_product_code = none;
  url = "https://www.academy.com/rod";
  title_raw = "Rod";
  brand_raw = none;
  model_raw = none;
  variant_label_raw = "";
  attributes_raw = "{}";
  attributes_norm = "{}";
  variant_key_observed = some "v";
  gtin14 = [];
  mpn_raw = none;
  unit_count = some (pos 1);
  variant_id = some 1;
  match_status = "manual";
  is_active = true;
  consecutive_absent = 0;
  last_seen_at = now;
}

abbrev pub second_listing : Listing
second_listing = record first_listing { id = 2; retailer_id = 2; match_status = "auto_gtin" }

abbrev pub first_offer : Offer
first_offer = record {
  id = 1;
  listing_id = 1;
  seller_id = 1;
  offer_key = "k";
  condition = Condition.new;
  condition_group = ConditionGroup.new_group;
  condition_raw = none;
  is_active = true;
  vanished_at = none;
  last_seen_at = now;
}

abbrev pub second_offer : Offer
second_offer = record first_offer { id = 2; listing_id = 2 }

abbrev pub used_offer : Offer
used_offer = record first_offer {
  id = 3;
  offer_key = "u";
  condition = Condition.used_good;
  condition_group = ConditionGroup.used;
}

-- The second retailer's price, an hour ago.
abbrev pub second_price : Observation
second_price = record {
  id = 7;
  offer_id = 2;
  crawl_task_id = 0;
  task_kind = TaskKind.baseline;
  observed_at = 2399 * hour;
  observed_date_et = 99;
  price_cents = some (pos 10000);
  shipping_cents = none;
  claimed_reference_cents = none;
  claimed_reference_kind = none;
  on_clearance = false;
  availability = Availability.in_stock;
  stock_qty = none;
  stock_qty_is_floor = false;
  restock_date = none;
  unit_count = some (pos 1);
  variant_key_observed = some "v";
  quality = Quality.ok;
  quality_reasons = [];
  adapter_version = "1";
  snapshot_ref = "s7";
  currency = "USD";
}

abbrev pub empty_store : Db ℕ
empty_store = record {
  now = now;
  current_date = 100;
  sellers =
      record {
        id = 1;
        retailer_id = 1;
        seller_key = "s";
        name = none;
        seller_type = SellerType.first_party;
      }
      ∷ [];
  retailers = record { id = 1; slug = "academy" } ∷ record { id = 2; slug = "jandh" } ∷ [];
  products = record { id = 1; category = "rods" } ∷ [];
  product_variants = record { id = 1; product_id = 1 } ∷ [];
  listings = first_listing ∷ second_listing ∷ [];
  offers = first_offer ∷ second_offer ∷ used_offer ∷ [];
  match_candidates = [];
  price_observations = second_price ∷ [];
  deals = [];
  crawl_tasks = [];
  next_seller_id = 2;
  next_listing_id = 3;
  next_offer_id = 4;
  next_observation_id = 8;
  next_deal_id = 1;
  next_task_id = 1;
}

abbrev pub deep : DealCandidate ℕ
deep = deep_candidate Rule.deep_discount_new Lane.verified (pos 4000) (pos 10000)

-- The deal of observation 10 at $40.00, with its row ACTIVE.
abbrev pub active_deal : Deal ℕ
active_deal =
    record (new_deal empty_store 1 deep 10 DetectedVia.product_page DealReferenceKind.current_new
      ReferenceDetail.no_detail (2390 * hour) none none none) {
        status = DealStatus.active;
        confirming_observation_id = some 11;
      }

abbrev pub store_with_deal : Db ℕ
store_with_deal = record empty_store { deals = active_deal ∷ []; next_deal_id = 2 }

-- A used deal that waits for its confirmation.
abbrev pub used_deal : OpenDeal
used_deal = record {
  id = 1;
  rule = Rule.used_vs_current_new;
  lane = Lane.used_lane;
  detected_observation_id = 10;
  detected_at = 2390 * hour;
  detected_via = DetectedVia.product_page;
  price_cents = pos 4000;
  status = DealStatus.confirming;
}

abbrev pub second_price_candidate : CrossRetailerCandidate
second_price_candidate = record {
  retailer_slug = "jandh";
  price_cents = pos 10000;
  is_r1_quality = false;
  match_status = "auto_gtin";
  variant_key_observed = some "v";
  unit_count = some (pos 1);
}

abbrev pub parsed : ParsedOffer
parsed = record {
  offer_key = "k";
  condition = Condition.new;
  condition_raw = none;
  seller_key = "s";
  seller_name = none;
  seller_type = SellerType.first_party;
  price_cents = some (pos 4000);
  shipping_cents = some (pos 500);
  claimed_reference_cents = none;
  claimed_reference_kind = none;
  on_clearance = false;
  availability = Availability.in_stock;
  stock_qty = none;
  stock_qty_is_floor = false;
  restock_date = none;
  unit_count = some (pos 1);
}

abbrev pub fetch : Fetched
fetch = record {
  retailer_id = 1;
  category = "rods";
  listing_url = "https://www.academy.com/rod";
  retailer_sku = "SKU-1";
  variant_key_observed = some "v";
  observed_id = 12;
  observed_at = now;
  page_type = PageType.product;
  quality = Quality.ok;
  reasons = [];
  category_floor_cents = some (pos 500);
  skip_confirm_task_enqueue = false;
}

abbrev pub no_rules : DealRules ℕ
no_rules = record { min_discount_pct = none; min_saving_cents = none }

abbrev pub recheck_rules : RecheckRules ℕ
recheck_rules = record { min_discount_pct = none; max_price_increase_pct = none }

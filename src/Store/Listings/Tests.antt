-- ===== src/Store/Listings/Tests.antt =====
-- A later fetch of a listing, and the theorems at it.
use fishing_deal_tracker.Prelude.{◌≡◌, refl, true, none, some, [], ◌∷◌}
use fishing_deal_tracker.Prelude.Int.{pos}
use fishing_deal_tracker.Store.Database.{Listing}
use fishing_deal_tracker.Store.Fixture.{empty_store, first_listing}
use fishing_deal_tracker.Store.Listings.{ListingValues, upsert_listing}
use fishing_deal_tracker.Store.Listings.Kept.{listing_of, upsert_listing-keeps_variant}

-- The SKU with another title, another URL and a barcode of another variant.
abbrev values : ListingValues
values = record {
  retailer_id = 1;
  retailer_sku = "SKU-1";
  retailer_product_code = none;
  url = "https://www.academy.com/other";
  title_raw = "Rod, new";
  brand_raw = none;
  model_raw = none;
  variant_label_raw = "";
  attributes_raw = "{}";
  attributes_norm = "{}";
  variant_key_observed = some "v";
  gtin14 = "00036000291452" ∷ [];
  mpn_raw = none;
  unit_count = some (pos 1);
  variant_id = some 9;
  match_status = "auto_gtin";
}

upsert_listing-keeps_variant_example :
    (after : Listing) × (listing_of (upsert_listing empty_store values).1 1 "SKU-1" ≡ some after)
    × (after.id ≡ (upsert_listing empty_store values).0)
    × (after.id ≡ 1)
    × (after.variant_id ≡ some 1)
    × (after.match_status ≡ "manual")
    × (after.url ≡ "https://www.academy.com/rod")
    × (after.retailer_product_code ≡ first_listing.retailer_product_code)
    × (after.brand_raw ≡ first_listing.brand_raw)
    × (after.model_raw ≡ first_listing.model_raw)
    × (after.mpn_raw ≡ first_listing.mpn_raw)
    × (after.title_raw ≡ "Rod, new")
    × (after.variant_label_raw ≡ "")
    × (after.attributes_raw ≡ "{}")
    × (after.attributes_norm ≡ "{}")
    × (after.variant_key_observed ≡ some "v")
    × (after.gtin14 ≡ "00036000291452" ∷ [])
    × (after.unit_count ≡ some (pos 1))
    × (after.is_active ≡ true)
    × (after.last_seen_at ≡ empty_store.now)
    × (after.consecutive_absent ≡ 0)
upsert_listing-keeps_variant_example =
    upsert_listing-keeps_variant empty_store values first_listing 1 refl refl

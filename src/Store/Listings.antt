-- ===== src/Store/Listings.antt =====
-- fpt/store/listings.py: sellers, listings and offers, each inserted once for its key and updated
-- from then on. The texts of attributes are JSON.
pub mod Keys
pub mod Kept
mod Tests
use fishing_deal_tracker.Prelude.{
  ℕ, ◌+◌, String, Bool, true, false, ◌&&◌, Option, none, some, List, is_some, if◌then◌else◌,
}
use fishing_deal_tracker.Prelude.Int.{ℤ}
use fishing_deal_tracker.Prelude.Eq.{◌==◌, nat_eq, string_eq}
use fishing_deal_tracker.Prelude.Query.{find?}
use fishing_deal_tracker.Prelude.Upsert.{upsert}
use fishing_deal_tracker.Domain.{
  Condition, ConditionGroup, SellerType, condition_groups, condition_value, get_str,
}
use fishing_deal_tracker.Store.Database.{Db, Listing, Offer, Seller}

-- `ON CONFLICT (retailer_id, seller_key)`
abbrev pub same_seller : Seller → Seller → Bool
same_seller a b = a.retailer_id == b.retailer_id && a.seller_key == b.seller_key

-- `ON CONFLICT (retailer_id, retailer_sku)`
abbrev pub same_listing : Listing → Listing → Bool
same_listing a b = a.retailer_id == b.retailer_id && a.retailer_sku == b.retailer_sku

-- `ON CONFLICT (listing_id, offer_key)`
abbrev pub same_offer : Offer → Offer → Bool
same_offer a b = a.listing_id == b.listing_id && a.offer_key == b.offer_key

-- `SET seller_type = EXCLUDED.seller_type`
abbrev pub seller_update : (excluded : Seller) → Seller → Seller
seller_update excluded s = record s { seller_type = excluded.seller_type }

-- `COALESCE(a, b)`
abbrev pub coalesce : Option ℕ → Option ℕ → Option ℕ
coalesce none b = b
coalesce (some a) b = some a

abbrev pub listing_update : (now : ℕ) (excluded : Listing) → Listing → Listing
listing_update now excluded l = record l {
  title_raw = excluded.title_raw;
  variant_label_raw = excluded.variant_label_raw;
  attributes_raw = excluded.attributes_raw;
  attributes_norm = excluded.attributes_norm;
  variant_key_observed = excluded.variant_key_observed;
  gtin14 = excluded.gtin14;
  unit_count = excluded.unit_count;
  variant_id = coalesce l.variant_id excluded.variant_id;
  match_status = if is_some l.variant_id then l.match_status else excluded.match_status;
  is_active = true;
  consecutive_absent = 0;
  last_seen_at = now;
}

abbrev pub offer_update : (now : ℕ) (excluded : Offer) → Offer → Offer
offer_update now excluded o = record o {
  condition = excluded.condition;
  condition_group = excluded.condition_group;
  condition_raw = excluded.condition_raw;
  is_active = true;
  vanished_at = none;
  last_seen_at = now;
}

-- The arguments of `upsert_listing`.
pub record ListingValues : Type 0 where
  pub retailer_id : ℕ
  pub retailer_sku : String
  pub retailer_product_code : Option String
  pub url : String
  pub title_raw : String
  pub brand_raw : Option String
  pub model_raw : Option String
  pub variant_label_raw : String
  pub attributes_raw : String
  pub attributes_norm : String
  pub variant_key_observed : Option String
  pub gtin14 : List String
  pub mpn_raw : Option String
  pub unit_count : Option ℤ
  pub variant_id : Option ℕ
  pub match_status : String

-- `CONDITION_GROUP[condition_value]`, which has every condition.
abbrev pub group_of : Condition → ConditionGroup
group_of c = get_str condition_groups (condition_value c) ConditionGroup.used

abbrev pub new_listing : (id now : ℕ) → ListingValues → Listing
new_listing id now v = record {
  id = id;
  retailer_id = v.retailer_id;
  retailer_sku = v.retailer_sku;
  retailer_product_code = v.retailer_product_code;
  url = v.url;
  title_raw = v.title_raw;
  brand_raw = v.brand_raw;
  model_raw = v.model_raw;
  variant_label_raw = v.variant_label_raw;
  attributes_raw = v.attributes_raw;
  attributes_norm = v.attributes_norm;
  variant_key_observed = v.variant_key_observed;
  gtin14 = v.gtin14;
  mpn_raw = v.mpn_raw;
  unit_count = v.unit_count;
  variant_id = v.variant_id;
  match_status = v.match_status;
  is_active = true;
  consecutive_absent = 0;
  last_seen_at = now;
}

abbrev pub new_seller :
    (id retailer_id : ℕ) (seller_key : String) → SellerType → Option String → Seller
new_seller id retailer_id seller_key seller_type name = record {
  id = id;
  retailer_id = retailer_id;
  seller_key = seller_key;
  name = name;
  seller_type = seller_type;
}

abbrev pub new_offer :
    (id listing_id seller_id : ℕ) (offer_key : String)
    → Condition
    → (condition_raw : Option String) (now : ℕ) → Offer
new_offer id listing_id seller_id offer_key condition condition_raw now = record {
  id = id;
  listing_id = listing_id;
  seller_id = seller_id;
  offer_key = offer_key;
  condition = condition;
  condition_group = group_of condition;
  condition_raw = condition_raw;
  is_active = true;
  vanished_at = none;
  last_seen_at = now;
}

-- `RETURNING id`: that of the row of the key, or the new one.
abbrev pub id_of_seller : Option Seller → (new : ℕ) → ℕ
id_of_seller none new = new
id_of_seller (some s) new = s.id

abbrev pub id_of_listing : Option Listing → (new : ℕ) → ℕ
id_of_listing none new = new
id_of_listing (some l) new = l.id

abbrev pub id_of_offer : Option Offer → (new : ℕ) → ℕ
id_of_offer none new = new
id_of_offer (some o) new = o.id

module _ {F : Type 0} where
  -- The sequence moves on a conflict as well.
  unfoldable pub get_or_create_seller :
      Db F → (retailer_id : ℕ) (seller_key : String) → SellerType → Option String → ℕ × Db F
  get_or_create_seller db retailer_id seller_key seller_type name =
      let row = new_seller db.next_seller_id retailer_id seller_key seller_type name in
      (
        id_of_seller (find? (same_seller row) db.sellers) db.next_seller_id,
        record db {
          sellers = upsert (same_seller row) (seller_update row) row db.sellers;
          next_seller_id = db.next_seller_id + 1;
        },
      )

  unfoldable pub upsert_listing : Db F → ListingValues → ℕ × Db F
  upsert_listing db v =
      let row = new_listing db.next_listing_id db.now v in
      (
        id_of_listing (find? (same_listing row) db.listings) db.next_listing_id,
        record db {
          listings = upsert (same_listing row) (listing_update db.now row) row db.listings;
          next_listing_id = db.next_listing_id + 1;
        },
      )

  unfoldable pub upsert_offer :
      Db F
      → (listing_id seller_id : ℕ) (offer_key : String) → Condition
      → (condition_raw : Option String) → ℕ × Db F
  upsert_offer db listing_id seller_id offer_key condition condition_raw =
      let row =
        new_offer db.next_offer_id listing_id seller_id offer_key condition condition_raw db.now in
      (
        id_of_offer (find? (same_offer row) db.offers) db.next_offer_id,
        record db {
          offers = upsert (same_offer row) (offer_update db.now row) row db.offers;
          next_offer_id = db.next_offer_id + 1;
        },
      )

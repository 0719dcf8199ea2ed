-- ===== src/Store/Listings/Keys.antt =====
-- That the upserts of fpt/store/listings.py keep the unique keys of their tables, and the offers'
-- condition groups.
use fishing_deal_tracker.Prelude.{
  ℕ, ◌≡◌, refl, String, ◌&&◌, Option, List, [], ◌∷◌, arith, Bool-cases, inl, inr, ==_iff,
}
use fishing_deal_tracker.Prelude.Eq.{◌==◌, nat_eq, string_eq}
use fishing_deal_tracker.Prelude.Order.{All}
use fishing_deal_tracker.Prelude.Upsert.{KeyLaws, UniqueBy, upsert, upsert-UniqueBy}
use fishing_deal_tracker.Domain.{Condition, SellerType}
use fishing_deal_tracker.Store.Database.{Db, Listing, Offer, Seller}
use fishing_deal_tracker.Store.Listings.{
  ListingValues, get_or_create_seller, group_of, listing_update, new_listing, new_offer, new_seller,
  offer_update, same_listing, same_offer, same_seller, seller_update, upsert_listing, upsert_offer,
}

-- The test of a key of a number and a text is symmetric.
key_symmetric : (a b : ℕ) (s t : String) → (a == b && s == t) ≡ (b == a && t == s)
key_symmetric a b s t =
    ground (arith, ==_iff a b, ==_iff b a, string_eq.test_iff s t, string_eq.test_iff t s)

seller_keys : (row : Seller) → KeyLaws same_seller (seller_update row)
seller_keys row = record {
  symmetric = λ x y. key_symmetric x.retailer_id y.retailer_id x.seller_key y.seller_key;
  same_key = λ x y. refl;
}

listing_keys : (now : ℕ) (row : Listing) → KeyLaws same_listing (listing_update now row)
listing_keys now row = record {
  symmetric = λ x y. key_symmetric x.retailer_id y.retailer_id x.retailer_sku y.retailer_sku;
  same_key = λ x y. refl;
}

offer_keys : (now : ℕ) (row : Offer) → KeyLaws same_offer (offer_update now row)
offer_keys now row = record {
  symmetric = λ x y. key_symmetric x.listing_id y.listing_id x.offer_key y.offer_key;
  same_key = λ x y. refl;
}

-- The CHECK of the table: the group is that of the condition.
abbrev pub IsGrouped : Offer → Type 0
IsGrouped o = o.condition_group ≡ group_of o.condition

module _ {F : Type 0} where
  -- The unique keys of the three tables, and the CHECK of the offers.
  pub record HasKeys (db : Db F) : Type 0 where
    pub sellers : UniqueBy same_seller db.sellers
    pub listings : UniqueBy same_listing db.listings
    pub offers : UniqueBy same_offer db.offers
    pub grouped : All IsGrouped db.offers

  pub get_or_create_seller-HasKeys :
      (db : Db F) (retailer_id : ℕ) (seller_key : String) (seller_type : SellerType)
      → (name : Option String) → HasKeys db
      → HasKeys (get_or_create_seller db retailer_id seller_key seller_type name).1
  unfolding get_or_create_seller
  get_or_create_seller-HasKeys db retailer_id seller_key seller_type name h =
      let row = new_seller db.next_seller_id retailer_id seller_key seller_type name in
      record {
        sellers =
            upsert-UniqueBy same_seller (seller_update row) (seller_keys row) row db.sellers
              h.sellers;
        listings = h.listings;
        offers = h.offers;
        grouped = h.grouped;
      }

  pub upsert_listing-HasKeys :
      (db : Db F) (v : ListingValues) → HasKeys db → HasKeys (upsert_listing db v).1
  unfolding upsert_listing
  upsert_listing-HasKeys db v h =
      let row = new_listing db.next_listing_id db.now v in
      record {
        sellers = h.sellers;
        listings =
            upsert-UniqueBy same_listing (listing_update db.now row) (listing_keys db.now row) row
              db.listings h.listings;
        offers = h.offers;
        grouped = h.grouped;
      }

upsert-IsGrouped :
    (now : ℕ) (row : Offer) (os : List Offer)
    → IsGrouped row
    → All IsGrouped os
    → All IsGrouped (upsert (same_offer row) (offer_update now row) row os)
upsert-IsGrouped now row [] g h = (g, tt)
upsert-IsGrouped now row (o ∷ os) g h = elim (Bool-cases (same_offer row o)) [
  | inl e ↦ rw e (g, h.1)
  | inr e ↦ rw e (h.0, upsert-IsGrouped now row os g h.1)
]

module _ {F : Type 0} where
  pub upsert_offer-HasKeys :
      (db : Db F) (listing_id seller_id : ℕ) (offer_key : String) (condition : Condition)
      → (condition_raw : Option String) → HasKeys db
      → HasKeys (upsert_offer db listing_id seller_id offer_key condition condition_raw).1
  unfolding upsert_offer
  upsert_offer-HasKeys db listing_id seller_id offer_key condition condition_raw h =
      let row =
        new_offer db.next_offer_id listing_id seller_id offer_key condition condition_raw db.now in
      record {
        sellers = h.sellers;
        listings = h.listings;
        offers =
            upsert-UniqueBy same_offer (offer_update db.now row) (offer_keys db.now row) row
              db.offers h.offers;
        grouped = upsert-IsGrouped db.now row db.offers refl h.grouped;
      }

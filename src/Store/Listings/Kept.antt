-- ===== src/Store/Listings/Kept.antt =====
-- What an upsert of fpt/store/listings.py leaves of a listing that is there already.
use fishing_deal_tracker.Prelude.{
  ℕ, ◌≡◌, refl, sym, ap, ◌∙◌, String, Bool, true, ◌&&◌, Option, none, some, arith, Option-cases,
  inl, inr, ==_iff,
}
use fishing_deal_tracker.Prelude.Eq.{◌==◌, nat_eq, string_eq}
use fishing_deal_tracker.Prelude.Query.{find?}
use fishing_deal_tracker.Prelude.Upsert.{find?-upsert, upsert-again}
use fishing_deal_tracker.Store.Database.{Db, Listing}
use fishing_deal_tracker.Store.Listings.{
  ListingValues, id_of_listing, listing_update, new_listing, upsert_listing,
}

-- The listing of a retailer's SKU.
abbrev pub is_listing_of : (retailer_id : ℕ) (retailer_sku : String) → Listing → Bool
is_listing_of retailer_id retailer_sku l =
    retailer_id == l.retailer_id && retailer_sku == l.retailer_sku

same_self :
    (v : ListingValues) → is_listing_of v.retailer_id v.retailer_sku (new_listing 0 0 v) ≡ true
same_self v =
    rw
      (
        (==_iff v.retailer_id v.retailer_id).1 refl,
        (string_eq.test_iff v.retailer_sku v.retailer_sku).1 refl,
      )
      refl

-- The same values once more change nothing.
new-again :
    (id id' now : ℕ) (v : ListingValues)
    → listing_update now (new_listing id' now v) (new_listing id now v) ≡ new_listing id now v
new-again id id' now v = ground arith

update-again :
    (id id' now : ℕ) (v : ListingValues) (l : Listing)
    → listing_update now (new_listing id' now v) (listing_update now (new_listing id now v) l)
      ≡ listing_update now (new_listing id now v) l
update-again id id' now v l = ground arith

module _ {F : Type 0} where
  abbrev pub listing_of : Db F → (retailer_id : ℕ) (retailer_sku : String) → Option Listing
  listing_of db retailer_id retailer_sku =
      find? (is_listing_of retailer_id retailer_sku) db.listings

  -- What an upsert makes of the listing that was there, if any.
  abbrev pub upserted : Db F → ListingValues → Option Listing → Listing
  upserted db v none = new_listing db.next_listing_id db.now v
  upserted db v (some l) = listing_update db.now (new_listing db.next_listing_id db.now v) l

  -- After an upsert, the listing of the retailer's SKU is the one that was there, updated, or else
  -- the new one, and its id is what the call returns.
  upsert_listing-listing_of :
      (db : Db F) (v : ListingValues) (before : Option Listing)
      → listing_of db v.retailer_id v.retailer_sku ≡ before
      → (listing_of (upsert_listing db v).1 v.retailer_id v.retailer_sku
          ≡ some (upserted db v before))
        × ((upsert_listing db v).0 ≡ (upserted db v before).id)
  unfolding upsert_listing
  upsert_listing-listing_of db v before e =
      let row = new_listing db.next_listing_id db.now v in
      let after =
        find?-upsert (is_listing_of v.retailer_id v.retailer_sku) (listing_update db.now row) row
          (λ x q. q) (same_self v) db.listings in
      elim (Option-cases before) [
        | inl n ↦ rw n (
          after
              ∙ ap (λ o. elim o [ none ↦ some row | some x ↦ some (listing_update db.now row x) ])
                  (e ∙ n),
          ap (λ o. id_of_listing o db.next_listing_id) (e ∙ n),
        )
        | inr (l, n) ↦ rw n (
          after
              ∙ ap (λ o. elim o [ none ↦ some row | some x ↦ some (listing_update db.now row x) ])
                  (e ∙ n),
          ap (λ o. id_of_listing o db.next_listing_id) (e ∙ n),
        )
      ]

  -- A listing that has its variant keeps it, whatever a later fetch of its SKU says, with its match,
  -- its id, its URL, its product code, its brand, its model and its MPN; its title, its label, its
  -- attributes, its observed key, its barcodes and its pack count are those of the fetch, and it is
  -- active, last seen now and absent from no sweep.
  pub upsert_listing-keeps_variant :
      (db : Db F) (v : ListingValues) (l : Listing) (variant : ℕ)
      → listing_of db v.retailer_id v.retailer_sku ≡ some l
      → l.variant_id ≡ some variant
      → (after : Listing) × (listing_of (upsert_listing db v).1 v.retailer_id v.retailer_sku
          ≡ some after)
        × (after.id ≡ (upsert_listing db v).0)
        × (after.id ≡ l.id)
        × (after.variant_id ≡ some variant)
        × (after.match_status ≡ l.match_status)
        × (after.url ≡ l.url)
        × (after.retailer_product_code ≡ l.retailer_product_code)
        × (after.brand_raw ≡ l.brand_raw)
        × (after.model_raw ≡ l.model_raw)
        × (after.mpn_raw ≡ l.mpn_raw)
        × (after.title_raw ≡ v.title_raw)
        × (after.variant_label_raw ≡ v.variant_label_raw)
        × (after.attributes_raw ≡ v.attributes_raw)
        × (after.attributes_norm ≡ v.attributes_norm)
        × (after.variant_key_observed ≡ v.variant_key_observed)
        × (after.gtin14 ≡ v.gtin14)
        × (after.unit_count ≡ v.unit_count)
        × (after.is_active ≡ true)
        × (after.last_seen_at ≡ db.now)
        × (after.consecutive_absent ≡ 0)
  upsert_listing-keeps_variant db v l variant e k =
      let r = upsert_listing-listing_of db v (some l) e in
      (
        upserted db v (some l),
        r.0,
        sym r.1,
        refl,
        rw k refl,
        rw k refl,
        refl,
        refl,
        refl,
        refl,
        refl,
        refl,
        refl,
        refl,
        refl,
        refl,
        refl,
        refl,
        refl,
        refl,
        refl,
      )

  -- The same listing stored twice is stored once: the second upsert, of the same values at the same
  -- time, returns the same id and changes no row.
  pub upsert_listing-again :
      (db : Db F) (v : ListingValues)
      → ((upsert_listing (upsert_listing db v).1 v).0 ≡ (upsert_listing db v).0)
        × ((upsert_listing (upsert_listing db v).1 v).1.listings ≡ (upsert_listing db v).1.listings)
  unfolding upsert_listing
  upsert_listing-again db v =
      let once = (upsert_listing db v).1 in
      let first =
        upsert_listing-listing_of db v (listing_of db v.retailer_id v.retailer_sku) refl in
      let second = upsert_listing-listing_of once v _ first.0 in
      (
        second.1 ∙ sym first.1,
        upsert-again (is_listing_of v.retailer_id v.retailer_sku)
            (listing_update db.now (new_listing db.next_listing_id db.now v))
            (listing_update db.now (new_listing once.next_listing_id db.now v))
            (new_listing db.next_listing_id db.now v) (new_listing once.next_listing_id db.now v)
            (same_self v) (λ x q. q) (new-again db.next_listing_id once.next_listing_id db.now v)
            (update-again db.next_listing_id once.next_listing_id db.now v) db.listings,
      )

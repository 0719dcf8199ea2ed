-- ===== src/Store/Queries/Scope.antt =====
-- What the reference lookups of fpt/store/deals.py let through.
use fishing_deal_tracker.Prelude.{
  ℕ, ◌+◌, ◌*◌, ◌≤◌, String, ◌≡◌, ◌≢◌, refl, Bool, true, Option, none, some, List, [], ◌∷◌, map,
  arith, not, ◌&&◌, leb,
}
use fishing_deal_tracker.Prelude.Int.{ℤ}
use fishing_deal_tracker.Prelude.Eq.{
  nat_eq, string_eq, int_eq, option_eq, int_beq, int_beq_iff, option_beq_iff, ◌==◌,
}
use fishing_deal_tracker.Prelude.{==_iff, ◌==◌ as nat_beq, ◌∙◌}
use fishing_deal_tracker.Prelude.Order.{
  All, In, keep, sort, All-self, All-keep, All-kept, All-sort, All-pair,
}
use fishing_deal_tracker.Prelude.Query.{
  head?, distinct_on, filter_map, flat_map, All-filter_map, All-flat_map, All-distinct_on,
}
use fishing_deal_tracker.Domain.{Availability, ConditionGroup, Quality, is_in_stock, group_beq}
use fishing_deal_tracker.Deals.References.{CrossRetailerCandidate}
use fishing_deal_tracker.Deals.References.Lowest.{
  IsVerifiedLink, All-resolve_cross_retailer_new, resolve_cross_retailer_new-lowest,
}
use fishing_deal_tracker.Store.Database.{Db, Listing, Observation, Offer}
use fishing_deal_tracker.Store.Queries.{
  CrossRow, hour, cross_retailer_max_age_days, is_ok, latest_in_stock, cross_row, cross_rows,
  resolve_cross_retailer, retailer_order, newer,
}

module _ {F : Type 0} (db : Db F) where
  -- An observation that may back a current price: of the offer, OK, in stock, at most `age` old.
  pub record IsCurrent (offer_id age : ℕ) (po : Observation) : Type 0 where
    pub stored : In po db.price_observations
    pub of_offer : po.offer_id ≡ offer_id
    pub quality : po.quality ≡ Quality.ok
    pub stock : po.availability ≡ Availability.in_stock
    pub recent : db.now ≤ po.observed_at + age

  head-All :
      (P : Observation → Type 0) (xs : List Observation) (po : Observation)
      → head? xs ≡ some po
      → All P xs
      → P po
  head-All P [] po e h = absurd (cc)
  head-All P (x ∷ xs) po e h = let same : po ≡ x = cc e in rw same h.0

  abbrev current_test : ℕ → ℕ → Observation → Bool
  current_test offer_id age po =
      po.offer_id == offer_id
      && is_ok po.quality
      && is_in_stock po.availability
      && leb db.now (po.observed_at + age)

  passes-IsCurrent :
      (offer_id age : ℕ) (po : Observation)
      → In po db.price_observations
      → current_test offer_id age po ≡ true
      → IsCurrent offer_id age po
  passes-IsCurrent offer_id age po i t = record {
    stored = i;
    of_offer = ground arith;
    quality = ground arith;
    stock = ground arith;
    recent = ground arith;
  }

  -- The observation that `latest_in_stock` finds is a current one: stored, of the offer, OK, in stock,
  -- and at most `age` old.
  pub latest_in_stock-IsCurrent :
      (offer_id age : ℕ) (po : Observation)
      → latest_in_stock db offer_id age ≡ some po
      → IsCurrent offer_id age po
  unfolding latest_in_stock
  latest_in_stock-IsCurrent offer_id age po e =
      let test = current_test offer_id age in
      let kept = keep test db.price_observations in
      let rows =
        All-pair (λ x. In x db.price_observations) (λ x. test x ≡ true) kept
          (All-keep _ test db.price_observations (All-self db.price_observations))
          (All-kept test db.price_observations) in
      let k =
        head-All (λ x. In x db.price_observations × (test x ≡ true)) (sort newer kept) po e
          (All-sort newer _ kept rows) in
      passes-IsCurrent offer_id age po k.0 k.1

  -- What stands behind a cross-retailer reference: another active new offer,
  -- its listing with the same variant and the same pack count, and a current observation of it.
  pub record Evidence (offer_id variant_id : ℕ) (unit_count : ℤ) (c : CrossRetailerCandidate)
      : Type 0 where
    pub listing : Listing
    pub offer : Offer
    pub observation : Observation
    pub listed : In listing db.listings
    pub offered : In offer db.offers
    pub at_listing : offer.listing_id ≡ listing.id
    pub other_offer : offer.id ≢ offer_id
    pub is_new : offer.condition_group ≡ ConditionGroup.new_group
    pub active : offer.is_active ≡ true
    pub variant : listing.variant_id ≡ some variant_id
    pub pack : listing.unit_count ≡ some unit_count
    pub reported_pack : c.unit_count ≡ some unit_count
    pub reported_link : c.match_status ≡ listing.match_status
    pub current : IsCurrent offer.id (cross_retailer_max_age_days * (24 * hour)) observation
    pub price : observation.price_cents ≡ some c.price_cents

  -- The tests that a row has passed, and what it reports.
  cross_row-tests :
      (offer_id variant_id : ℕ) (unit_count : ℤ) (category : Option String) (l : Listing)
      (o : Offer)
      → (row : CrossRow) → cross_row db offer_id variant_id unit_count category l o ≡ some row
      → (po : Observation) × (latest_in_stock db o.id (cross_retailer_max_age_days * (24 * hour))
          ≡ some po)
        × (po.price_cents ≡ some row.candidate.price_cents)
        × ((o.listing_id == l.id
              && group_beq o.condition_group ConditionGroup.new_group
              && o.is_active)
            ≡ true)
        × ((l.variant_id == some variant_id && not (o.id == offer_id)) ≡ true)
        × ((l.unit_count == some unit_count) ≡ true)
        × (row.candidate.unit_count ≡ l.unit_count)
        × (row.candidate.match_status ≡ l.match_status)
  unfolding cross_row
  cross_row-tests offer_id variant_id unit_count category l o row e = ground arith

  cross_row-Evidence :
      (offer_id variant_id : ℕ) (unit_count : ℤ) (category : Option String) (l : Listing)
      (o : Offer)
      → (row : CrossRow) → In l db.listings
      → In o db.offers
      → cross_row db offer_id variant_id unit_count category l o ≡ some row
      → Evidence offer_id variant_id unit_count row.candidate
  cross_row-Evidence offer_id variant_id unit_count category l o row il io e =
      let (po, epo, price, test, same, pack, units, link) =
        cross_row-tests offer_id variant_id unit_count category l o row e in
      let pack' = (option_beq_iff int_beq int_beq_iff l.unit_count (some unit_count)).0 pack in
      record {
        listing = l;
        offer = o;
        observation = po;
        listed = il;
        offered = io;
        at_listing = ground arith;
        other_offer = λ p. ground arith;
        is_new = ground arith;
        active = ground arith;
        variant = (option_beq_iff nat_beq ==_iff l.variant_id (some variant_id)).0 (ground arith);
        pack = pack';
        reported_pack = units ∙ pack';
        reported_link = link;
        current = latest_in_stock-IsCurrent o.id _ po epo;
        price = price;
      }

  All-candidates :
      (P : CrossRetailerCandidate → Type 0) (rows : List CrossRow)
      → All (λ row. P row.candidate) rows
      → All P (map (λ row. row.candidate) rows)
  All-candidates P [] h = tt
  All-candidates P (row ∷ rows) h = (h.0, All-candidates P rows h.1)

  -- A cross-retailer reference exists for a new offer with a known variant and pack count only,
  -- has a link that verifies it, and rests on a current observation of another active new offer of
  -- the same variant and the same pack count; an unknown pack count never compares.
  pub resolve_cross_retailer-Evidence :
      (offer_id : ℕ) (variant_id : Option ℕ) (group : ConditionGroup) (unit_count : Option ℤ)
      → (category : Option String) (c : CrossRetailerCandidate)
      → resolve_cross_retailer db offer_id variant_id group unit_count category ≡ some c
      → (v : ℕ) × (u : ℤ) × (variant_id ≡ some v)
        × (unit_count ≡ some u)
        × (group ≡ ConditionGroup.new_group)
        × IsVerifiedLink c.match_status
        × Evidence offer_id v u c
  unfolding resolve_cross_retailer cross_rows
  resolve_cross_retailer-Evidence offer_id none group unit_count category c e = absurd (cc)
  resolve_cross_retailer-Evidence offer_id (some v) ConditionGroup.new_group none category c e =
      absurd (cc)
  resolve_cross_retailer-Evidence offer_id (some v) ConditionGroup.new_group (some u) category c e =
      let rows =
        flat_map (λ l. filter_map (cross_row db offer_id v u category l) db.offers) db.listings in
      let P : CrossRow → Type 0 = λ row. Evidence offer_id v u row.candidate in
      let all : All P rows = All-flat_map P _ db.listings (λ l il.
        All-filter_map P (cross_row db offer_id v u category l) db.offers
          (λ o row io r. cross_row-Evidence offer_id v u category l o row il io r)) in
      let chosen =
        All-candidates (Evidence offer_id v u)
          (distinct_on (λ row. row.retailer_id) (sort retailer_order rows))
          (All-distinct_on P (λ row. row.retailer_id) (sort retailer_order rows)
            (All-sort retailer_order P rows all)) in
      (
        v,
        u,
        refl,
        refl,
        refl,
        (resolve_cross_retailer_new-lowest _ c e).0,
        All-resolve_cross_retailer_new (Evidence offer_id v u) _ c e chosen,
      )
  resolve_cross_retailer-Evidence offer_id (some v) _ unit_count category c e = absurd (cc)

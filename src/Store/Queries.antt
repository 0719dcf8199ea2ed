-- ===== src/Store/Queries.antt =====
-- The reads of fpt/store/deals.py: an offer's context and the references that detection and
-- confirmation measure against, each resolved against the tables as they stand.
pub mod Scope
pub use fishing_deal_tracker.Store.Evidence.{
  hour, own_history_window_days, cross_retailer_max_age_days, current_new_max_age_hours, is_ok,
  is_first_party, OfferContext, CurrentNewReference, ObservationIdentity, CrossRow, CurrentNewRow,
  newest_of_day, newer, to_day, has_conflict, retailer_order, new_retailer_order, landed,
  to_current_new,
}
use fishing_deal_tracker.Prelude.{
  ℕ, ◌+◌, ◌*◌, String, Bool, true, false, not, ◌&&◌, ◌||◌, Option, none, some, List, [], ◌∷◌, ltb,
  leb, map, is_some,
}
use fishing_deal_tracker.Prelude.Int.{ℤ, ◌+ℤ◌}
use fishing_deal_tracker.Prelude.Eq.{◌==◌, nat_eq, string_eq, int_eq, option_eq}
use fishing_deal_tracker.Prelude.Order.{keep, sort, min?}
use fishing_deal_tracker.Prelude.Query.{
  ◌>>=◌, ◌>>◌, where_, find?, head?, distinct_on, filter_map, flat_map,
}
use fishing_deal_tracker.Domain.{
  Availability, ConditionGroup, Quality, SellerType, group_beq, is_in_stock,
}
use fishing_deal_tracker.Deals.References.{
  CrossRetailerCandidate, NonClearanceDay, OwnHistoryResult, VerifiedReference,
  resolve_cross_retailer_new, resolve_own_history_median, resolve_used_reference,
  resolve_verified_reference,
}
use fishing_deal_tracker.Store.Database.{
  Db, Listing, MatchCandidate, Observation, Offer, Retailer, Seller,
}

module _ {F : Type 0} (db : Db F) where
  -- `LEFT JOIN product_variants … LEFT JOIN products`
  unfoldable pub category_of : Option ℕ → Option String
  category_of none = none
  category_of (some variant_id) = do
    pv ← find? (λ pv. pv.id == variant_id) db.product_variants
    p ← find? (λ p. p.id == pv.product_id) db.products
    some p.category

  unfoldable pub get_offer_context : ℕ → Option OfferContext
  get_offer_context offer_id = do
    o ← find? (λ o. o.id == offer_id) db.offers
    l ← find? (λ l. l.id == o.listing_id) db.listings
    s ← find? (λ s. s.id == o.seller_id) db.sellers
    some (record {
      condition_group = o.condition_group;
      variant_id = l.variant_id;
      listing_id = l.id;
      match_status = l.match_status;
      seller_type = s.seller_type;
      retailer_id = l.retailer_id;
      unit_count = l.unit_count;
      variant_key_observed = l.variant_key_observed;
      category = category_of l.variant_id;
    })

  abbrev pub in_own_history : ℕ → Observation → Bool
  in_own_history offer_id po =
      po.offer_id == offer_id
      && is_ok po.quality
      && not po.on_clearance
      && leb db.current_date (po.observed_date_et + own_history_window_days)

  -- R1, with the defaults of `resolve_own_history_median`.
  unfoldable pub resolve_own_history : ℕ → Option OwnHistoryResult
  resolve_own_history offer_id =
      let rows = sort newest_of_day (keep (in_own_history offer_id) db.price_observations) in
      resolve_own_history_median (filter_map to_day (distinct_on (λ po. po.observed_date_et) rows))
        21 30

  -- The lateral join: the newest OK, in-stock observation that is at most `age` old.
  unfoldable pub latest_in_stock : ℕ → (age : ℕ) → Option Observation
  latest_in_stock offer_id age = head? (
      sort newer (
        keep
          (λ po.
            po.offer_id == offer_id
            && is_ok po.quality
            && is_in_stock po.availability
            && leb db.now (po.observed_at + age))
          db.price_observations))

  -- The row that a listing and one of its offers give to the cross-retailer query.
  unfoldable pub cross_row :
      (offer_id variant_id : ℕ) (unit_count : ℤ) (category : Option String)
      → Listing
      → Offer
      → Option CrossRow
  cross_row offer_id variant_id unit_count category l o = do
    where_ (
        o.listing_id == l.id && group_beq o.condition_group ConditionGroup.new_group && o.is_active)
    s ← find? (λ s. s.id == o.seller_id) db.sellers
    where_ (is_first_party s.seller_type)
    r ← find? (λ r. r.id == l.retailer_id) db.retailers
    product_category ← category_of l.variant_id
    po ← latest_in_stock o.id (cross_retailer_max_age_days * (24 * hour))
    where_ (l.variant_id == some variant_id && not (o.id == offer_id))
    where_ (l.unit_count == some unit_count)
    where_ (elim category [ none ↦ true | some c ↦ product_category == c ])
    where_ (not (is_some (find? (has_conflict l.id variant_id) db.match_candidates)))
    price ← po.price_cents
    some (record {
      retailer_id = l.retailer_id;
      observed_at = po.observed_at;
      candidate = record {
        retailer_slug = r.slug;
        price_cents = price;
        is_r1_quality = false;
        match_status = l.match_status;
        variant_key_observed = l.variant_key_observed;
        unit_count = l.unit_count;
      };
    })

  unfoldable pub cross_rows :
      (offer_id variant_id : ℕ) (unit_count : ℤ) (category : Option String) → List CrossRow
  cross_rows offer_id variant_id unit_count category =
      flat_map (λ l. filter_map (cross_row offer_id variant_id unit_count category l) db.offers)
        db.listings

  -- R2: for a new offer with a variant and a pack count only.
  unfoldable pub resolve_cross_retailer :
      (offer_id : ℕ) (variant_id : Option ℕ)
      → ConditionGroup
      → (unit_count : Option ℤ) → (category : Option String) → Option CrossRetailerCandidate
  resolve_cross_retailer offer_id variant_id condition_group unit_count category = do
    variant_id ← variant_id
    where_ (group_beq condition_group ConditionGroup.new_group)
    unit_count ← unit_count
    resolve_cross_retailer_new (
        map (λ row. row.candidate)
          (distinct_on (λ row. row.retailer_id)
            (sort retailer_order (cross_rows offer_id variant_id unit_count category))))

  -- The row that a listing and one of its offers give to the current-new query.
  unfoldable pub current_new_row :
      (variant_id exclude_offer_id : ℕ) → Listing → Offer → Option CurrentNewRow
  current_new_row variant_id exclude_offer_id l o = do
    where_ (
        o.listing_id == l.id && group_beq o.condition_group ConditionGroup.new_group && o.is_active)
    po ← latest_in_stock o.id (current_new_max_age_hours * hour)
    where_ (l.variant_id == some variant_id && not (o.id == exclude_offer_id))
    some (record {
      retailer_id = l.retailer_id;
      observed_at = po.observed_at;
      landed_price_cents = landed po.price_cents po.shipping_cents;
      variant_key_observed = l.variant_key_observed;
      unit_count = l.unit_count;
    })

  -- The rows of both current-new lookups, those with no price left out.
  unfoldable pub current_new_rows : (variant_id exclude_offer_id : ℕ) → List CurrentNewReference
  current_new_rows variant_id exclude_offer_id = filter_map to_current_new (
      distinct_on (λ row. row.retailer_id)
        (sort new_retailer_order (
          flat_map (λ l. filter_map (current_new_row variant_id exclude_offer_id l) db.offers)
            db.listings)))

  unfoldable pub resolve_current_new_reference_with_identity :
      (variant_id : Option ℕ) (exclude_offer_id : ℕ) → Option CurrentNewReference
  resolve_current_new_reference_with_identity variant_id exclude_offer_id = do
    variant_id ← variant_id
    min? (λ r. r.cents) (current_new_rows variant_id exclude_offer_id)

  -- U1
  unfoldable pub resolve_current_new_for_variant :
      (variant_id : Option ℕ) (exclude_offer_id : ℕ) → Option ℤ
  resolve_current_new_for_variant variant_id exclude_offer_id = do
    variant_id ← variant_id
    resolve_used_reference (map (λ r. r.cents) (current_new_rows variant_id exclude_offer_id))

  unfoldable pub resolve_verified_reference_for_offer : ℕ → Option VerifiedReference
  resolve_verified_reference_for_offer offer_id = do
    ctx ← get_offer_context offer_id
    resolve_verified_reference (resolve_own_history offer_id)
        (resolve_cross_retailer offer_id ctx.variant_id ctx.condition_group ctx.unit_count
          ctx.category)
        none

  unfoldable pub get_observation_identity : Option ℕ → Option ObservationIdentity
  get_observation_identity none = none
  get_observation_identity (some observation_id) = do
    row ← find? (λ po. po.id == observation_id) db.price_observations
    some (record { variant_key_observed = row.variant_key_observed; unit_count = row.unit_count })

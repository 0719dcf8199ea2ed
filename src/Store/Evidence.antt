-- ===== src/Store/Evidence.antt =====
-- What the reads of fpt/store/deals.py return: the rows of their queries, the limits of age and the
-- orders that a row is chosen by.
use fishing_deal_tracker.Prelude.{
  ℕ, String, Bool, true, false, ◌&&◌, ◌||◌, Option, none, some, ltb, leb,
}
use fishing_deal_tracker.Prelude.Int.{ℤ, ◌+ℤ◌}
use fishing_deal_tracker.Prelude.Eq.{◌==◌, nat_eq, string_eq, int_eq, option_eq}
use fishing_deal_tracker.Prelude.Query.{◌>>=◌}
use fishing_deal_tracker.Domain.{ConditionGroup, Quality, SellerType}
use fishing_deal_tracker.Deals.References.{CrossRetailerCandidate, NonClearanceDay}
use fishing_deal_tracker.Store.Database.{MatchCandidate, Observation}

abbrev pub hour : ℕ
hour = 3_600_000_000

abbrev pub own_history_window_days : ℕ
own_history_window_days = 90

abbrev pub cross_retailer_max_age_days : ℕ
cross_retailer_max_age_days = 7

abbrev pub current_new_max_age_hours : ℕ
current_new_max_age_hours = 48

abbrev pub is_ok : Quality → Bool
is_ok Quality.ok = true
is_ok _ = false

abbrev pub is_first_party : SellerType → Bool
is_first_party SellerType.first_party = true
is_first_party _ = false

-- What `get_offer_context` returns.
pub record OfferContext : Type 0 where
  pub condition_group : ConditionGroup
  pub variant_id : Option ℕ
  pub listing_id : ℕ
  pub match_status : String
  pub seller_type : SellerType
  pub retailer_id : ℕ
  pub unit_count : Option ℤ
  pub variant_key_observed : Option String
  pub category : Option String

pub record CurrentNewReference : Type 0 where
  pub cents : ℤ
  pub variant_key_observed : Option String
  pub unit_count : Option ℤ

-- What `get_observation_identity` returns.
pub record ObservationIdentity : Type 0 where
  pub variant_key_observed : Option String
  pub unit_count : Option ℤ

-- A row of the cross-retailer query, with the columns that it is ordered by.
pub record CrossRow : Type 0 where
  pub retailer_id : ℕ
  pub observed_at : ℕ
  pub candidate : CrossRetailerCandidate

pub record CurrentNewRow : Type 0 where
  pub retailer_id : ℕ
  pub observed_at : ℕ
  pub landed_price_cents : Option ℤ
  pub variant_key_observed : Option String
  pub unit_count : Option ℤ

-- Rows in the order `day ASC, observed_at DESC`.
abbrev pub newest_of_day : Observation → Observation → Bool
newest_of_day a b =
    ltb a.observed_date_et b.observed_date_et
    || a.observed_date_et == b.observed_date_et && leb b.observed_at a.observed_at

abbrev pub newer : Observation → Observation → Bool
newer a b = leb b.observed_at a.observed_at

-- A row without a price is left out: fpt/pipeline/validate.py lets no such observation be OK.
abbrev pub to_day : Observation → Option NonClearanceDay
to_day row = do
  price ← row.price_cents
  some (record { day = row.observed_date_et; price_cents = price })

abbrev pub has_conflict : ℕ → ℕ → MatchCandidate → Bool
has_conflict listing_id variant_id mc =
    mc.listing_id == listing_id && mc.variant_id == variant_id && mc.reason == "gtin_attr_conflict"

-- `DISTINCT ON (retailer_id) … ORDER BY retailer_id, observed_at DESC`.
abbrev pub retailer_order : CrossRow → CrossRow → Bool
retailer_order a b =
    ltb a.retailer_id b.retailer_id
    || a.retailer_id == b.retailer_id && leb b.observed_at a.observed_at

abbrev pub new_retailer_order : CurrentNewRow → CurrentNewRow → Bool
new_retailer_order a b =
    ltb a.retailer_id b.retailer_id
    || a.retailer_id == b.retailer_id && leb b.observed_at a.observed_at

-- `COALESCE(price_cents + shipping_cents, price_cents)`
abbrev pub landed : Option ℤ → Option ℤ → Option ℤ
landed none shipping = none
landed (some price) none = some price
landed (some price) (some shipping) = some (price +ℤ shipping)

abbrev pub to_current_new : CurrentNewRow → Option CurrentNewReference
to_current_new row = do
  cents ← row.landed_price_cents
  some (record {
    cents = cents;
    variant_key_observed = row.variant_key_observed;
    unit_count = row.unit_count;
  })

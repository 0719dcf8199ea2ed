-- ===== src/Deals/References.antt =====
-- fpt/deals/references.py: the reference prices that a deal is measured against.
pub mod Rounded
pub mod Median
pub mod Lowest
pub mod Safe
mod Tests
use fishing_deal_tracker.Prelude.{
  ℕ, zero, suc, ◌+◌, ◌-◌, ◌/◌, ◌%◌, String, Bool, true, false, ◌||◌, Option, none, some, List, [],
  ◌∷◌, ◌++◌, map, length, get_elem?, ltb, leb, ◌==◌, or_default, if◌then◌else◌,
}
use fishing_deal_tracker.Prelude.Int.{ℤ, pos, negsuc, ◌+ℤ◌, leb_ℤ}
use fishing_deal_tracker.Prelude.Eq.{◌==◌ as same, string_eq}
use fishing_deal_tracker.Prelude.Order.{keep, min?, sort}
use fishing_deal_tracker.Floats.{Floats}

-- A date is a number of days.
pub record NonClearanceDay : Type 0 where
  pub day : ℕ
  pub price_cents : ℤ

pub record OwnHistoryResult : Type 0 where
  pub median_cents : ℤ
  pub observed_days : ℕ
  pub span_days : ℕ

-- `round(s / 2)`, to even on a half. Prices fit in 32 bits, so the half is exact as a float.
abbrev pub half_even : ℕ → ℕ
half_even s = if s % 2 == 0 then s / 2 else if s / 2 % 2 == 0 then s / 2 else s / 2 + 1

abbrev pub negate : ℕ → ℤ
negate zero = pos 0
negate (suc n) = negsuc n

abbrev pub round_half : ℤ → ℤ
round_half (pos s) = pos (half_even s)
round_half (negsuc n) = negate (half_even (suc n))

abbrev pub item_at : List ℤ → ℕ → ℤ
item_at xs i = or_default (get_elem? xs i) (pos 0)

-- `round(statistics.median(data))` of a list with an item: the middle one, or the mean of the two.
unfoldable pub rounded_median : List ℤ → ℤ
rounded_median xs =
    let ordered = sort leb_ℤ xs in
    let n = length xs in
    if n % 2 == 1
    then item_at ordered (n / 2)
    else round_half (item_at ordered (n / 2 - 1) +ℤ item_at ordered (n / 2))

abbrev pub earlier : NonClearanceDay → NonClearanceDay → Bool
earlier a b = leb a.day b.day

-- The day of the last item of `d ∷ ds`.
abbrev pub last_day : NonClearanceDay → List NonClearanceDay → ℕ
last_day d [] = d.day
last_day d (e ∷ es) = last_day e es

-- `(ordered[-1].day - ordered[0].day).days`
abbrev pub span : List NonClearanceDay → ℕ
span [] = 0
span (d ∷ ds) = last_day d ds - d.day

-- The evidence bar and the median, of the days in order.
unfoldable pub own_history_of :
    List NonClearanceDay → (min_days min_span_days : ℕ) → Option OwnHistoryResult
own_history_of ordered min_days min_span_days =
    if ltb (length ordered) min_days || ltb (span ordered) min_span_days
    then none
    else some (record {
      median_cents = rounded_median (map (λ x. x.price_cents) ordered);
      observed_days = length ordered;
      span_days = span ordered;
    })

unfoldable pub resolve_own_history_median :
    List NonClearanceDay → (min_days min_span_days : ℕ) → Option OwnHistoryResult
resolve_own_history_median [] min_days min_span_days = none
resolve_own_history_median (d ∷ ds) min_days min_span_days =
    own_history_of (sort earlier (d ∷ ds)) min_days min_span_days

pub record CrossRetailerCandidate : Type 0 where
  pub retailer_slug : String
  pub price_cents : ℤ
  pub is_r1_quality : Bool
  pub match_status : String
  pub variant_key_observed : Option String
  pub unit_count : Option ℤ

-- `c.match_status in ("auto_gtin", "auto_mpn", "manual")`
abbrev pub is_verifiable : CrossRetailerCandidate → Bool
is_verifiable c =
    same c.match_status "auto_gtin"
    || same c.match_status "auto_mpn"
    || same c.match_status "manual"

unfoldable pub resolve_cross_retailer_new :
    List CrossRetailerCandidate → Option CrossRetailerCandidate
resolve_cross_retailer_new candidates = min? (λ c. c.price_cents) (keep is_verifiable candidates)

pub data ReferenceKind : Type 0 where
  own_history_median_90d cross_retailer_new data_api_history : ReferenceKind

-- The `detail` dict, by its keys.
pub data ReferenceDetail : Type 0 where
  history : (days span_days : ℕ) → ReferenceDetail
  cross :
      (retailer match_status : String)
      → (variant_key_observed : Option String) (unit_count : Option ℤ) → ReferenceDetail
  no_detail : ReferenceDetail

pub record VerifiedReference : Type 0 where
  pub kind : ReferenceKind
  pub cents : ℤ
  pub detail : ReferenceDetail

abbrev pub from_history : OwnHistoryResult → VerifiedReference
from_history h = record {
  kind = ReferenceKind.own_history_median_90d;
  cents = h.median_cents;
  detail = ReferenceDetail.history h.observed_days h.span_days;
}

abbrev pub from_cross : CrossRetailerCandidate → VerifiedReference
from_cross c = record {
  kind = ReferenceKind.cross_retailer_new;
  cents = c.price_cents;
  detail = ReferenceDetail.cross c.retailer_slug c.match_status c.variant_key_observed c.unit_count;
}

abbrev pub from_data_api : ℤ → VerifiedReference
from_data_api cents = record {
  kind = ReferenceKind.data_api_history;
  cents = cents;
  detail = ReferenceDetail.no_detail;
}

-- `if x is not None: candidates.append(make(x))`
abbrev pub listed {ℓ κ} : {A : Type ℓ} {B : Type κ} → (A → B) → Option A → List B
listed make none = []
listed make (some a) = make a ∷ []

unfoldable pub resolve_verified_reference :
    Option OwnHistoryResult → Option CrossRetailerCandidate → Option ℤ → Option VerifiedReference
resolve_verified_reference own_history cross_retailer data_api_median_cents =
    min? (λ r. r.cents)
      (listed from_history own_history
        ++ (listed from_cross cross_retailer ++ listed from_data_api data_api_median_cents))

module _ {F : Type 0} ⦃fl : Floats F⦄ where
  -- `ratio` is 1.25 by default.
  unfoldable pub claimed_inflated : Option ℤ → Option ℤ → (ratio : F) → Option Bool
  claimed_inflated none verified ratio = none
  claimed_inflated (some claimed) none ratio = none
  claimed_inflated (some claimed) (some verified) ratio =
      some (fl.lt (fl.mul ratio (fl.of_int verified)) (fl.of_int claimed))

unfoldable pub resolve_used_reference : List ℤ → Option ℤ
resolve_used_reference = min? (λ cents. cents)

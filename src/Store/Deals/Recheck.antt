-- ===== src/Store/Deals/Recheck.antt =====
-- The end of a deal in fpt/store/deals.py: `refresh_or_expire_active_deal` on a fresh observation,
-- and `expire_stale_deals` where there is none.
use fishing_deal_tracker.Prelude.{
  ℕ, ◌+◌, ◌*◌, Bool, ◌&&◌, ◌||◌, not, Option, none, some, leb, length, or_default, is_some,
  if◌then◌else◌,
}
use fishing_deal_tracker.Prelude.Int.{ℤ, pos, leb_ℤ}
use fishing_deal_tracker.Prelude.Eq.{◌==◌, nat_eq}
use fishing_deal_tracker.Prelude.Order.{keep}
use fishing_deal_tracker.Prelude.Query.{find?}
use fishing_deal_tracker.Floats.{Floats}
use fishing_deal_tracker.Domain.{Availability, Lane, is_sellable}
use fishing_deal_tracker.Deals.Discount.{percent_off}
use fishing_deal_tracker.Deals.Confirm.{exceeds_tolerance}
use fishing_deal_tracker.Deals.References.{VerifiedReference}
use fishing_deal_tracker.Store.Database.{Db, Deal, DealStatus, ExpireReason, Observation}
use fishing_deal_tracker.Store.Queries.{
  get_offer_context, hour, is_ok, resolve_current_new_for_variant,
  resolve_verified_reference_for_offer,
}
use fishing_deal_tracker.Store.Deals.Rows.{OpenDeal, is_active, update_deal, update_where}
use fishing_deal_tracker.Store.Deals.Confirmation.{nonzero, of_context}

-- The keys of the configuration that a recheck reads.
pub record RecheckRules (F : Type 0) : Type 0 where
  pub min_discount_pct : Option F
  pub max_price_increase_pct : Option F

pub data DealRecheckResult : Type 0 where
  refreshed : DealRecheckResult
  expired : ExpireReason → DealRecheckResult

abbrev pub verified_cents : Option VerifiedReference → Option ℤ
verified_cents none = none
verified_cents (some v) = some v.cents

-- The verified price, or a CLAIMED deal's own claim.
abbrev pub claimed_or : Lane → Option ℤ → Option ℤ → Option ℤ
claimed_or lane (some cents) claimed = some cents
claimed_or Lane.claimed none claimed = if nonzero claimed then claimed else none
claimed_or _ none claimed = none

-- No OK observation of the offer in the last `stale_hours`.
abbrev pub fresh_for : ℕ → ℕ → ℕ → Observation → Bool
fresh_for now stale_hours offer_id po =
    po.offer_id == offer_id && is_ok po.quality && leb now (po.observed_at + stale_hours * hour)

module _ {F : Type 0} where
  unfoldable pub current_reference : Db F → Lane → (offer_id : ℕ) → (claimed : Option ℤ) → Option ℤ
  current_reference db Lane.used_lane offer_id claimed =
      resolve_current_new_for_variant db
        (of_context (get_offer_context db offer_id) (λ c. c.variant_id)) offer_id
  current_reference db lane offer_id claimed =
      claimed_or lane (verified_cents (resolve_verified_reference_for_offer db offer_id)) claimed

  abbrev pub expire_row : ℕ → ExpireReason → Deal F → Deal F
  expire_row now reason d = record d {
    status = DealStatus.expired;
    expired_at = some now;
    expire_reason = some reason;
  }

  abbrev pub expire_active_deal : Db F → ℕ → ExpireReason → Db F
  expire_active_deal db deal_id reason = update_deal deal_id (expire_row db.now reason) db

  abbrev pub refresh_row : ℕ → ℤ → Option ℤ → F → ℤ → Deal F → Deal F
  refresh_row observation price landed discount reference d = record d {
    price_cents = price;
    landed_price_cents = landed;
    discount_pct = discount;
    reference_cents = reference;
    last_confirmed_observation_id = some observation;
  }

  abbrev pub is_stale : Db F → (now stale_hours : ℕ) → Deal F → Bool
  is_stale db now stale_hours d =
      is_active d.status
      && not (is_some (find? (fresh_for now stale_hours d.offer_id) db.price_observations))

  -- The number of deals that expired, and the tables after.
  unfoldable pub expire_stale_deals : Db F → (now stale_hours : ℕ) → ℕ × Db F
  expire_stale_deals db now stale_hours = (
    length (keep (is_stale db now stale_hours) db.deals),
    record db {
      deals =
          update_where (is_stale db now stale_hours) (expire_row now ExpireReason.not_observed)
            db.deals;
    },
  )

-- What a recheck decides: the reference and the discount to refresh to, or why the deal ends.
pub data Decision (F : Type 0) : Type 0 where
  refresh : (reference_cents : ℤ) (discount_pct : F) → Decision F
  expire : ExpireReason → Decision F

module _ {F : Type 0} ⦃fl : Floats F⦄ where
  abbrev pub min_discount : RecheckRules F → Option F → F
  min_discount config given =
      or_default given (or_default config.min_discount_pct (fl.of_int (pos 50)))

  abbrev pub max_increase : RecheckRules F → Option F → F
  max_increase config given =
      or_default given (or_default config.max_price_increase_pct (fl.of_int (pos 2)))

  -- The price tests against a reference.
  abbrev pub decide_price : (price old_price : ℤ) (min_discount max_increase : F) → ℤ → Decision F
  decide_price price old_price min_pct max_pct reference =
      if leb_ℤ reference (pos 0)
      then Decision.expire ExpireReason.reference_lost
      else if exceeds_tolerance price old_price max_pct
          || fl.lt (percent_off price reference) min_pct
      then Decision.expire ExpireReason.price_recovered
      else Decision.refresh reference (percent_off price reference)

  abbrev pub decide_reference :
      (price old_price : ℤ) (min_discount max_increase : F) → Option ℤ → Decision F
  decide_reference price old_price min_pct max_pct none =
      Decision.expire ExpireReason.reference_lost
  decide_reference price old_price min_pct max_pct (some reference) =
      decide_price price old_price min_pct max_pct reference

  unfoldable pub decide :
      RecheckRules F
      → Db F
      → OpenDeal
      → (offer_id : ℕ) (compare_price_cents : ℤ) → Availability
      → (min_discount_pct max_price_increase_pct : Option F) (claimed : Option ℤ) → Decision F
  decide config db open_deal offer_id price availability min_pct max_pct claimed =
      if not (is_sellable availability)
      then Decision.expire ExpireReason.sold_out
      else decide_reference price open_deal.price_cents (min_discount config min_pct)
          (max_increase config max_pct) (current_reference db open_deal.lane offer_id claimed)

  abbrev pub carry_out :
      Db F
      → OpenDeal
      → (observation_id : ℕ) (price : ℤ) (landed : Option ℤ) → Decision F
      → DealRecheckResult × Db F
  carry_out db open_deal observation price landed (Decision.refresh reference discount) = (
    DealRecheckResult.refreshed,
    update_deal open_deal.id (refresh_row observation price landed discount reference) db,
  )
  carry_out db open_deal observation price landed (Decision.expire reason) =
      (DealRecheckResult.expired reason, expire_active_deal db open_deal.id reason)

  unfoldable pub refresh_or_expire_active_deal :
      RecheckRules F
      → Db F
      → OpenDeal
      → (offer_id observation_id : ℕ) (compare_price_cents : ℤ) → (landed_price_cents : Option ℤ)
      → Availability
      → (min_discount_pct max_price_increase_pct : Option F) (claimed : Option ℤ)
      → DealRecheckResult × Db F
  refresh_or_expire_active_deal config db open_deal offer_id observation price landed availability
        min_pct max_pct claimed =
      carry_out db open_deal observation price landed
        (decide config db open_deal offer_id price availability min_pct max_pct claimed)

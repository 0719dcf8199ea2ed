-- ===== src/Deals/Detect.antt =====
-- fpt/deals/detect.py: the three rules that make an observation a deal candidate.
-- `rules` is the argument of that name, and `config` what `load_deal_rules` reads where it is None.
pub mod Eligible
pub mod Price
mod Tests
use fishing_deal_tracker.Prelude.{
  Bool, true, false, not, Option, none, some, or_default, if◌then◌else◌,
}
use fishing_deal_tracker.Prelude.Int.{ℤ, pos, ◌-ℤ◌, ltb_ℤ}
use fishing_deal_tracker.Floats.{Floats}
use fishing_deal_tracker.Domain.{Condition, Availability, Rule, Lane, is_in_stock, is_sellable}
use fishing_deal_tracker.Deals.Discount.{discount_pct}

-- The keys of the `deal_rules` mapping that detection reads.
pub record DealRules (F : Type 0) : Type 0 where
  pub min_discount_pct : Option F
  pub min_saving_cents : Option ℤ

pub record DealCandidate (F : Type 0) : Type 0 where
  pub rule : Rule
  pub lane : Lane
  pub price_cents : ℤ
  pub reference_cents : ℤ
  pub discount_pct : F

abbrev pub is_new : Condition → Bool
is_new Condition.new = true
is_new _ = false

-- The conditions of `detect_used_vs_current_new`: USED_ACCEPTABLE is not among them.
abbrev pub is_headline_used : Condition → Bool
is_headline_used Condition.new = false
is_headline_used Condition.used_acceptable = false
is_headline_used _ = true

module _ {F : Type 0} ⦃fl : Floats F⦄ where
  -- `r.get("min_discount_pct", 50.0)`
  abbrev pub min_discount : DealRules F → F
  min_discount r = or_default r.min_discount_pct (fl.of_int (pos 50))

  -- `r.get("min_saving_cents", 1000)`
  abbrev pub min_saving : DealRules F → ℤ
  min_saving r = or_default r.min_saving_cents (pos 1000)

  -- The end that the three rules share: the saving, then the discount, against a reference.
  unfoldable pub candidate_if_deep : DealRules F → Rule → Lane → ℤ → ℤ → Option (DealCandidate F)
  candidate_if_deep r rule lane price_cents reference_cents =
      if ltb_ℤ (reference_cents -ℤ price_cents) (min_saving r)
      then none
      else if fl.lt (discount_pct price_cents reference_cents) (min_discount r)
      then none
      else some (record {
        rule = rule;
        lane = lane;
        price_cents = price_cents;
        reference_cents = reference_cents;
        discount_pct = discount_pct price_cents reference_cents;
      })

  unfoldable pub detect_deep_discount_new :
      (config : DealRules F)
      → Condition
      → Availability
      → (price_cents : ℤ) → (verified_reference_cents : Option ℤ) → (rules : Option (DealRules F))
      → Option (DealCandidate F)
  detect_deep_discount_new config condition availability price_cents verified rules =
      if not (is_new condition)
      then none
      else if not (is_sellable availability)
      then none
      else elim verified [
        | none ↦ none
        | some reference_cents ↦
            candidate_if_deep (or_default rules config) Rule.deep_discount_new Lane.verified
              price_cents reference_cents
      ]

  unfoldable pub detect_deep_discount_claimed :
      (config : DealRules F)
      → Condition
      → (price_cents : ℤ) → (claimed_reference_cents : Option ℤ)
      → (on_clearance has_verified_reference : Bool) → (rules : Option (DealRules F))
      → Option (DealCandidate F)
  detect_deep_discount_claimed config condition price_cents claimed on_clearance has_verified
        rules =
      if not (is_new condition) then none else if has_verified then none else elim claimed [
        | none ↦ none
        | some reference_cents ↦
            if not on_clearance
            then none
            else candidate_if_deep (or_default rules config) Rule.deep_discount_claimed Lane.claimed
                price_cents reference_cents
      ]

  unfoldable pub detect_used_vs_current_new :
      (config : DealRules F)
      → Condition
      → Availability
      → (landed_price_cents : ℤ) → (current_new_reference_cents : Option ℤ)
      → (rules : Option (DealRules F)) → Option (DealCandidate F)
  detect_used_vs_current_new config condition availability landed_price_cents current_new rules =
      if not (is_headline_used condition)
      then none
      else if not (is_in_stock availability)
      then none
      else elim current_new [
        | none ↦ none
        | some reference_cents ↦
            candidate_if_deep (or_default rules config) Rule.used_vs_current_new Lane.used_lane
              landed_price_cents reference_cents
      ]

-- ===== src/Deals/Detect/Tests.antt =====
-- Runs of the detection rules, and the theorems at concrete observations. Prices are in cents.
use fishing_deal_tracker.Prelude.{is_some, ℕ, ◌≡◌, refl, ◌↔◌, true, none, some}
use fishing_deal_tracker.Prelude.Int.{pos, ◌-ℤ◌}
use fishing_deal_tracker.Floats.{Floats}
use fishing_deal_tracker.Floats.Fixed.{fixed}
use fishing_deal_tracker.Domain.{Condition, Availability, Rule, Lane}
use fishing_deal_tracker.Deals.Discount.{discount_pct, percent_off}
use fishing_deal_tracker.Deals.Detect.{
  DealRules, DealCandidate, detect_deep_discount_new, detect_deep_discount_claimed,
  detect_used_vs_current_new, candidate_if_deep,
}
use fishing_deal_tracker.Deals.Detect.Eligible.{
  IsHeadlineUsed, detect_used_vs_current_new_iff, IsDeep, IsSellable, IsHeadlineUsed,
  deep_candidate, detect_deep_discount_new_iff, detect_used_vs_current_new_iff,
}
use fishing_deal_tracker.Deals.Detect.Price.{one_rule}

instance abbrev numbers : Floats ℕ
numbers = fixed

abbrev defaults : DealRules ℕ
defaults = record { min_discount_pct = none; min_saving_cents = none }

-- $40.00 against $100.00: 60% off.
abbrev sixty_off : DealCandidate ℕ
sixty_off = record {
  rule = Rule.deep_discount_new;
  lane = Lane.verified;
  price_cents = pos 4000;
  reference_cents = pos 10000;
  discount_pct = 600000;
}

detects_sixty_off :
    detect_deep_discount_new defaults Condition.new Availability.store_only
      (pos 4000)
      (some (pos 10000))
      none
    ≡ some sixty_off
unfolding detect_deep_discount_new candidate_if_deep discount_pct percent_off ◌-ℤ◌
detects_sixty_off = refl

-- 49% off is not published.
rejects_shallow :
    detect_deep_discount_new defaults Condition.new Availability.in_stock
      (pos 5100)
      (some (pos 10000))
      none
    ≡ none
unfolding detect_deep_discount_new candidate_if_deep discount_pct percent_off ◌-ℤ◌
rejects_shallow = refl

abbrev used_half_off : DealCandidate ℕ
used_half_off = record {
  rule = Rule.used_vs_current_new;
  lane = Lane.used_lane;
  price_cents = pos 5000;
  reference_cents = pos 10000;
  discount_pct = 500000;
}

detects_used :
    detect_used_vs_current_new defaults Condition.used_good Availability.in_stock
      (pos 5000)
      (some (pos 10000))
      none
    ≡ some used_half_off
unfolding detect_used_vs_current_new candidate_if_deep discount_pct percent_off ◌-ℤ◌
detects_used = refl

detect_deep_discount_new_iff_example :
    (detect_deep_discount_new defaults Condition.new Availability.store_only
        (pos 4000)
        (some (pos 10000))
        none
      ≡ some sixty_off)
    ↔ ((Condition.new ≡ Condition.new)
        × IsSellable Availability.store_only
        × (some (pos 10000) ≡ some sixty_off.reference_cents)
        × IsDeep defaults (pos 4000) sixty_off.reference_cents
        × (sixty_off
            ≡ deep_candidate Rule.deep_discount_new Lane.verified
                (pos 4000)
                sixty_off.reference_cents))
detect_deep_discount_new_iff_example =
    detect_deep_discount_new_iff defaults Condition.new Availability.store_only (pos 4000)
      (some (pos 10000)) none sixty_off

one_rule_example :
    let new =
      detect_deep_discount_new defaults Condition.new Availability.store_only
        (pos 4000)
        (some (pos 10000))
        none in
    let claim =
      detect_deep_discount_claimed defaults Condition.new
        (pos 4000)
        (some (pos 12000))
        true
        true
        none in
    let used =
      detect_used_vs_current_new defaults Condition.new Availability.store_only
        (pos 4500)
        (some (pos 10000))
        none in
    ¬ ((is_some (some (pos 10000)) ≡ true) × (claim ≡ some sixty_off))
    × ¬ ((Condition.new ≡ Condition.new) × (used ≡ some used_half_off))
    × ¬ ((new ≡ some sixty_off) × (claim ≡ some sixty_off))
    × ¬ ((new ≡ some sixty_off) × (used ≡ some used_half_off))
    × ¬ ((claim ≡ some sixty_off) × (used ≡ some used_half_off))
one_rule_example =
    one_rule defaults Condition.new Availability.store_only (pos 4000) (pos 4500) (some (pos 10000))
      (some (pos 12000)) (some (pos 10000)) true none sixty_off sixty_off used_half_off

detect_used_vs_current_new_iff_example :
    (detect_used_vs_current_new defaults Condition.used_good Availability.in_stock
        (pos 5000)
        (some (pos 10000))
        none
      ≡ some used_half_off)
    ↔ (IsHeadlineUsed Condition.used_good
        × (Availability.in_stock ≡ Availability.in_stock)
        × (some (pos 10000) ≡ some used_half_off.reference_cents)
        × IsDeep defaults (pos 5000) used_half_off.reference_cents
        × (used_half_off
            ≡ deep_candidate Rule.used_vs_current_new Lane.used_lane
                (pos 5000)
                used_half_off.reference_cents))
detect_used_vs_current_new_iff_example =
    detect_used_vs_current_new_iff defaults Condition.used_good Availability.in_stock (pos 5000)
      (some (pos 10000)) none used_half_off

-- ===== src/Deals/References/Tests.antt =====
-- Runs of the reference prices, and the theorems at them.
use fishing_deal_tracker.Prelude.{
  ℕ, ◌*◌, ◌≤◌, ◌≡◌, refl, false, Option, none, some, [], ◌∷◌, length, arith,
}
use fishing_deal_tracker.Prelude.Int.{ℤ, leb_ℤ, pos, ◌≤ℤ◌, ◌+ℤ◌, ◌-ℤ◌}
use fishing_deal_tracker.Prelude.Order.{keep, min_by}
use fishing_deal_tracker.Floats.{Floats}
use fishing_deal_tracker.Floats.Fixed.{fixed, fixed_laws}
use fishing_deal_tracker.Domain.{Availability, Condition, Lane, Rule}
use fishing_deal_tracker.Deals.Discount.{discount_pct, percent_off}
use fishing_deal_tracker.Deals.Detect.{DealRules, candidate_if_deep, detect_deep_discount_new}
use fishing_deal_tracker.Deals.Detect.Eligible.{deep_candidate}
use fishing_deal_tracker.Deals.References.{
  CrossRetailerCandidate, NonClearanceDay, OwnHistoryResult, from_cross, own_history_of,
  resolve_cross_retailer_new, resolve_own_history_median, resolve_used_reference,
  resolve_verified_reference, rounded_median,
}
use fishing_deal_tracker.Deals.References.Lowest.{IsLowest, resolve_verified_reference-IsLowest}
use fishing_deal_tracker.Deals.References.Median.{Spans, resolve_own_history_median_sound}
use fishing_deal_tracker.Deals.References.Safe.{verified_deal_safe}

instance abbrev numbers : Floats ℕ
numbers = fixed

abbrev today : NonClearanceDay
today = record { day = 40; price_cents = pos 9000 }

abbrev before : NonClearanceDay
before = record { day = 2; price_cents = pos 10001 }

abbrev history : OwnHistoryResult
history = record { median_cents = pos 9500; observed_days = 2; span_days = 38 }

-- The median of two days, 95.005 dollars, is rounded to even.
median_run : resolve_own_history_median (today ∷ before ∷ []) 2 30 ≡ some history
unfolding resolve_own_history_median own_history_of rounded_median ◌+ℤ◌
median_run = refl

resolve_own_history_median_sound_example :
    (2 ≤ length (today ∷ before ∷ []))
    × (30 ≤ history.span_days)
    × (history.observed_days ≡ length (today ∷ before ∷ []))
    × Spans (today ∷ before ∷ []) history.span_days
    × (pos 9000 ≤ℤ history.median_cents)
    × (history.median_cents ≤ℤ pos 10001)
    × (length (today ∷ before ∷ [])
        ≤ 2 * length (keep (λ d. leb_ℤ d.price_cents history.median_cents) (today ∷ before ∷ [])))
    × (length (today ∷ before ∷ [])
        ≤ 2 * length (keep (λ d. leb_ℤ history.median_cents d.price_cents) (today ∷ before ∷ [])))
resolve_own_history_median_sound_example =
    resolve_own_history_median_sound (today ∷ before ∷ []) 2 30 history (pos 9000) (pos 10001)
      median_run ((omega arith, omega arith), ((omega arith, omega arith), tt))

abbrev other_shop : CrossRetailerCandidate
other_shop = record {
  retailer_slug = "jandh";
  price_cents = pos 8000;
  is_r1_quality = false;
  match_status = "auto_gtin";
  variant_key_observed = some "v";
  unit_count = some (pos 1);
}

-- Cheaper, but matched by its attributes only.
abbrev lookalike : CrossRetailerCandidate
lookalike = record other_shop { price_cents = pos 1000; match_status = "auto_attr" }

cross_run : resolve_cross_retailer_new (lookalike ∷ other_shop ∷ []) ≡ some other_shop
unfolding resolve_cross_retailer_new min_by
cross_run = refl

verified_run :
    resolve_verified_reference (some history) (some other_shop) none ≡ some (from_cross other_shop)
unfolding resolve_verified_reference min_by
verified_run = refl

resolve_verified_reference-IsLowest_example :
    IsLowest (some history) (some other_shop) none (from_cross other_shop)
resolve_verified_reference-IsLowest_example =
    resolve_verified_reference-IsLowest (some history) (some other_shop) none
      (from_cross other_shop) verified_run

abbrev no_history : Option OwnHistoryResult
no_history = none

abbrev no_median : Option ℤ
no_median = none

used_run : resolve_used_reference (pos 500 ∷ pos 300 ∷ pos 400 ∷ []) ≡ some (pos 300)
unfolding resolve_used_reference min_by
used_run = refl

abbrev no_rules : DealRules ℕ
no_rules = record { min_discount_pct = none; min_saving_cents = none }

deep_run :
    detect_deep_discount_new no_rules Condition.new Availability.in_stock
      (pos 3000)
      (some (pos 8000))
      none
    ≡ some (deep_candidate Rule.deep_discount_new Lane.verified (pos 3000) (pos 8000))
unfolding detect_deep_discount_new candidate_if_deep discount_pct percent_off ◌-ℤ◌
deep_run = refl

verified_deal_safe_example :
    ((o : OwnHistoryResult)
      → some history ≡ some o
      → detect_deep_discount_new no_rules Condition.new Availability.in_stock
          (pos 3000)
          (some o.median_cents)
          none
        ≡ some (deep_candidate Rule.deep_discount_new Lane.verified (pos 3000) o.median_cents))
    × ((x : CrossRetailerCandidate)
        → some other_shop ≡ some x
        → detect_deep_discount_new no_rules Condition.new Availability.in_stock
            (pos 3000)
            (some x.price_cents)
            none
          ≡ some (deep_candidate Rule.deep_discount_new Lane.verified (pos 3000) x.price_cents))
verified_deal_safe_example =
    verified_deal_safe fixed_laws no_rules Condition.new Availability.in_stock (pos 3000) none
      (some history) (some other_shop) none (from_cross other_shop)
      (deep_candidate Rule.deep_discount_new Lane.verified (pos 3000) (pos 8000)) (omega arith)
      (omega arith) verified_run deep_run

-- ===== src/Validation/Tests.antt =====
-- Runs of the validation, and the theorems at them.
use fishing_deal_tracker.Prelude.{ℕ, ◌≡◌, ◌↔◌, refl, true, false, none, some, [], ◌∷◌, List, String}
use fishing_deal_tracker.Prelude.Int.{ℤ, pos}
use fishing_deal_tracker.Floats.{Floats}
use fishing_deal_tracker.Floats.Fixed.{fixed}
use fishing_deal_tracker.Domain.{Availability, Quality, Reason}
use fishing_deal_tracker.Validation.{
  Band, Guards, ObservationContext, ObservationInput, guard_reasons, if_nonzero,
  validate_observation,
}
use fishing_deal_tracker.Validation.Quiet.{IsQuiet, NoLargeMove}
use fishing_deal_tracker.Validation.Verdict.{IsPrice, band_of, validate_observation-ok_iff}

instance abbrev numbers : Floats ℕ
numbers = fixed

abbrev bands : List (String × Band)
bands = ("rods", record { floor_cents = some (pos 500); ceiling_cents = some (pos 100000) }) ∷ []

abbrev guards : Guards ℕ
guards = record {
  large_move_min_pct = none;
  large_move_max_pct = none;
  unit_mismatch_tolerance_pct = none;
  unit_mismatch_guess_multiples = none;
  discovery_collapse_pct = none;
}

abbrev rod : ObservationInput
rod = record {
  price_cents = some (pos 4000);
  currency = "USD";
  category = "rods";
  claimed_reference_cents = some (pos 10000);
  on_clearance = true;
  unit_count = some (pos 1);
  variant_key_observed = some "v";
  availability = Availability.in_stock;
  condition_wording_mapped = true;
  is_used_page_type = false;
}

-- The price was $160.00 before.
abbrev before : ObservationContext
before = record {
  last_ok_price_cents = some (pos 16000);
  last_ok_unit_count = some (pos 1);
  listing_variant_key_observed = some "v";
  listing_unit_count = some (pos 1);
  previous_variant_count = none;
  current_variant_count = none;
  previous_distinct_price_count = none;
  current_distinct_price_count = none;
}

-- A quarter of the last price is a large move, and nothing else is wrong.
large_move_run :
    validate_observation rod before bands guards
    ≡ record { quality = Quality.suspect; reasons = Reason.large_move ∷ [] }
unfolding validate_observation guard_reasons
large_move_run = refl

-- A price in another currency is rejected.
currency_run :
    (validate_observation (record rod { currency = "CAD" }) before bands guards).quality
    ≡ Quality.rejected
unfolding validate_observation
currency_run = refl

validate_observation-ok_iff_example :
    ((validate_observation rod before bands guards).quality ≡ Quality.ok) ↔ (
      (p : ℤ) × IsPrice rod p
      × (IsQuiet guards (band_of bands rod) rod before p
          × NoLargeMove guards p (if_nonzero before.last_ok_price_cents)))
validate_observation-ok_iff_example = validate_observation-ok_iff rod before bands guards

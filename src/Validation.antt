-- ===== src/Validation.antt =====
-- fpt/pipeline/validate.py: the guards that every observation passes before it is stored. The bands
-- and the thresholds are arguments, as read from the configuration; no guessed multiple is zero.
pub mod Quiet
pub mod Verdict
mod Tests
use fishing_deal_tracker.Prelude.{
  String, Bool, true, false, not, ◌&&◌, ◌||◌, Option, none, some, List, [], ◌∷◌, ◌++◌, map,
  or_default, if◌then◌else◌,
}
use fishing_deal_tracker.Prelude.Int.{ℤ, pos, ◌-ℤ◌, leb_ℤ, ltb_ℤ}
use fishing_deal_tracker.Prelude.Eq.{◌==◌, int_eq, string_eq, option_eq}
use fishing_deal_tracker.Floats.{Floats}
use fishing_deal_tracker.Domain.{Availability, Quality, Reason, get_str}
use fishing_deal_tracker.Deals.Confirm.{below, known_differ_text}

pub record ObservationInput : Type 0 where
  pub price_cents : Option ℤ
  pub currency : String
  pub category : String
  pub claimed_reference_cents : Option ℤ
  pub on_clearance : Bool
  pub unit_count : Option ℤ
  pub variant_key_observed : Option String
  pub availability : Availability
  pub condition_wording_mapped : Bool
  pub is_used_page_type : Bool

pub record ObservationContext : Type 0 where
  pub last_ok_price_cents : Option ℤ
  pub last_ok_unit_count : Option ℤ
  pub listing_variant_key_observed : Option String
  pub listing_unit_count : Option ℤ
  pub previous_variant_count : Option ℤ
  pub current_variant_count : Option ℤ
  pub previous_distinct_price_count : Option ℤ
  pub current_distinct_price_count : Option ℤ

pub record ValidationResult : Type 0 where
  pub quality : Quality
  pub reasons : List Reason

-- A category's entry in the bands.
pub record Band : Type 0 where
  pub floor_cents : Option ℤ
  pub ceiling_cents : Option ℤ

abbrev pub no_band : Band
no_band = record { floor_cents = none; ceiling_cents = none }

-- The keys of the thresholds.
pub record Guards (F : Type 0) : Type 0 where
  pub large_move_min_pct : Option F
  pub large_move_max_pct : Option F
  pub unit_mismatch_tolerance_pct : Option F
  pub unit_mismatch_guess_multiples : Option (List ℤ)
  pub discovery_collapse_pct : Option F

-- `price is None or price <= 0 or currency != "USD"`: the price where it is none of these.
abbrev pub priced : Option ℤ → String → Option ℤ
priced none currency = none
priced (some price) currency =
    if leb_ℤ price (pos 0) || not (currency == "USD") then none else some price

-- `ceiling is not None and price > ceiling`
abbrev pub above : Option ℤ → ℤ → Bool
above none price = false
above (some ceiling) price = ltb_ℤ ceiling price

abbrev pub is_out_of_band : Band → ℤ → Bool
is_out_of_band band price = below band.floor_cents price || above band.ceiling_cents price

-- `if x:` of an optional number.
abbrev pub if_nonzero : Option ℤ → Option ℤ
if_nonzero none = none
if_nonzero (some a) = if a == pos 0 then none else some a

abbrev pub is_not_above : Option ℤ → ℤ → Bool
is_not_above none price = false
is_not_above (some claimed) price = leb_ℤ claimed price

abbrev pub default_multiples : List ℤ
default_multiples = pos 3 ∷ pos 4 ∷ pos 5 ∷ pos 6 ∷ pos 10 ∷ pos 12 ∷ pos 20 ∷ pos 25 ∷ pos 50 ∷ []

-- `previous is not None and previous >= 3 and current == 1`
abbrev pub is_flattened : Option ℤ → Option ℤ → Bool
is_flattened none current = false
is_flattened (some previous) current = leb_ℤ (pos 3) previous && current == some (pos 1)

abbrev pub listed_if : Bool → Reason → List Reason
listed_if true reason = reason ∷ []
listed_if false reason = []

abbrev pub any : {A : Type 0} → (A → Bool) → List A → Bool
any p [] = false
any p (x ∷ xs) = p x || any p xs

abbrev pub result_of : List Reason → ValidationResult
result_of [] = record { quality = Quality.ok; reasons = [] }
result_of (r ∷ rs) = record { quality = Quality.suspect; reasons = r ∷ rs }

module _ {F : Type 0} ⦃fl : Floats F⦄ where
  -- The ratio in percent is below the lower threshold or above the upper.
  abbrev pub is_large_change : Guards F → (price : ℤ) → (last : Option ℤ) → Bool
  is_large_change guard price none = false
  is_large_change guard price (some last) =
      fl.lt (fl.mul (fl.div_int price last) (fl.of_int (pos 100)))
        (or_default guard.large_move_min_pct (fl.of_int (pos 35)))
      || fl.lt (or_default guard.large_move_max_pct (fl.of_int (pos 300)))
          (fl.mul (fl.div_int price last) (fl.of_int (pos 100)))

  -- The ratios that a pack price gives: by the offer's own count, or by the guessed ones.
  abbrev pub pack_ratios : Guards F → (unit_count : Option ℤ) → List F
  pack_ratios guard (some n) = fl.div_int (pos 1) n ∷ fl.of_int n ∷ []
  pack_ratios guard none =
      let guesses = or_default guard.unit_mismatch_guess_multiples default_multiples in
      map (λ n. fl.div_int (pos 1) n) guesses ++ map (λ n. fl.of_int n) guesses

  -- `candidate and abs(ratio - candidate) <= tolerance`
  abbrev pub is_near : (ratio tolerance candidate : F) → Bool
  is_near ratio tolerance candidate =
      (fl.lt candidate (fl.of_int (pos 0)) || fl.lt (fl.of_int (pos 0)) candidate)
      && not (fl.lt tolerance (fl.abs (fl.sub ratio candidate)))

  -- The heuristic where the listing has no pack count of its own.
  abbrev pub is_pack_price : Guards F → (price : ℤ) → (last unit_count : Option ℤ) → Bool
  is_pack_price guard price none unit_count = false
  is_pack_price guard price (some last) unit_count =
      any
        (is_near (fl.div_int price last) (
          fl.div (or_default guard.unit_mismatch_tolerance_pct (fl.of_int (pos 5)))
            (fl.of_int (pos 100))))
        (pack_ratios guard (if_nonzero unit_count))

  abbrev pub is_unit_mismatch :
      Guards F → (price : ℤ) → (last listing_count unit_count : Option ℤ) → Bool
  is_unit_mismatch guard price last (some n) (some m) = not (m == n)
  is_unit_mismatch guard price last (some n) none = false
  is_unit_mismatch guard price last none unit_count = is_pack_price guard price last unit_count

  -- Less than half of the variants are left, or the drop reaches the threshold.
  abbrev pub is_collapsed : Guards F → (previous current : Option ℤ) → Bool
  is_collapsed guard (some previous) (some current) =
      ltb_ℤ (pos 0) previous
      && (fl.lt (fl.of_int current) (fl.mul (fl.of_int previous) (fl.div_int (pos 1) (pos 2)))
          || not (
              fl.lt (fl.mul (fl.div_int (previous -ℤ current) previous) (fl.of_int (pos 100)))
                (or_default guard.discovery_collapse_pct (fl.of_int (pos 70)))))
  is_collapsed guard _ _ = false

  -- The reasons of an observation with a price, in the order in which the guards stand.
  unfoldable pub guard_reasons :
      Guards F → Band → ObservationInput → ObservationContext → (price : ℤ) → List Reason
  guard_reasons guard band obs ctx price =
      listed_if (is_out_of_band band price) Reason.out_of_band
      ++ (listed_if (is_large_change guard price (if_nonzero ctx.last_ok_price_cents))
            Reason.large_move
          ++ (listed_if (obs.on_clearance && is_not_above obs.claimed_reference_cents price)
                Reason.claimed_not_above_price
              ++ (listed_if
                    (is_unit_mismatch guard price (if_nonzero ctx.last_ok_price_cents)
                      ctx.listing_unit_count obs.unit_count)
                    Reason.unit_mismatch
                  ++ (listed_if
                        (known_differ_text obs.variant_key_observed
                          ctx.listing_variant_key_observed)
                        Reason.variant_identity_changed
                      ++ (listed_if
                            (is_collapsed guard ctx.previous_variant_count
                              ctx.current_variant_count)
                            Reason.variant_collapse
                          ++ (listed_if
                                (is_flattened ctx.previous_distinct_price_count
                                  ctx.current_distinct_price_count)
                                Reason.price_flattening
                              ++ listed_if
                                  (not obs.condition_wording_mapped && not obs.is_used_page_type)
                                  Reason.condition_unknown))))))

  -- The verdict on the price that was found, if any.
  abbrev pub verdict_on :
      Guards F → Band → ObservationInput → ObservationContext → Option ℤ → ValidationResult
  verdict_on guard band obs ctx none = record {
    quality = Quality.rejected;
    reasons = Reason.invalid_price_or_currency ∷ [];
  }
  verdict_on guard band obs ctx (some price) = result_of (guard_reasons guard band obs ctx price)

  unfoldable pub validate_observation :
      ObservationInput
      → ObservationContext
      → (category_bands : List (String × Band)) → Guards F
      → ValidationResult
  validate_observation obs ctx bands guard =
      verdict_on guard (get_str bands obs.category no_band) obs ctx
        (priced obs.price_cents obs.currency)

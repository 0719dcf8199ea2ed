-- ===== src/Store/Pipeline/Offers/Silent.antt =====
-- Which guards of the validation the ingest of fpt/store/pipeline.py can trip.
use fishing_deal_tracker.Prelude.{
  ℕ, ◌≡◌, refl, String, Bool, true, false, not, ◌&&◌, Option, none, some, List, [], ◌∷◌, ◌++◌,
}
use fishing_deal_tracker.Prelude.Int.{ℤ}
use fishing_deal_tracker.Prelude.Eq.{◌==◌, string_eq}
use fishing_deal_tracker.Prelude.Order.{All}
use fishing_deal_tracker.Floats.{Floats}
use fishing_deal_tracker.Domain.{ParsedOffer, Reason}
use fishing_deal_tracker.Validation.{
  Band, guard_reasons, if_nonzero, is_large_change, is_not_above, is_out_of_band, is_unit_mismatch,
  listed_if, priced, result_of, validate_observation, verdict_on,
}
use fishing_deal_tracker.Store.Database.{Db}
use fishing_deal_tracker.Store.Pipeline.Offers.{
  ListingContext, Settings, last_ok_context, observation_context, observation_input, validated,
}

abbrev can_fire : Reason → Bool
can_fire Reason.variant_identity_changed = false
can_fire Reason.variant_collapse = false
can_fire Reason.price_flattening = false
can_fire Reason.condition_unknown = false
can_fire _ = true

-- A reason other than the last four of the validation.
abbrev pub CanFire : Reason → Type 0
CanFire r = can_fire r ≡ true

add-CanFire :
    (b : Bool) (r : Reason) (rs : List Reason)
    → CanFire r
    → All CanFire rs
    → All CanFire (listed_if b r ++ rs)
add-CanFire true r rs h k = (h, k)
add-CanFire false r rs h k = k

-- The four reasons that a price and a claim give.
four-CanFire :
    (a b c d : Bool)
    → All CanFire (
        listed_if a Reason.out_of_band
        ++ (listed_if b Reason.large_move
            ++ (listed_if c Reason.claimed_not_above_price
                ++ (listed_if d Reason.unit_mismatch ++ []))))
four-CanFire a b c d =
    let last = listed_if d Reason.unit_mismatch ++ [] in
    let third = listed_if c Reason.claimed_not_above_price ++ last in
    add-CanFire a Reason.out_of_band (listed_if b Reason.large_move ++ third) refl (
      add-CanFire b Reason.large_move third refl (
        add-CanFire c Reason.claimed_not_above_price last refl
          (add-CanFire d Reason.unit_mismatch [] refl tt)))

same_key : (k : String) → not (k == k) ≡ false
same_key k = rw ((string_eq.test_iff k k).1 refl) refl

All-result_of : (rs : List Reason) → All CanFire rs → All CanFire (result_of rs).reasons
All-result_of [] h = tt
All-result_of (r ∷ rs) h = h

module _ {F : Type 0} ⦃fl : Floats F⦄ (settings : Settings F) (ctx : ListingContext) where
  guard_reasons-CanFire :
      (band : Band) (offer : ParsedOffer) (last_ok : Option ℤ × Option ℤ) (price : ℤ)
      → All CanFire (
          guard_reasons settings.guards band
            (observation_input ctx offer)
            (observation_context ctx last_ok)
            price)
  unfolding guard_reasons
  guard_reasons-CanFire band offer last_ok price = rw (same_key ctx.variant_key) (
      four-CanFire (is_out_of_band band price)
        (is_large_change settings.guards price (if_nonzero last_ok.0))
        (offer.on_clearance && is_not_above offer.claimed_reference_cents price)
        (is_unit_mismatch settings.guards price (if_nonzero last_ok.0) ctx.unit_count
          offer.unit_count))

  verdict-CanFire :
      (band : Band) (offer : ParsedOffer) (last_ok : Option ℤ × Option ℤ) (price : Option ℤ)
      → All CanFire
          (verdict_on settings.guards band
            (observation_input ctx offer)
            (observation_context ctx last_ok)
            price).reasons
  verdict-CanFire band offer last_ok none = (refl, tt)
  verdict-CanFire band offer last_ok (some price) =
      All-result_of _ (guard_reasons-CanFire band offer last_ok price)

  -- Whatever the page and the tables hold, the validation in the ingest never reports a changed
  -- variant, a collapse of variants, flattened prices or an unknown condition: it compares the
  -- observation's variant key with that same key, and gives no counts to compare.
  pub validated-CanFire :
      (db : Db F) (offer_id : ℕ) (offer : ParsedOffer)
      → All CanFire (validated settings ctx db offer_id offer).reasons
  unfolding validated validate_observation
  validated-CanFire db offer_id offer =
      verdict-CanFire _ offer (last_ok_context db offer_id) (priced offer.price_cents "USD")

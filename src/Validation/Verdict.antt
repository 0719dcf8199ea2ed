-- ===== src/Validation/Verdict.antt =====
-- What the verdict of fpt/pipeline/validate.py says of an observation, and which verdicts the
-- confirmation accepts.
use mathlib.Core.Path.{subst}
use fishing_deal_tracker.Prelude.{String, ◌≡◌, ◌↔◌, refl, Option, none, some, List, [], ◌∷◌}
use fishing_deal_tracker.Prelude.Int.{ℤ, pos, ◌<ℤ◌}
use fishing_deal_tracker.Floats.{Floats}
use fishing_deal_tracker.Domain.{Quality, Reason, get_str}
use fishing_deal_tracker.Deals.Confirm.{other_reasons, quality_reject, first_other}
use fishing_deal_tracker.Validation.{
  Band, Guards, ObservationContext, ObservationInput, guard_reasons, if_nonzero, no_band,
  ValidationResult, priced, result_of, validate_observation, verdict_on,
}
use fishing_deal_tracker.Validation.Quiet.{
  IsQuiet, NoLargeMove, guard_reasons-nil, is_large_change_iff, other-guard_reasons, priced_iff,
}

result-ok : (rs : List Reason) → ((result_of rs).quality ≡ Quality.ok) ↔ (rs ≡ [])
result-ok [] = (λ h. refl, λ h. refl)
result-ok (r ∷ rs) = (λ h. absurd (cc), λ h. absurd (cc))

result-reject :
    (rs : List Reason)
    → (quality_reject (result_of rs).quality (result_of rs).reasons ≡ none)
      ↔ (other_reasons rs ≡ [])
result-reject [] = (λ h. refl, λ h. refl)
result-reject (r ∷ rs) = first_other-nil (other_reasons (r ∷ rs))
  where
    first_other-nil : (xs : List Reason) → (first_other xs ≡ none) ↔ (xs ≡ [])
    first_other-nil [] = (λ h. refl, λ h. refl)
    first_other-nil (x ∷ xs) = (λ h. absurd (cc), λ h. absurd (cc))

-- A price in dollars that is positive.
abbrev pub IsPrice : ObservationInput → ℤ → Type 0
IsPrice obs price = (obs.price_cents ≡ some price) × (pos 0 <ℤ price) × (obs.currency ≡ "USD")

abbrev pub band_of : List (String × Band) → ObservationInput → Band
band_of bands obs = get_str bands obs.category no_band

module _ {F : Type 0} ⦃fl : Floats F⦄ where
  verdict_on_iff :
      (Q : ValidationResult → Type 0) (R P : ℤ → Type 0) (obs : ObservationInput)
      → (ctx : ObservationContext) (band : Band) (guard : Guards F) (price : Option ℤ)
      → ¬ Q (record { quality = Quality.rejected; reasons = Reason.invalid_price_or_currency ∷ [] })
      → ((p : ℤ) → Q (result_of (guard_reasons guard band obs ctx p)) ↔ R p)
      → ((p : ℤ) → (price ≡ some p) ↔ P p)
      → Q (verdict_on guard band obs ctx price) ↔ ((p : ℤ) × P p × R p)
  verdict_on_iff Q R P obs ctx band guard none refused each found =
      (λ h. absurd (refused h), λ h. let e = (found h.0).1 h.1 in absurd (cc))
  verdict_on_iff Q R P obs ctx band guard (some p) refused each found = (
    λ h. (p, (found p).0 refl, (each p).0 h),
    λ h. let e = (found h.0).1 h.1 in let same : h.0 ≡ p = cc in (each p).1 (subst R same h.2),
  )

  -- From the verdict on an observation with a price to what is asked of the price.
  through-IsPrice :
      (Q : ValidationResult → Type 0) (R : ℤ → Type 0) (obs : ObservationInput)
      → (ctx : ObservationContext) (bands : List (String × Band)) (guard : Guards F)
      → ¬ Q (record { quality = Quality.rejected; reasons = Reason.invalid_price_or_currency ∷ [] })
      → ((p : ℤ) → Q (result_of (guard_reasons guard (band_of bands obs) obs ctx p)) ↔ R p)
      → Q (validate_observation obs ctx bands guard) ↔ ((p : ℤ) × IsPrice obs p × R p)
  unfolding validate_observation
  through-IsPrice Q R obs ctx bands guard refused each =
      verdict_on_iff Q R (IsPrice obs) obs ctx (band_of bands obs) guard
        (priced obs.price_cents obs.currency) refused each (priced_iff obs.price_cents obs.currency)

  -- An observation is OK exactly when it has a positive price in dollars and every guard is quiet:
  -- the price within the band and below a clearance claim; no pack count and no variant key that
  -- differs from the listing's where both are known, and where the listing has no count, a ratio to
  -- the last price that is near none that a pack gives; no collapse of the variants or the prices; a
  -- known condition, or a page of used offers; and no large move from the last price.
  pub validate_observation-ok_iff :
      (obs : ObservationInput) (ctx : ObservationContext) (bands : List (String × Band))
      → (guard : Guards F)
      → ((validate_observation obs ctx bands guard).quality ≡ Quality.ok) ↔ (
          (p : ℤ) × IsPrice obs p
          × (IsQuiet guard (band_of bands obs) obs ctx p
              × NoLargeMove guard p (if_nonzero ctx.last_ok_price_cents)))
  validate_observation-ok_iff obs ctx bands guard =
      through-IsPrice (λ v. v.quality ≡ Quality.ok)
        (λ p.
          IsQuiet guard (band_of bands obs) obs ctx p
          × NoLargeMove guard p (if_nonzero ctx.last_ok_price_cents))
        obs ctx bands guard (λ e. cc)
        (λ p.
          let r = result-ok (guard_reasons guard (band_of bands obs) obs ctx p) in
          let n = guard_reasons-nil guard (band_of bands obs) obs ctx p in
          let m = is_large_change_iff guard p (if_nonzero ctx.last_ok_price_cents) in
          (λ h. let k = n.0 (r.0 h) in (k.0, m.0 k.1), λ h. r.1 (n.1 (h.0, m.1 h.1))))

  -- The confirmation's quality check accepts an observation exactly when it has a positive price in
  -- dollars and every guard but that of the large move is quiet.
  pub validate_observation-quality_reject :
      (obs : ObservationInput) (ctx : ObservationContext) (bands : List (String × Band))
      → (guard : Guards F)
      → (quality_reject
            (validate_observation obs ctx bands guard).quality
            (validate_observation obs ctx bands guard).reasons
          ≡ none)
        ↔ ((p : ℤ) × IsPrice obs p × IsQuiet guard (band_of bands obs) obs ctx p)
  validate_observation-quality_reject obs ctx bands guard =
      through-IsPrice (λ v. quality_reject v.quality v.reasons ≡ none)
        (λ p. IsQuiet guard (band_of bands obs) obs ctx p) obs ctx bands guard (λ e. cc)
        (λ p.
          let r = result-reject (guard_reasons guard (band_of bands obs) obs ctx p) in
          let n = other-guard_reasons guard (band_of bands obs) obs ctx p in
          (λ h. n.0 (r.0 h), λ h. r.1 (n.1 h)))

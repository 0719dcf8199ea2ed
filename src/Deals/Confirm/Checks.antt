-- ===== src/Deals/Confirm/Checks.antt =====
-- What each check of `confirm_candidate` demands, as a proposition.
use fishing_deal_tracker.Prelude.{
  ◌+◌, ◌*◌, ◌≤◌, String, ◌≡◌, ◌↔◌, refl, false, Option, none, some, List, [], ◌∷◌, arith,
}
use fishing_deal_tracker.Prelude.Int.{ℤ, ◌≤ℤ◌}
use fishing_deal_tracker.Prelude.Eq.{Comparable, string_eq, int_eq, option_eq, to_set, int_beq_iff}
use text.Mathlib.TextEquality.{eq_iff}
use fishing_deal_tracker.Domain.{ConditionGroup, DetectedVia, PageType, Quality, Reason}
use fishing_deal_tracker.Deals.Confirm.{
  ConfirmContext, too_soon, minute, not_from_product_page, identity_differs, variant_differs,
  unit_count_differs, quality_reject, first_other, reference_out_of_scope, below, known_differ_text,
  known_differ_count, known_differ_group, other_reasons,
}
use fishing_deal_tracker.Prelude.{length, ltb}

module _ {A : Type 0} ⦃e : Comparable A⦄ where
  -- Three values form a set of one exactly if they are equal.
  one_value : (a b c : A) → (ltb 1 (length (to_set (a ∷ b ∷ c ∷ []))) ≡ false) ↔ ((a ≡ b) × (b ≡ c))
  one_value a b c = (
    λ h. ground (arith, e.test_iff a b, e.test_iff b c, e.test_iff a c),
    λ h. ground (arith, e.test_iff a b, e.test_iff b c, e.test_iff a c),
  )

-- Where both are known they agree.
abbrev pub Agree {ℓ} : {A : Type ℓ} → Option A → Option A → Type ℓ
Agree {A} a b = (x y : A) → a ≡ some x → b ≡ some y → x ≡ y

pub Agree-text : (a b : Option String) → (known_differ_text a b ≡ false) ↔ Agree a b
Agree-text none b = (λ h x y p q. cc, λ h. refl)
Agree-text (some a) none = (λ h x y p q. cc, λ h. refl)
Agree-text (some a) (some b) =
    (λ h x y p q. ground (arith, eq_iff a b), λ h. ground (arith, eq_iff a b, h a b refl refl))

Agree-count : (a b : Option ℤ) → (known_differ_count a b ≡ false) ↔ Agree a b
Agree-count none b = (λ h x y p q. cc, λ h. refl)
Agree-count (some a) none = (λ h x y p q. cc, λ h. refl)
Agree-count (some a) (some b) = (
  λ h x y p q. ground (arith, int_beq_iff a b),
  λ h. ground (arith, int_beq_iff a b, h a b refl refl),
)

agree_group :
    (a : Option ConditionGroup) (b : ConditionGroup)
    → (known_differ_group a b ≡ false) ↔ ((g : ConditionGroup) → a ≡ some g → g ≡ b)
agree_group none b = (λ h g p. cc, λ h. refl)
agree_group (some a) b = (λ h g p. ground arith, λ h. ground (arith, h a refl))

module _ {F : Type 0} where
  -- Checks 1 to 5.
  pub record IsSameOffer (ctx : ConfirmContext F) : Type 0 where
    pub later : ctx.detected_at + ctx.min_delay_minutes * minute ≤ ctx.confirming_observed_at
    pub product_page :
        ctx.detected_via ≡ DetectedVia.discovery_grid → ctx.confirming_page_type ≡ PageType.product
    pub retailer_sku : ctx.detected_retailer_sku ≡ ctx.confirming_retailer_sku
    pub offer_key : ctx.detected_offer_key ≡ ctx.confirming_offer_key
    pub condition : ctx.detected_condition ≡ ctx.confirming_condition
    pub seller_key : ctx.detected_seller_key ≡ ctx.confirming_seller_key
    pub variant_confirmed : ctx.detected_variant_key_observed ≡ ctx.confirming_variant_key_observed
    pub variant_listed : ctx.confirming_variant_key_observed ≡ ctx.listing_variant_key_observed
    pub unit_count_confirmed : ctx.detected_unit_count ≡ ctx.confirming_unit_count
    pub unit_count_listed : ctx.confirming_unit_count ≡ ctx.listing_unit_count

  pub too_soon_iff :
      (ctx : ConfirmContext F)
      → (too_soon ctx ≡ false)
        ↔ (ctx.detected_at + ctx.min_delay_minutes * minute ≤ ctx.confirming_observed_at)
  unfolding too_soon
  too_soon_iff ctx = (λ h. ground arith, λ h. ground arith)

  pub not_from_product_page_iff :
      (ctx : ConfirmContext F)
      → (not_from_product_page ctx ≡ false) ↔ (
          ctx.detected_via ≡ DetectedVia.discovery_grid
          → ctx.confirming_page_type ≡ PageType.product)
  unfolding not_from_product_page
  not_from_product_page_iff ctx = (λ h p. ground arith, λ h. ground arith)

  pub identity_differs_iff :
      (ctx : ConfirmContext F)
      → (identity_differs ctx ≡ false) ↔ (
          (ctx.detected_retailer_sku ≡ ctx.confirming_retailer_sku)
          × (ctx.detected_offer_key ≡ ctx.confirming_offer_key)
          × (ctx.detected_condition ≡ ctx.confirming_condition)
          × (ctx.detected_seller_key ≡ ctx.confirming_seller_key))
  unfolding identity_differs
  identity_differs_iff ctx =
      let a = eq_iff ctx.detected_retailer_sku ctx.confirming_retailer_sku in
      let b = eq_iff ctx.detected_offer_key ctx.confirming_offer_key in
      let c = eq_iff ctx.detected_condition ctx.confirming_condition in
      let d = eq_iff ctx.detected_seller_key ctx.confirming_seller_key in
      (λ h. ground (arith, a, b, c, d), λ h. ground (arith, a, b, c, d))

  pub variant_differs_iff :
      (ctx : ConfirmContext F)
      → (variant_differs ctx ≡ false) ↔ (
          (ctx.detected_variant_key_observed ≡ ctx.confirming_variant_key_observed)
          × (ctx.confirming_variant_key_observed ≡ ctx.listing_variant_key_observed))
  unfolding variant_differs
  variant_differs_iff ctx = one_value _ _ _

  pub unit_count_differs_iff :
      (ctx : ConfirmContext F)
      → (unit_count_differs ctx ≡ false) ↔ (
          (ctx.detected_unit_count ≡ ctx.confirming_unit_count)
          × (ctx.confirming_unit_count ≡ ctx.listing_unit_count))
  unfolding unit_count_differs
  unit_count_differs_iff ctx = one_value _ _ _

  -- Check 8.
  pub record IsScoped (ctx : ConfirmContext F) : Type 0 where
    pub variant : Agree ctx.recomputed_reference_variant_key ctx.offer_variant_key
    pub unit_count : Agree ctx.recomputed_reference_unit_count ctx.offer_unit_count
    pub group :
        (g : ConditionGroup)
        → ctx.recomputed_reference_condition_group ≡ some g
        → g ≡ ctx.offer_condition_group

  pub reference_out_of_scope_iff :
      (ctx : ConfirmContext F) → (reference_out_of_scope ctx ≡ false) ↔ IsScoped ctx
  unfolding reference_out_of_scope
  reference_out_of_scope_iff ctx =
      let v = Agree-text ctx.recomputed_reference_variant_key ctx.offer_variant_key in
      let u = Agree-count ctx.recomputed_reference_unit_count ctx.offer_unit_count in
      let g = agree_group ctx.recomputed_reference_condition_group ctx.offer_condition_group in
      (
        λ h. record {
          variant = v.0 (ground arith);
          unit_count = u.0 (ground arith);
          group = g.0 (ground arith);
        },
        λ s. ground (arith, v.1 s.variant, u.1 s.unit_count, g.1 s.group),
      )

-- Every reason of the list is a large move.
abbrev pub AllLargeMoves : List Reason → Type 0
AllLargeMoves [] = Unit
AllLargeMoves (r ∷ rs) = (r ≡ Reason.large_move) × AllLargeMoves rs

other_reasons-nil : (rs : List Reason) → (other_reasons rs ≡ []) ↔ AllLargeMoves rs
other_reasons-nil [] = (λ h. tt, λ h. refl)
other_reasons-nil (Reason.large_move ∷ rs) =
    (λ h. (refl, (other_reasons-nil rs).0 h), λ h. (other_reasons-nil rs).1 h.1)
other_reasons-nil (r ∷ rs) = (λ h. absurd (ground arith), λ h. absurd (ground arith))

-- Check 5: the quality is OK, or SUSPECT for large moves only.
abbrev pub IsUsable : Quality → List Reason → Type 0
IsUsable Quality.ok rs = Unit
IsUsable Quality.suspect rs = AllLargeMoves rs
IsUsable Quality.rejected rs = ⊥

first_other-none : (rs : List Reason) → (first_other rs ≡ none) ↔ (rs ≡ [])
first_other-none [] = (λ h. refl, λ h. refl)
first_other-none (r ∷ rs) = (λ h. cc, λ h. cc)

pub quality_reject_iff :
    (q : Quality) (rs : List Reason) → (quality_reject q rs ≡ none) ↔ IsUsable q rs
quality_reject_iff Quality.ok rs = (λ h. tt, λ h. refl)
quality_reject_iff Quality.suspect rs = (
  λ h. (other_reasons-nil rs).0 ((first_other-none (other_reasons rs)).0 h),
  λ h. (first_other-none (other_reasons rs)).1 ((other_reasons-nil rs).1 h),
)
quality_reject_iff Quality.rejected rs = (λ h. absurd (cc), λ h. absurd h)

-- Check 10.
pub below_iff :
    (floor : Option ℤ) (price : ℤ)
    → (below floor price ≡ false) ↔ ((f : ℤ) → floor ≡ some f → f ≤ℤ price)
below_iff none price = (λ h f p. cc, λ h. refl)
below_iff (some floor) price = (λ h f p. ground arith, λ h. ground (arith, h floor refl))

-- ===== src/Store/Deals/UsedLane.antt =====
-- What check 8 makes of a used deal: its recomputed reference is marked NEW, and the offer is not.
use fishing_deal_tracker.Prelude.{
  ℕ, String, ◌≡◌, ◌≢◌, refl, sym, ap, ◌∙◌, true, false, Option, none, some, arith, inl, inr, ◌⊎◌,
}
use fishing_deal_tracker.Prelude.Int.{ℤ, pos}
use fishing_deal_tracker.Floats.{Floats, FloatLaws}
use fishing_deal_tracker.Domain.{ConditionGroup, Lane}
use fishing_deal_tracker.Deals.Confirm.{ConfirmStatus, confirm_candidate}
use fishing_deal_tracker.Deals.Confirm.Verdict.{confirm_candidate-kept}
use fishing_deal_tracker.Store.Database.{Db}
use fishing_deal_tracker.Store.Queries.{
  OfferContext, CurrentNewReference, get_offer_context, resolve_current_new_reference_with_identity,
}
use fishing_deal_tracker.Store.Deals.Rows.{OpenDeal}
use fishing_deal_tracker.Store.Deals.Confirmation.{
  Confirming, Recomputed, build_confirm_context, offer_group, of_context, from_current_new,
  recompute, recomputed_discount, text_or, some_or,
}

module _ {F : Type 0} ⦃fl : Floats F⦄ (laws : FloatLaws F fl) where
  -- A reference among the current new prices is marked NEW; without one the discount is 0.0.
  found_cases :
      (r : Option CurrentNewReference) (price : ℤ)
      → ((from_current_new r).condition_group ≡ some ConditionGroup.new_group)
        ⊎ (recomputed_discount price (from_current_new r).reference_cents ≡ fl.of_int (pos 0))
  found_cases none price = inr refl
  found_cases (some r) price = inl refl

  not_rejected : (s : ConfirmStatus) → ¬ (s ≢ ConfirmStatus.rejected) → s ≡ ConfirmStatus.rejected
  not_rejected ConfirmStatus.active h = absurd (h (λ e. cc))
  not_rejected ConfirmStatus.held_review h = absurd (h (λ e. cc))
  not_rejected ConfirmStatus.rejected h = refl

  recompute-used :
      (db : Db F) (lane : Lane) (offer_id : ℕ) (ctx : Option OfferContext) (claimed : Option ℤ)
      → (key : Option String) (units : Option ℤ) → lane ≡ Lane.used_lane
      → recompute db lane offer_id ctx claimed key units
        ≡ from_current_new (
            resolve_current_new_reference_with_identity db
              (of_context ctx (λ c. c.variant_id))
              offer_id)
  unfolding recompute
  recompute-used db lane offer_id ctx claimed key units e = rw e

  zero_is_shallow : fl.lt (fl.of_int (pos 0)) (fl.of_int (pos 50)) ≡ true
  zero_is_shallow = laws.of_int_strict 0 50 (omega arith) (omega arith)

  -- A USED-lane deal of an offer outside the NEW group is never confirmed: whatever the tables and
  -- the confirming fetch are, `confirm_candidate` rejects the context that is built for it.
  pub used_lane_rejected :
      (db : Db F) (open_deal : OpenDeal) (offer_id : ℕ) (fetch : Confirming)
      → open_deal.lane ≡ Lane.used_lane
      → offer_group (get_offer_context db offer_id) fetch.condition ≢ ConditionGroup.new_group
      → (confirm_candidate (build_confirm_context db open_deal offer_id fetch)).status
        ≡ ConfirmStatus.rejected
  unfolding build_confirm_context
  used_lane_rejected db open_deal offer_id fetch lane group =
      let ctx = get_offer_context db offer_id in
      let key = text_or fetch.variant_key_observed (of_context ctx (λ c. c.variant_key_observed)) in
      let units = some_or fetch.unit_count (of_context ctx (λ c. c.unit_count)) in
      let r =
        resolve_current_new_reference_with_identity db (of_context ctx (λ c. c.variant_id))
          offer_id in
      let same =
        recompute-used db open_deal.lane offer_id ctx fetch.claimed_reference_cents key units
          lane in
      not_rejected _ (λ kept.
        let h = confirm_candidate-kept (build_confirm_context db open_deal offer_id fetch) kept in
        elim (found_cases r fetch.price_cents) [
          | inl g ↦ group (
              sym (
                h.priced.scoped.group ConditionGroup.new_group
                  (ap (λ (x : Recomputed). x.condition_group) same ∙ g)))
          | inr d ↦
              let z =
                ap (λ (x : Recomputed). recomputed_discount fetch.price_cents x.reference_cents)
                  same
                ∙ d in
              let q : true ≡ false =
                sym zero_is_shallow
                ∙ sym (ap (λ t. fl.lt t (fl.of_int (pos 50))) z)
                ∙ h.priced.deep in
              absurd (cc)
        ])

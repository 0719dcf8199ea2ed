-- ===== src/Store/Deals/Outcome.antt =====
-- What a recheck of fpt/store/deals.py decides on each of its branches.
use fishing_deal_tracker.Prelude.{
  ℕ, ◌≡◌, ◌≢◌, ◌↔◌, refl, Bool, true, false, Option, none, some, List, [], ◌∷◌, arith, Bool-cases,
  inl, inr, ==_iff,
}
use fishing_deal_tracker.Prelude.Int.{ℤ, pos, ◌<ℤ◌}
use fishing_deal_tracker.Floats.{Floats}
use fishing_deal_tracker.Domain.{Availability, is_sellable}
use fishing_deal_tracker.Deals.Discount.{percent_off}
use fishing_deal_tracker.Deals.Confirm.{exceeds_tolerance}
use fishing_deal_tracker.Store.Database.{Db, Deal, DealStatus, ExpireReason}
use fishing_deal_tracker.Store.Deals.Rows.{OpenDeal, has_id, update_where}
use fishing_deal_tracker.Store.Deals.Recheck.{
  DealRecheckResult, Decision, RecheckRules, carry_out, current_reference, decide, decide_reference,
  max_increase, min_discount, refresh_or_expire_active_deal,
}

module _ {F : Type 0} where
  -- Each row against what it has become.
  abbrev pub Rowwise : (Deal F → Deal F → Type 0) → (before after : List (Deal F)) → Type 0
  Rowwise R [] [] = Unit
  Rowwise R [] (e ∷ es) = ⊥
  Rowwise R (d ∷ ds) [] = ⊥
  Rowwise R (d ∷ ds) (e ∷ es) = R d e × Rowwise R ds es

  Rowwise-update :
      (p : Deal F → Bool) (f : Deal F → Deal F) (R : Deal F → Deal F → Type 0)
      → (ds : List (Deal F)) → ((d : Deal F) → p d ≡ true → R d (f d))
      → ((d : Deal F) → p d ≡ false → R d d)
      → Rowwise R ds (update_where p f ds)
  Rowwise-update p f R [] h k = tt
  Rowwise-update p f R (d ∷ ds) h k = elim (Bool-cases (p d)) [
    | inl e ↦ rw e (h d e, Rowwise-update p f R ds h k)
    | inr e ↦ rw e (k d e, Rowwise-update p f R ds h k)
  ]

  pub record IsExpired (deal_id now : ℕ) (reason : ExpireReason) (before after : Deal F)
      : Type 0 where
    pub others : before.id ≢ deal_id → after ≡ before
    pub row :
        before.id ≡ deal_id
        → (after.status ≡ DealStatus.expired)
          × (after.expire_reason ≡ some reason)
          × (after.expired_at ≡ some now)
          × (after.price_cents ≡ before.price_cents)

module _ {F : Type 0} ⦃fl : Floats F⦄ where
  pub record IsRefreshed (deal_id observation : ℕ) (price : ℤ) (landed : Option ℤ) (reference : ℤ)
      (before after : Deal F) : Type 0 where
    pub others : before.id ≢ deal_id → after ≡ before
    pub row :
        before.id ≡ deal_id
        → (after.price_cents ≡ price)
          × (after.landed_price_cents ≡ landed)
          × (after.reference_cents ≡ reference)
          × (after.discount_pct ≡ percent_off price reference)
          × (after.last_confirmed_observation_id ≡ some observation)
          × (after.status ≡ before.status)

  -- What a deal needs of an observation to live on: a price within the tolerance of the old one,
  -- and deep against a positive reference.
  pub record LivesOn (price old_price : ℤ) (min_pct max_pct : F) (reference : ℤ) : Type 0 where
    pub positive : pos 0 <ℤ reference
    pub near : exceeds_tolerance price old_price max_pct ≡ false
    pub deep : fl.lt (percent_off price reference) min_pct ≡ false

  decide_reference_iff :
      (db : Db F) (open_deal : OpenDeal) (observation : ℕ) (landed : Option ℤ)
      → (price old_price : ℤ) (min_pct max_pct : F) (reference : Option ℤ)
      → ((carry_out db open_deal observation price landed
            (decide_reference price old_price min_pct max_pct reference)).0
          ≡ DealRecheckResult.refreshed)
        ↔ ((r : ℤ) × (reference ≡ some r) × LivesOn price old_price min_pct max_pct r)
  decide_reference_iff db open_deal observation landed price old_price min_pct max_pct none =
      (λ h. absurd (cc), λ h. let e = h.1 in absurd (cc))
  decide_reference_iff db open_deal observation landed price old_price min_pct max_pct (some r) = (
    λ h. (r, refl, record { positive = ground arith; near = ground arith; deep = ground arith }),
    λ h.
        let same : r ≡ h.0 = (let e = h.1 in cc) in
        let a = h.2.positive in let b = h.2.near in let c = h.2.deep in rw same (ground arith),
  )

  -- What a recheck leaves of each row of the deals.
  abbrev pub IsDone :
      Db F
      → OpenDeal
      → (observation : ℕ) (price : ℤ) (landed reference : Option ℤ) → DealRecheckResult × Db F
      → Type 0
  IsDone db open_deal observation price landed reference (DealRecheckResult.refreshed, after) =
      (r : ℤ) × (reference ≡ some r)
      × Rowwise (IsRefreshed open_deal.id observation price landed r) db.deals after.deals
  IsDone db open_deal observation price landed reference (DealRecheckResult.expired reason, after) =
      Rowwise (IsExpired open_deal.id db.now reason) db.deals after.deals

  carry_out-IsDone :
      (db : Db F) (open_deal : OpenDeal) (observation : ℕ) (landed : Option ℤ)
      → (price : ℤ) (reference : Option ℤ) (d : Decision F)
      → ((r : ℤ) (discount : F)
          → d ≡ Decision.refresh r discount
          → (reference ≡ some r) × (discount ≡ percent_off price r))
      → IsDone db open_deal observation price landed reference
          (carry_out db open_deal observation price landed d)
  carry_out-IsDone db open_deal observation landed price reference (Decision.refresh r discount) h =
      let k = h r discount refl in
      (
        r,
        k.0,
        Rowwise-update (has_id open_deal.id) _ _ db.deals
            (λ d e. record {
              others = λ n. absurd (n ((==_iff d.id open_deal.id).0 e));
              row = λ q. (refl, refl, refl, k.1, refl, refl);
            })
            (λ d e. record {
              others = λ n. refl;
              row = λ q. absurd (cc (e, (==_iff d.id open_deal.id).1 q));
            }),
      )
  carry_out-IsDone db open_deal observation landed price reference (Decision.expire reason) h =
      Rowwise-update (has_id open_deal.id) _ _ db.deals
        (λ d e. record {
          others = λ n. absurd (n ((==_iff d.id open_deal.id).0 e));
          row = λ q. (refl, refl, refl, refl);
        })
        (λ d e. record {
          others = λ n. refl;
          row = λ q. absurd (cc (e, (==_iff d.id open_deal.id).1 q));
        })

  decide-refresh :
      (config : RecheckRules F) (db : Db F) (open_deal : OpenDeal) (offer_id : ℕ) (price : ℤ)
      → (availability : Availability) (min_pct max_pct : Option F) (claimed : Option ℤ)
      → (r : ℤ) (discount : F)
      → decide config db open_deal offer_id price availability min_pct max_pct claimed
        ≡ Decision.refresh r discount
      → (current_reference db open_deal.lane offer_id claimed ≡ some r)
        × (discount ≡ percent_off price r)
  unfolding decide
  decide-refresh config db open_deal offer_id price availability min_pct max_pct claimed r discount
        e =
      ground (arith, e)

  refresh_or_expire_iff :
      (config : RecheckRules F) (db : Db F) (open_deal : OpenDeal) (offer_id observation : ℕ)
      → (price : ℤ) (landed : Option ℤ) (availability : Availability)
      → (min_pct max_pct : Option F) (claimed : Option ℤ)
      → ((refresh_or_expire_active_deal config db open_deal offer_id observation price landed
            availability min_pct max_pct claimed).0
          ≡ DealRecheckResult.refreshed)
        ↔ ((is_sellable availability ≡ true)
            × ((r : ℤ) × (current_reference db open_deal.lane offer_id claimed ≡ some r)
                × LivesOn price open_deal.price_cents
                    (min_discount config min_pct)
                    (max_increase config max_pct)
                    r))
  unfolding refresh_or_expire_active_deal decide
  refresh_or_expire_iff config db open_deal offer_id observation price landed availability min_pct
        max_pct claimed =
      let k =
        decide_reference_iff db open_deal observation landed price open_deal.price_cents
          (min_discount config min_pct) (max_increase config max_pct)
          (current_reference db open_deal.lane offer_id claimed) in
      elim availability
        as (λ a.
          ((carry_out db open_deal observation price landed
              (decide config db open_deal offer_id price a min_pct max_pct claimed)).0
            ≡ DealRecheckResult.refreshed)
          ↔ ((is_sellable a ≡ true)
              × ((r : ℤ) × (current_reference db open_deal.lane offer_id claimed ≡ some r)
                  × LivesOn price open_deal.price_cents (min_discount config min_pct)
                      (max_increase config max_pct) r))) [
                        | Availability.in_stock ↦ (λ h. (refl, k.0 h), λ h. k.1 h.1)
                        | Availability.store_only ↦ (λ h. (refl, k.0 h), λ h. k.1 h.1)
                        | Availability.out_of_stock ↦
                            (λ h. absurd (cc), λ h. let e = h.0 in absurd (cc))
                        | Availability.backorder ↦
                            (λ h. absurd (cc), λ h. let e = h.0 in absurd (cc))
                        | Availability.unknown ↦ (λ h. absurd (cc), λ h. let e = h.0 in absurd (cc))
                      ]

  -- A recheck refreshes the deal exactly when the offer can be bought and the price, within the
  -- tolerance of the deal's own, is deep against the current reference, which is positive; then the
  -- row of the deal has the new price, reference, discount and observation and keeps its status. In
  -- every other case the row is EXPIRED now, with the reason, at its old price. No other row changes.
  pub refresh_or_expire_active_deal-refreshed_iff :
      (config : RecheckRules F) (db : Db F) (open_deal : OpenDeal) (offer_id observation : ℕ)
      → (price : ℤ) (landed : Option ℤ) (availability : Availability)
      → (min_pct max_pct : Option F) (claimed : Option ℤ)
      → let result =
          refresh_or_expire_active_deal config db open_deal offer_id observation price landed
            availability min_pct max_pct claimed in
        let reference = current_reference db open_deal.lane offer_id claimed in
        ((result.0 ≡ DealRecheckResult.refreshed) ↔ (
          (is_sellable availability ≡ true)
          × ((r : ℤ) × (reference ≡ some r)
              × LivesOn price open_deal.price_cents
                  (min_discount config min_pct)
                  (max_increase config max_pct)
                  r)))
        × IsDone db open_deal observation price landed reference result
  unfolding refresh_or_expire_active_deal
  refresh_or_expire_active_deal-refreshed_iff config db open_deal offer_id observation price landed
        availability min_pct max_pct claimed =
      (
        refresh_or_expire_iff config db open_deal offer_id observation price landed availability
            min_pct max_pct claimed,
        carry_out-IsDone db open_deal observation landed price
            (current_reference db open_deal.lane offer_id claimed)
            (decide config db open_deal offer_id price availability min_pct max_pct claimed)
            (decide-refresh config db open_deal offer_id price availability min_pct max_pct
              claimed),
      )

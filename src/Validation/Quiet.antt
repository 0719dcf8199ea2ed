-- ===== src/Validation/Quiet.antt =====
-- What the guards of fpt/pipeline/validate.py ask of an observation with a price, all of them and
-- all but that of the large move.
use mathlib.Core.Path.{subst}
use mathlib.Core.Option.{some-injective}
use text.Mathlib.TextEquality.{eq_iff}
use fishing_deal_tracker.Prelude.{
  String, ◌≡◌, ◌≢◌, ◌↔◌, ◌⊎◌, inl, inr, refl, sym, Bool, true, false, not, ◌&&◌, ◌||◌, Option, none,
  some, List, [], ◌∷◌, ◌++◌, arith, or_default, Bool-cases,
}
use fishing_deal_tracker.Prelude.Int.{ℤ, pos, ◌≤ℤ◌, ◌<ℤ◌, ◌-ℤ◌, ltb_ℤ}
use fishing_deal_tracker.Prelude.Eq.{int_beq_iff}
use fishing_deal_tracker.Prelude.Order.{All}
use fishing_deal_tracker.Floats.{Floats}
use fishing_deal_tracker.Domain.{Reason}
use fishing_deal_tracker.Deals.Confirm.{below, known_differ_text, other_reasons}
use fishing_deal_tracker.Deals.Confirm.Checks.{Agree, Agree-text, below_iff}
use fishing_deal_tracker.Validation.{
  Band, Guards, ObservationContext, ObservationInput, above, guard_reasons, if_nonzero,
  is_collapsed, is_flattened, is_large_change, is_near, is_not_above, is_out_of_band, is_pack_price,
  is_unit_mismatch, any, pack_ratios, listed_if, priced,
}

pub priced_iff :
    (price : Option ℤ) (currency : String) (p : ℤ)
    → (priced price currency ≡ some p) ↔ ((price ≡ some p) × (pos 0 <ℤ p) × (currency ≡ "USD"))
priced_iff none currency p = (λ h. absurd (cc), λ h. absurd (cc))
priced_iff (some q) currency p =
    let usd = eq_iff currency "USD" in (λ h. ground (arith, usd), λ h. ground (arith, usd))

-- The reasons of eight guards, of which `b` is that of the large move.
reasons_of : (a b c d e f g h : Bool) → List Reason
reasons_of a b c d e f g h =
    listed_if a Reason.out_of_band
    ++ (listed_if b Reason.large_move
        ++ (listed_if c Reason.claimed_not_above_price
            ++ (listed_if d Reason.unit_mismatch
                ++ (listed_if e Reason.variant_identity_changed
                    ++ (listed_if f Reason.variant_collapse
                        ++ (listed_if g Reason.price_flattening
                            ++ listed_if h Reason.condition_unknown))))))

reasons_of-nil :
    (a b c d e f g h : Bool)
    → (reasons_of a b c d e f g h ≡ []) ↔ (
        (a ≡ false)
        × (b ≡ false)
        × (c ≡ false)
        × (d ≡ false)
        × (e ≡ false)
        × (f ≡ false)
        × (g ≡ false)
        × (h ≡ false))
unfolding reasons_of
reasons_of-nil a b c d e f g h = (λ k. ground arith, λ k. ground arith)

other-reasons_of :
    (a b c d e f g h : Bool)
    → (other_reasons (reasons_of a b c d e f g h) ≡ []) ↔ (
        (a ≡ false)
        × (c ≡ false)
        × (d ≡ false)
        × (e ≡ false)
        × (f ≡ false)
        × (g ≡ false)
        × (h ≡ false))
unfolding reasons_of
other-reasons_of a b c d e f g h = (λ k. ground arith, λ k. ground arith)

above_iff :
    (ceiling : Option ℤ) (price : ℤ)
    → (above ceiling price ≡ false) ↔ ((c : ℤ) → ceiling ≡ some c → price ≤ℤ c)
above_iff none price = (λ h c p. cc, λ h. refl)
above_iff (some ceiling) price = (λ h c p. ground arith, λ h. ground (arith, h ceiling refl))

is_not_above_iff :
    (claimed : Option ℤ) (price : ℤ)
    → (is_not_above claimed price ≡ false) ↔ ((c : ℤ) → claimed ≡ some c → price <ℤ c)
is_not_above_iff none price = (λ h c p. cc, λ h. refl)
is_not_above_iff (some claimed) price = (λ h c p. ground arith, λ h. ground (arith, h claimed refl))

-- Not from three prices or more to one.
abbrev pub Unflattened : (previous current : Option ℤ) → Type 0
Unflattened previous current = (p : ℤ) → previous ≡ some p → pos 3 ≤ℤ p → current ≢ some (pos 1)

is_flattened_iff :
    (previous current : Option ℤ)
    → (is_flattened previous current ≡ false) ↔ Unflattened previous current
is_flattened_iff none current = (λ h p e k c. absurd (cc), λ h. refl)
is_flattened_iff (some n) none = (λ h p e k c. absurd (cc), λ h. ground arith)
is_flattened_iff (some n) (some m) = (λ h p e k c. ground arith, λ h. ground (arith, h n refl))

or_false : (a b : Bool) → ((a || b) ≡ false) ↔ ((a ≡ false) × (b ≡ false))
or_false a b = (λ h. ground arith, λ h. ground arith)

any-All : {A : Type 0} (p : A → Bool) (xs : List A) → (any p xs ≡ false) ↔ All (λ x. p x ≡ false) xs
any-All p [] = (λ h. tt, λ h. refl)
any-All p (x ∷ xs) =
    let rest = any-All p xs in
    let o = or_false (p x) (any p xs) in
    (λ h. let k = o.0 h in (k.0, rest.0 k.1), λ h. o.1 (h.0, rest.1 h.1))

module _ {F : Type 0} ⦃fl : Floats F⦄ where
  -- No ratio that a pack gives is near the ratio of the prices.
  abbrev pub NoPackPrice : Guards F → (price : ℤ) → (last unit_count : Option ℤ) → Type 0
  NoPackPrice guard price last unit_count =
      (l : ℤ)
      → last ≡ some l
      → All
          (λ c.
            is_near (fl.div_int price l)
              (fl.div (or_default guard.unit_mismatch_tolerance_pct (fl.of_int (pos 5)))
                (fl.of_int (pos 100)))
              c
            ≡ false)
          (pack_ratios guard (if_nonzero unit_count))

  is_pack_price_iff :
      (guard : Guards F) (price : ℤ) (last unit_count : Option ℤ)
      → (is_pack_price guard price last unit_count ≡ false)
        ↔ NoPackPrice guard price last unit_count
  is_pack_price_iff guard price none unit_count = (λ h l e. absurd (cc), λ h. refl)
  is_pack_price_iff guard price (some last) unit_count =
      let iff = any-All _ (pack_ratios guard (if_nonzero unit_count)) in
      (
        λ h l e.
            subst
              (λ n.
                All
                  (λ c.
                    is_near (fl.div_int price n)
                      (fl.div (or_default guard.unit_mismatch_tolerance_pct (fl.of_int (pos 5)))
                        (fl.of_int (pos 100)))
                      c
                    ≡ false)
                  (pack_ratios guard (if_nonzero unit_count)))
              (some-injective last l e) (iff.0 h),
        λ h. iff.1 (h last refl),
      )

  -- Of two known counts, the same one; and with none for the listing, no price of a pack.
  abbrev pub SamePack : Guards F → (price : ℤ) → (last listing_count unit_count : Option ℤ) → Type 0
  SamePack guard price last listing_count unit_count =
      Agree listing_count unit_count
      × (listing_count ≡ none → NoPackPrice guard price last unit_count)

  is_unit_mismatch_iff :
      (guard : Guards F) (price : ℤ) (last listing_count unit_count : Option ℤ)
      → (is_unit_mismatch guard price last listing_count unit_count ≡ false)
        ↔ SamePack guard price last listing_count unit_count
  is_unit_mismatch_iff guard price last (some n) (some m) = (
    λ h. (λ x y e q. ground (arith, h, e, q, int_beq_iff m n), λ e. absurd (cc)),
    λ h. let k = h.0 n m refl refl in ground (arith, k, int_beq_iff m n),
  )
  is_unit_mismatch_iff guard price last (some n) none =
      (λ h. (λ x y e q. absurd (cc), λ e. absurd (cc)), λ h. refl)
  is_unit_mismatch_iff guard price last none unit_count =
      let iff = is_pack_price_iff guard price last unit_count in
      (λ h. (λ x y e q. absurd (cc), λ e. iff.0 h), λ h. iff.1 (h.1 refl))

  -- Less than half of the variants are left in no sweep, and no drop reaches the threshold.
  abbrev pub Uncollapsed : Guards F → (previous current : Option ℤ) → Type 0
  Uncollapsed guard previous current =
      (p c : ℤ)
      → previous ≡ some p
      → current ≡ some c
      → pos 0 <ℤ p
      → (fl.lt (fl.of_int c) (fl.mul (fl.of_int p) (fl.div_int (pos 1) (pos 2))) ≡ false)
        × (fl.lt (fl.mul (fl.div_int (p -ℤ c) p) (fl.of_int (pos 100)))
              (or_default guard.discovery_collapse_pct (fl.of_int (pos 70)))
            ≡ true)

  is_collapsed_iff :
      (guard : Guards F) (previous current : Option ℤ)
      → (is_collapsed guard previous current ≡ false) ↔ Uncollapsed guard previous current
  is_collapsed_iff guard none current = (λ h p c e q k. absurd (cc), λ h. refl)
  is_collapsed_iff guard (some n) none = (λ h p c e q k. absurd (cc), λ h. refl)
  is_collapsed_iff guard (some n) (some m) = (
    λ h p c e q k.
        let a = some-injective n p e in
        let b = some-injective m c q in
        let l : pos 0 <ℤ n = rw a k in rw (sym a, sym b) (ground arith, ground arith),
    λ h. elim (Bool-cases (ltb_ℤ (pos 0) n)) [
      | inl e ↦ let k = h n m refl refl (ground (arith, e)) in rw (e, k.0, k.1) refl
      | inr e ↦ rw e refl
    ],
  )

  -- The price is between the two thresholds, in percent of the last one.
  abbrev pub NoLargeMove : Guards F → (price : ℤ) → (last : Option ℤ) → Type 0
  NoLargeMove guard price last =
      (l : ℤ)
      → last ≡ some l
      → (fl.lt (fl.mul (fl.div_int price l) (fl.of_int (pos 100)))
            (or_default guard.large_move_min_pct (fl.of_int (pos 35)))
          ≡ false)
        × (fl.lt (or_default guard.large_move_max_pct (fl.of_int (pos 300)))
              (fl.mul (fl.div_int price l) (fl.of_int (pos 100)))
            ≡ false)

  pub is_large_change_iff :
      (guard : Guards F) (price : ℤ) (last : Option ℤ)
      → (is_large_change guard price last ≡ false) ↔ NoLargeMove guard price last
  is_large_change_iff guard price none = (λ h l e. absurd (cc), λ h. refl)
  is_large_change_iff guard price (some last) =
      let o = or_false _ _ in
      (λ h l e. let a = some-injective last l e in rw (sym a) (o.0 h), λ h. o.1 (h last refl))

  -- What every guard but that of the large move asks of an observation.
  pub record IsQuiet (guard : Guards F) (band : Band) (obs : ObservationInput)
      (ctx : ObservationContext) (price : ℤ) : Type 0 where
    pub floor : (f : ℤ) → band.floor_cents ≡ some f → f ≤ℤ price
    pub ceiling : (c : ℤ) → band.ceiling_cents ≡ some c → price ≤ℤ c
    pub claim :
        obs.on_clearance ≡ true → (c : ℤ) → obs.claimed_reference_cents ≡ some c → price <ℤ c
    pub pack :
        SamePack guard price
          (if_nonzero ctx.last_ok_price_cents)
          ctx.listing_unit_count
          obs.unit_count
    pub variant : Agree obs.variant_key_observed ctx.listing_variant_key_observed
    pub variants_kept : Uncollapsed guard ctx.previous_variant_count ctx.current_variant_count
    pub prices_kept : Unflattened ctx.previous_distinct_price_count ctx.current_distinct_price_count
    pub wording : (obs.condition_wording_mapped ≡ true) ⊎ (obs.is_used_page_type ≡ true)

  -- The seven tests behind it.
  abbrev Quieted : Guards F → Band → ObservationInput → ObservationContext → ℤ → Type 0
  Quieted guard band obs ctx price =
      (is_out_of_band band price ≡ false)
      × ((obs.on_clearance && is_not_above obs.claimed_reference_cents price) ≡ false)
      × (is_unit_mismatch guard price (if_nonzero ctx.last_ok_price_cents) ctx.listing_unit_count
            obs.unit_count
          ≡ false)
      × (known_differ_text obs.variant_key_observed ctx.listing_variant_key_observed ≡ false)
      × (is_collapsed guard ctx.previous_variant_count ctx.current_variant_count ≡ false)
      × (is_flattened ctx.previous_distinct_price_count ctx.current_distinct_price_count ≡ false)
      × ((not obs.condition_wording_mapped && not obs.is_used_page_type) ≡ false)

  Quieted-IsQuiet :
      (guard : Guards F) (band : Band) (obs : ObservationInput) (ctx : ObservationContext)
      (price : ℤ)
      → Quieted guard band obs ctx price ↔ IsQuiet guard band obs ctx price
  Quieted-IsQuiet guard band obs ctx price =
      let f = below_iff band.floor_cents price in
      let c = above_iff band.ceiling_cents price in
      let n = is_not_above_iff obs.claimed_reference_cents price in
      let v = Agree-text obs.variant_key_observed ctx.listing_variant_key_observed in
      let u =
        is_unit_mismatch_iff guard price (if_nonzero ctx.last_ok_price_cents) ctx.listing_unit_count
          obs.unit_count in
      let n' = is_collapsed_iff guard ctx.previous_variant_count ctx.current_variant_count in
      let w = is_flattened_iff ctx.previous_distinct_price_count ctx.current_distinct_price_count in
      let o = or_false (below band.floor_cents price) (above band.ceiling_cents price) in
      (
        λ h. record {
          floor = f.0 (o.0 h.0).0;
          ceiling = c.0 (o.0 h.0).1;
          claim = λ e. n.0 (ground arith);
          pack = u.0 h.2;
          variant = v.0 h.3;
          variants_kept = n'.0 h.4;
          prices_kept = w.0 h.5;
          wording = ground arith;
        },
        λ q. (
          o.1 (f.1 q.floor, c.1 q.ceiling),
          elim (Bool-cases obs.on_clearance) [ inl e ↦ rw e (n.1 (q.claim e)) | inr e ↦ rw e refl ],
          u.1 q.pack,
          v.1 q.variant,
          n'.1 q.variants_kept,
          w.1 q.prices_kept,
          let known = q.wording in ground arith,
        ),
      )

  pub guard_reasons-nil :
      (guard : Guards F) (band : Band) (obs : ObservationInput) (ctx : ObservationContext)
      (price : ℤ)
      → (guard_reasons guard band obs ctx price ≡ []) ↔ (
          IsQuiet guard band obs ctx price
          × (is_large_change guard price (if_nonzero ctx.last_ok_price_cents) ≡ false))
  unfolding guard_reasons reasons_of
  guard_reasons-nil guard band obs ctx price =
      let k = reasons_of-nil _ _ _ _ _ _ _ _ in
      let q = Quieted-IsQuiet guard band obs ctx price in
      (
        λ h. let t = k.0 h in (q.0 (t.0, t.2, t.3, t.4, t.5, t.6, t.7), t.1),
        λ h. let t = q.1 h.0 in k.1 (t.0, h.1, t.1, t.2, t.3, t.4, t.5, t.6),
      )

  pub other-guard_reasons :
      (guard : Guards F) (band : Band) (obs : ObservationInput) (ctx : ObservationContext)
      (price : ℤ)
      → (other_reasons (guard_reasons guard band obs ctx price) ≡ [])
        ↔ IsQuiet guard band obs ctx price
  unfolding guard_reasons reasons_of
  other-guard_reasons guard band obs ctx price =
      let k = other-reasons_of _ _ _ _ _ _ _ _ in
      let q = Quieted-IsQuiet guard band obs ctx price in (λ h. q.0 (k.0 h), λ h. k.1 (q.1 h))

-- ===== src/Deals/References/Lowest.antt =====
-- R2, U1 and the verified reference are each the lowest of what is available.
use fishing_deal_tracker.Prelude.{
  ◌≡◌, ◌↔◌, ◌⊎◌, refl, inl, inr, true, Option, none, some, List, [], ◌∷◌, ◌++◌, arith, String,
}
use mathlib.Core.Path.{subst}
use text.Mathlib.TextEquality.{eq_iff}
use fishing_deal_tracker.Prelude.Int.{ℤ, ◌≤ℤ◌}
use fishing_deal_tracker.Prelude.Order.{
  All-self, In, All, All-self, In, keep, All-keep, All-kept, All-of_keep, min?, min_by, min_by-le,
  All-min_by,
}
use fishing_deal_tracker.Deals.References.{
  OwnHistoryResult, CrossRetailerCandidate, VerifiedReference, is_verifiable,
  resolve_cross_retailer_new, from_history, from_cross, from_data_api, listed,
  resolve_verified_reference, resolve_used_reference,
}

All-append {ℓ} :
    {A : Type 0} (P : A → Type ℓ) (xs ys : List A) → All P (xs ++ ys) ↔ (All P xs × All P ys)
All-append P [] ys = (λ h. (tt, h), λ h. h.1)
All-append P (x ∷ xs) ys = (
  λ h. let k = (All-append P xs ys).0 h.1 in ((h.0, k.0), k.1),
  λ h. (h.0.0, (All-append P xs ys).1 (h.0.1, h.1)),
)

All-listed :
    {A B : Type 0} (P : B → Type 0) (make : A → B) (o : Option A)
    → All P (listed make o) ↔ ((a : A) → o ≡ some a → P (make a))
All-listed P make none = (λ h a e. cc, λ h. tt)
All-listed P make (some a) =
    (λ h b e. let same : a ≡ b = cc e in subst (λ x. P (make x)) same h.0, λ h. (h a refl, tt))

module _ {A : Type 0} (key : A → ℤ) where
  pub min?-le : (xs : List A) (a : A) → min? key xs ≡ some a → All (λ x. key a ≤ℤ key x) xs
  min?-le [] a e = tt
  min?-le (x ∷ xs) a e =
      let same : min_by key x xs ≡ a = cc e in
      subst (λ m. All (λ y. key m ≤ℤ key y) (x ∷ xs)) same (min_by-le key x xs)

  pub All-min? : (P : A → Type 0) (xs : List A) (a : A) → min? key xs ≡ some a → All P xs → P a
  All-min? P [] a e h = absurd (cc)
  All-min? P (x ∷ xs) a e h =
      let same : min_by key x xs ≡ a = cc e in rw (← same) (All-min_by key P x xs h.0 h.1)

  pub min?-none : (xs : List A) → (min? key xs ≡ none) ↔ (xs ≡ [])
  min?-none [] = (λ h. refl, λ h. refl)
  min?-none (x ∷ xs) = (λ h. absurd (cc), λ h. absurd (cc))

-- The links that may verify a reference: by barcode, by part number, or made by hand.
abbrev pub IsVerifiedLink : String → Type 0
IsVerifiedLink status = (status ≡ "auto_gtin") ⊎ (status ≡ "auto_mpn") ⊎ (status ≡ "manual")

is_verifiable_iff :
    (c : CrossRetailerCandidate) → (is_verifiable c ≡ true) ↔ IsVerifiedLink c.match_status
is_verifiable_iff c =
    let a = eq_iff c.match_status "auto_gtin" in
    let b = eq_iff c.match_status "auto_mpn" in
    let d = eq_iff c.match_status "manual" in
    (λ h. ground (arith, a, b, d), λ h. ground (arith, a, b, d))

-- A cross-retailer reference has a link that verifies it, and no other candidate with such a link
-- is cheaper: an attribute-only match never verifies.
pub resolve_cross_retailer_new-lowest :
    (cs : List CrossRetailerCandidate) (c : CrossRetailerCandidate)
    → resolve_cross_retailer_new cs ≡ some c
    → IsVerifiedLink c.match_status
      × All (λ x. is_verifiable x ≡ true → c.price_cents ≤ℤ x.price_cents) cs
unfolding resolve_cross_retailer_new
resolve_cross_retailer_new-lowest cs c e =
    let key : CrossRetailerCandidate → ℤ = λ x. x.price_cents in
    (
      (is_verifiable_iff c).0 (
          All-min? key (λ x. is_verifiable x ≡ true) (keep is_verifiable cs) c e
            (All-kept is_verifiable cs)),
      All-of_keep (λ x. c.price_cents ≤ℤ x.price_cents) is_verifiable cs
          (min?-le key (keep is_verifiable cs) c e),
    )

-- The choice is among the candidates.
pub All-resolve_cross_retailer_new :
    (P : CrossRetailerCandidate → Type 0) (cs : List CrossRetailerCandidate)
    → (c : CrossRetailerCandidate) → resolve_cross_retailer_new cs ≡ some c
    → All P cs
    → P c
unfolding resolve_cross_retailer_new
All-resolve_cross_retailer_new P cs c e h =
    All-min? (λ x. x.price_cents) P (keep is_verifiable cs) c e (All-keep P is_verifiable cs h)

-- The reference `v` was made from an available source.
abbrev pub Source :
    Option OwnHistoryResult → Option CrossRetailerCandidate → Option ℤ → VerifiedReference → Type 0
Source own cross api v =
    ((o : OwnHistoryResult) × (own ≡ some o) × (v ≡ from_history o))
    ⊎ ((c : CrossRetailerCandidate) × (cross ≡ some c) × (v ≡ from_cross c))
    ⊎ ((a : ℤ) × (api ≡ some a) × (v ≡ from_data_api a))

-- What a verified reference `v` says of the three sources.
pub record IsLowest (own : Option OwnHistoryResult) (cross : Option CrossRetailerCandidate)
    (api : Option ℤ) (v : VerifiedReference) : Type 0 where
  pub below_own : (o : OwnHistoryResult) → own ≡ some o → v.cents ≤ℤ o.median_cents
  pub below_cross : (c : CrossRetailerCandidate) → cross ≡ some c → v.cents ≤ℤ c.price_cents
  pub below_api : (a : ℤ) → api ≡ some a → v.cents ≤ℤ a
  pub is_source : Source own cross api v

-- A verified reference is one of the available sources, and no available source is lower.
pub resolve_verified_reference-IsLowest :
    (own : Option OwnHistoryResult) (cross : Option CrossRetailerCandidate) (api : Option ℤ)
    → (v : VerifiedReference) → resolve_verified_reference own cross api ≡ some v
    → IsLowest own cross api v
unfolding resolve_verified_reference
resolve_verified_reference-IsLowest own cross api v e =
    let key : VerifiedReference → ℤ = λ r. r.cents in
    let rest = listed from_cross cross ++ listed from_data_api api in
    let low = (All-append _ (listed from_history own) rest).0 (min?-le key _ v e) in
    let low' = (All-append _ (listed from_cross cross) (listed from_data_api api)).0 low.1 in
    record {
      below_own = (All-listed (λ x. v.cents ≤ℤ x.cents) from_history own).0 low.0;
      below_cross = (All-listed (λ x. v.cents ≤ℤ x.cents) from_cross cross).0 low'.0;
      below_api = (All-listed (λ x. v.cents ≤ℤ x.cents) from_data_api api).0 low'.1;
      is_source = All-min? key (Source own cross api) _ v e (
          (All-append _ (listed from_history own) rest).1 (
            (All-listed (Source own cross api) from_history own).1 (λ o p. inl (o, p, refl)),
            (All-append _ (listed from_cross cross) (listed from_data_api api)).1 (
              (All-listed (Source own cross api) from_cross cross).1
                  (λ c p. inr (inl (c, p, refl))),
              (All-listed (Source own cross api) from_data_api api).1
                  (λ a p. inr (inr (a, p, refl))),
            ),
          ));
    }

-- There is no verified reference exactly when none of the three sources is available.
pub resolve_verified_reference-none :
    (own : Option OwnHistoryResult) (cross : Option CrossRetailerCandidate) (api : Option ℤ)
    → (resolve_verified_reference own cross api ≡ none)
      ↔ ((own ≡ none) × (cross ≡ none) × (api ≡ none))
unfolding resolve_verified_reference
resolve_verified_reference-none none none none = (λ h. (refl, refl, refl), λ h. refl)
resolve_verified_reference-none (some o) cross api = (λ h. cc, λ h. cc)
resolve_verified_reference-none none (some c) api = (λ h. cc, λ h. cc)
resolve_verified_reference-none none none (some a) = (λ h. cc, λ h. cc)

-- The reference of a used item is one of the current new prices, and none of them is lower.
pub resolve_used_reference-lowest :
    (prices : List ℤ) (p : ℤ)
    → resolve_used_reference prices ≡ some p
    → In p prices × All (λ x. p ≤ℤ x) prices
unfolding resolve_used_reference
resolve_used_reference-lowest prices p e =
    (All-min? (λ x. x) (λ x. In x prices) prices p e (All-self prices), min?-le (λ x. x) prices p e)

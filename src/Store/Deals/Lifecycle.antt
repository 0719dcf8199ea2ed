-- ===== src/Store/Deals/Lifecycle.antt =====
-- The deal that `find_open_deal` hands to the writes, and what each write makes of it.
use mathlib.Core.Path.{subst, sym}
use fishing_deal_tracker.Prelude.{
  ℕ, ◌≡◌, ◌≢◌, refl, ap, ◌∙◌, inl, inr, Bool, true, ==_iff, Option, none, some, List, [], ◌∷◌,
  is_some, arith, Bool-cases,
}
use fishing_deal_tracker.Prelude.Int.{ℤ}
use fishing_deal_tracker.Prelude.Order.{
  All, In, keep, sort, insert_sorted, All-self, All-keep, All-kept, All-sort, All-pair, All-In,
  All-implies,
}
use fishing_deal_tracker.Prelude.Query.{find?, head?}
use fishing_deal_tracker.Floats.{Floats}
use fishing_deal_tracker.Domain.{Availability, ClaimedReferenceKind, DetectedVia, Rule}
use fishing_deal_tracker.Deals.Confirm.{ConfirmContext, ConfirmResult}
use fishing_deal_tracker.Deals.Detect.{DealCandidate}
use fishing_deal_tracker.Deals.References.{ReferenceDetail}
use fishing_deal_tracker.Store.Database.{Db, Deal, DealReferenceKind, DealStatus, ExpireReason}
use fishing_deal_tracker.Store.Deals.Rows.{
  OpenDeal, is_open, is_open_for, to_open_deal, to_open, detected_later, find_open_deal, has_id,
  new_deal, create_candidate_deal, meets_checks,
}
use fishing_deal_tracker.Store.Deals.Confirmation.{apply_confirm_result, result_row}
use fishing_deal_tracker.Store.Deals.Recheck.{
  RecheckRules, Decision, carry_out, decide, refresh_or_expire_active_deal, expire_stale_deals,
  is_stale, expire_row, refresh_row,
}
use fishing_deal_tracker.Store.Deals.Invariant.{
  IsValid, needs_observation, DistinctIds, update-IsValid,
}

module _ {F : Type 0} where
  -- The row that was found: it stands in the table, and is open for the offer and the rule.
  pub record Found (db : Db F) (offer_id : ℕ) (rule : Rule) (open_deal : OpenDeal) : Type 0 where
    pub row : Deal F
    pub stored : In row db.deals
    pub open_for : is_open_for offer_id rule row ≡ true
    pub same : to_open_deal row ≡ open_deal

  found_row :
      (P : Deal F → Type 0) (xs : List (Deal F)) (open_deal : OpenDeal)
      → to_open (head? xs) ≡ some open_deal
      → All P xs
      → (row : Deal F) × P row × (to_open_deal row ≡ open_deal)
  found_row P [] open_deal e h = absurd (cc)
  found_row P (x ∷ xs) open_deal e h = (x, h.0, cc e)

  pub find_open_deal-Found :
      (db : Db F) (offer_id : ℕ) (rule : Rule) (open_deal : OpenDeal)
      → find_open_deal db offer_id rule ≡ some open_deal
      → Found db offer_id rule open_deal
  unfolding find_open_deal
  find_open_deal-Found db offer_id rule open_deal e =
      let test = is_open_for offer_id rule in
      let kept = keep test db.deals in
      let P : Deal F → Type 0 = λ d. In d db.deals × (test d ≡ true) in
      let rows =
        All-pair (λ d. In d db.deals) (λ d. test d ≡ true) kept
          (All-keep _ test db.deals (All-self db.deals)) (All-kept test db.deals) in
      let (row, holds, same) =
        found_row P (sort detected_later kept) open_deal e (All-sort detected_later P kept rows) in
      record { row = row; stored = holds.0; open_for = holds.1; same = same }

  -- An id names one row.
  In-unique :
      (x : Deal F) (ds : List (Deal F))
      → DistinctIds ds
      → In x ds
      → All (λ d. d.id ≡ x.id → d ≡ x) ds
  In-unique x [] h i = tt
  In-unique x (d ∷ ds) h (inl e) = (
    λ _. sym e,
    All-implies (λ y. y.id ≢ d.id) _ ds (λ y ne q. absurd (ne (q ∙ ap (λ (z : Deal F). z.id) e)))
        h.0,
  )
  In-unique x (d ∷ ds) h (inr i) =
      (λ q. absurd (All-In (λ y. y.id ≢ d.id) ds x h.0 i (sym q)), In-unique x ds h.1 i)

  open_of :
      (offer_id : ℕ) (rule : Rule) (d : Deal F)
      → is_open_for offer_id rule d ≡ true
      → is_open d.status ≡ true
  open_of offer_id rule d h = ground arith

  -- The rows that an update by the found deal's id touches: the found one alone.
  pub touched :
      (db : Db F) (offer_id : ℕ) (rule : Rule) (open_deal : OpenDeal)
      → IsValid db
      → find_open_deal db offer_id rule ≡ some open_deal
      → All
          (λ d.
            has_id open_deal.id d ≡ true
            → (is_open d.status ≡ true) × (d.status ≡ open_deal.status))
          db.deals
  touched db offer_id rule open_deal v e =
      let found = find_open_deal-Found db offer_id rule open_deal e in
      let id : found.row.id ≡ open_deal.id = ap (λ (o : OpenDeal). o.id) found.same in
      let status : found.row.status ≡ open_deal.status =
        ap (λ (o : OpenDeal). o.status) found.same in
      let opened = open_of offer_id rule found.row found.open_for in
      All-implies _ _ db.deals
        (λ d unique q.
          let same : d ≡ found.row = unique ((==_iff d.id open_deal.id).0 q ∙ sym id) in
          (
            subst (λ (x : Deal F). is_open x.status ≡ true) (sym same) opened,
            ap (λ (x : Deal F). x.status) same ∙ status,
          ))
        (In-unique found.row db.deals v.distinct found.stored)

  keep-find :
      (p : Deal F → Bool) (ds : List (Deal F))
      → is_some (find? p ds) ≡ true
      → is_some (head? (keep p ds)) ≡ true
  keep-find p [] h = absurd (cc)
  keep-find p (d ∷ ds) h = elim (Bool-cases (p d)) [
    | inl e ↦ rw e
    | inr e ↦ rw e (keep-find p ds (ground arith))
  ]

  head-insert_sorted :
      (before : Deal F → Deal F → Bool) (x : Deal F) (ys : List (Deal F))
      → is_some (head? (insert_sorted before x ys)) ≡ true
  head-insert_sorted before x [] = refl
  head-insert_sorted before x (y ∷ ys) = ground arith

  head-sort :
      (before : Deal F → Deal F → Bool) (xs : List (Deal F))
      → is_some (head? xs) ≡ true
      → is_some (head? (sort before xs)) ≡ true
  head-sort before [] h = h
  head-sort before (x ∷ xs) h = head-insert_sorted before x (sort before xs)

  some-to_open : (o : Option (Deal F)) → is_some o ≡ true → is_some (to_open o) ≡ true
  some-to_open none h = h
  some-to_open (some d) h = refl

  find_open_deal-some :
      (db : Db F) (offer_id : ℕ) (rule : Rule)
      → is_some (find? (is_open_for offer_id rule) db.deals) ≡ true
      → is_some (find_open_deal db offer_id rule) ≡ true
  unfolding find_open_deal
  find_open_deal-some db offer_id rule h =
      some-to_open _ (head-sort detected_later _ (keep-find (is_open_for offer_id rule) db.deals h))

module _ {F : Type 0} ⦃fl : Floats F⦄ (db : Db F) (offer_id : ℕ) (candidate : DealCandidate F)
    (observation : ℕ) (via : DetectedVia) (kind : DealReferenceKind) (grounds : ReferenceDetail)
    (detected_at : ℕ) (claimed : Option ℤ) (claimed_kind : Option ClaimedReferenceKind)
    (inflated : Option Bool) where
  abbrev created : Db F → Option OpenDeal × Db F
  created d =
      create_candidate_deal d offer_id candidate observation via kind grounds detected_at claimed
        claimed_kind inflated

  new_deal-open :
      is_open_for offer_id candidate.rule (
        new_deal db offer_id candidate observation via kind grounds detected_at claimed claimed_kind
          inflated)
      ≡ true
  new_deal-open = ground arith

  -- Creating a candidate that meets the CHECKs always hands back an open deal: the exception behind
  -- the unique index is never raised. A second call with the same arguments changes no deal.
  pub create_candidate_deal-again :
      meets_checks candidate claimed ≡ true
      → (is_some (created db).0 ≡ true) × ((created (created db).1).1.deals ≡ (created db).1.deals)
  unfolding create_candidate_deal
  create_candidate_deal-again c =
      elim (Bool-cases (is_some (find? (is_open_for offer_id candidate.rule) db.deals))) [
        | inl e ↦ rw (c, e) (find_open_deal-some db offer_id candidate.rule e, rw e)
        | inr e ↦ rw (c, e) (refl, rw new_deal-open)
      ]

module _ {F : Type 0} where
  -- Recording a verdict on the deal that `find_open_deal` found keeps the table's invariant,
  -- whatever the verdict.
  pub apply_confirm_result-IsValid :
      (db : Db F) (offer_id : ℕ) (rule : Rule) (open_deal : OpenDeal) (observation : ℕ)
      → (result : ConfirmResult) (ctx : Option (ConfirmContext F)) → IsValid db
      → find_open_deal db offer_id rule ≡ some open_deal
      → IsValid (apply_confirm_result db open_deal.id observation result ctx)
  unfolding apply_confirm_result
  apply_confirm_result-IsValid db offer_id rule open_deal observation result ctx v e =
      let f = result_row db.now result.status observation result ctx in
      update-IsValid db (has_id open_deal.id) f
        (record {
          same_offer = λ d. ground arith;
          same_rule = λ d. ground arith;
          same_id = λ d. ground arith;
        })
        (All-implies _ _ db.deals (λ d h q. ((h q).0, λ c. ground arith))
          (touched db offer_id rule open_deal v e))
        v

  -- The sweep that expires ACTIVE deals without a fresh observation keeps the table's invariant.
  pub expire_stale_deals-IsValid :
      (db : Db F) (now stale_hours : ℕ)
      → IsValid db
      → IsValid (expire_stale_deals db now stale_hours).1
  unfolding expire_stale_deals
  expire_stale_deals-IsValid db now stale_hours v =
      update-IsValid db (is_stale db now stale_hours) (expire_row now ExpireReason.not_observed)
        (record { same_offer = λ d. refl; same_rule = λ d. refl; same_id = λ d. refl })
        (All-implies _ _ db.deals (λ d h q. (ground arith, λ c. ground (arith, h))) v.confirmed) v

module _ {F : Type 0} ⦃fl : Floats F⦄ where
  active_needs : (d : Deal F) → d.status ≡ DealStatus.active → needs_observation d.status ≡ true
  active_needs d e = ground arith

  carry_out-IsValid :
      (db : Db F) (offer_id : ℕ) (rule : Rule) (open_deal : OpenDeal) (observation : ℕ) (price : ℤ)
      → (landed : Option ℤ) (decision : Decision F) → IsValid db
      → find_open_deal db offer_id rule ≡ some open_deal
      → open_deal.status ≡ DealStatus.active
      → IsValid (carry_out db open_deal observation price landed decision).1
  carry_out-IsValid db offer_id rule open_deal observation price landed (Decision.refresh ref pct) v
        e s =
      update-IsValid db (has_id open_deal.id) (refresh_row observation price landed pct ref)
        (record { same_offer = λ d. refl; same_rule = λ d. refl; same_id = λ d. refl })
        (All-implies _ _ db.deals (λ d h q. ((h.0 q).0, h.1))
          (All-pair _ _ db.deals (touched db offer_id rule open_deal v e) v.confirmed))
        v
  carry_out-IsValid db offer_id rule open_deal observation price landed (Decision.expire reason) v e
        s =
      update-IsValid db (has_id open_deal.id) (expire_row db.now reason)
        (record { same_offer = λ d. refl; same_rule = λ d. refl; same_id = λ d. refl })
        (All-implies _ _ db.deals (λ d h q. ((h.0 q).0, λ c. h.1 (active_needs d ((h.0 q).1 ∙ s))))
          (All-pair _ _ db.deals (touched db offer_id rule open_deal v e) v.confirmed))
        v

  -- Rechecking the ACTIVE deal that `find_open_deal` found keeps the table's invariant, whether it
  -- is refreshed or expired.
  pub refresh_or_expire_active_deal-IsValid :
      (config : RecheckRules F) (db : Db F) (offer_id : ℕ) (rule : Rule) (open_deal : OpenDeal)
      → (observation : ℕ) (price : ℤ) (landed : Option ℤ) (availability : Availability)
      → (min_pct max_pct : Option F) (claimed : Option ℤ) → IsValid db
      → find_open_deal db offer_id rule ≡ some open_deal
      → open_deal.status ≡ DealStatus.active
      → IsValid
          (refresh_or_expire_active_deal config db open_deal offer_id observation price landed
            availability min_pct max_pct claimed).1
  unfolding refresh_or_expire_active_deal
  refresh_or_expire_active_deal-IsValid config db offer_id rule open_deal observation price landed
        availability min_pct max_pct claimed v e s =
      carry_out-IsValid db offer_id rule open_deal observation price landed
        (decide config db open_deal offer_id price availability min_pct max_pct claimed) v e s

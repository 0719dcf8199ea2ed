-- ===== src/Store/Deals/Invariant.antt =====
-- The invariant of the `deals` table, and that every write of fpt/store/deals.py keeps it.
use mathlib.Core.Path.{subst, sym}
use fishing_deal_tracker.Prelude.{
  ℕ, ◌+◌, ◌<◌, ◌≡◌, ◌≢◌, inl, inr, Bool, true, false, Option, List, [], ◌∷◌, is_some, arith,
  Bool-cases,
}
use fishing_deal_tracker.Prelude.Int.{ℤ}
use fishing_deal_tracker.Prelude.Order.{All}
use fishing_deal_tracker.Prelude.Query.{find?}
use fishing_deal_tracker.Floats.{Floats}
use fishing_deal_tracker.Domain.{ClaimedReferenceKind, DetectedVia, Rule}
use fishing_deal_tracker.Deals.Detect.{DealCandidate}
use fishing_deal_tracker.Deals.References.{ReferenceDetail}
use fishing_deal_tracker.Store.Database.{Db, Deal, DealReferenceKind, DealStatus}
use fishing_deal_tracker.Store.Deals.Rows.{
  is_open, is_open_for, update_where, create_candidate_deal, meets_checks,
}

-- The statuses that `deals_confirmed_status_requires_observation` asks an observation of.
abbrev pub needs_observation : DealStatus → Bool
needs_observation DealStatus.active = true
needs_observation DealStatus.held_review = true
needs_observation DealStatus.expired = true
needs_observation _ = false

module _ {F : Type 0} where
  -- No row is open for the offer and the rule.
  abbrev pub NoneOpen : ℕ → Rule → List (Deal F) → Type 0
  NoneOpen offer_id rule ds = All (λ d. is_open_for offer_id rule d ≡ false) ds

  -- `deals_one_open_per_offer_rule`
  abbrev pub OneOpen : List (Deal F) → Type 0
  OneOpen [] = Unit
  OneOpen (d ∷ ds) = (is_open d.status ≡ true → NoneOpen d.offer_id d.rule ds) × OneOpen ds

  abbrev pub IsConfirmedRow : Deal F → Type 0
  IsConfirmedRow d = needs_observation d.status ≡ true → is_some d.confirming_observation_id ≡ true

  -- The primary key.
  abbrev pub DistinctIds : List (Deal F) → Type 0
  DistinctIds [] = Unit
  DistinctIds (d ∷ ds) = All (λ e. e.id ≢ d.id) ds × DistinctIds ds

  pub record IsValid (db : Db F) : Type 0 where
    pub one_open : OneOpen db.deals
    pub distinct : DistinctIds db.deals
    pub confirmed : All IsConfirmedRow db.deals
    pub numbered : All (λ d. d.id < db.next_deal_id) db.deals

  -- An update of rows that opens none and moves none to another offer or rule.
  pub record Tame (p : Deal F → Bool) (f : Deal F → Deal F) : Type 0 where
    pub same_offer : (d : Deal F) → (f d).offer_id ≡ d.offer_id
    pub same_rule : (d : Deal F) → (f d).rule ≡ d.rule
    pub same_id : (d : Deal F) → (f d).id ≡ d.id

  -- The rows that an update touches are open before, and confirmed after.
  abbrev pub Touches : (Deal F → Bool) → (Deal F → Deal F) → Deal F → Type 0
  Touches p f d = p d ≡ true → (is_open d.status ≡ true) × IsConfirmedRow (f d)

  NoneOpen-update :
      (p : Deal F → Bool) (f : Deal F → Deal F) (t : Tame p f) (offer_id : ℕ) (rule : Rule)
      → (ds : List (Deal F)) → All (Touches p f) ds
      → NoneOpen offer_id rule ds
      → NoneOpen offer_id rule (update_where p f ds)
  NoneOpen-update p f t offer_id rule [] k h = tt
  NoneOpen-update p f t offer_id rule (d ∷ ds) k h = elim (Bool-cases (p d)) [
    | inl e ↦ rw e (
      ground (arith, t.same_offer d, t.same_rule d, k.0 e),
      NoneOpen-update p f t offer_id rule ds k.1 h.1,
    )
    | inr e ↦ rw e (h.0, NoneOpen-update p f t offer_id rule ds k.1 h.1)
  ]

  OneOpen-update :
      (p : Deal F → Bool) (f : Deal F → Deal F) (t : Tame p f) (ds : List (Deal F))
      → All (Touches p f) ds
      → OneOpen ds
      → OneOpen (update_where p f ds)
  OneOpen-update p f t [] k h = tt
  OneOpen-update p f t (d ∷ ds) k h = elim (Bool-cases (p d)) [
    | inl e ↦
        rw (e, t.same_offer, t.same_rule)
          (
            λ _. NoneOpen-update p f t d.offer_id d.rule ds k.1 (h.0 (k.0 e).0),
            OneOpen-update p f t ds k.1 h.1,
          )
    | inr e ↦ rw e (
      λ o. NoneOpen-update p f t d.offer_id d.rule ds k.1 (h.0 o),
      OneOpen-update p f t ds k.1 h.1,
    )
  ]

  confirmed-update :
      (p : Deal F → Bool) (f : Deal F → Deal F) (ds : List (Deal F))
      → All (Touches p f) ds
      → All IsConfirmedRow ds
      → All IsConfirmedRow (update_where p f ds)
  confirmed-update p f [] k h = tt
  confirmed-update p f (d ∷ ds) k h = elim (Bool-cases (p d)) [
    | inl e ↦ rw e ((k.0 e).1, confirmed-update p f ds k.1 h.1)
    | inr e ↦ rw e (h.0, confirmed-update p f ds k.1 h.1)
  ]

  -- A property of ids passes to the updated rows.
  ids-update :
      (P : ℕ → Type 0) (p : Deal F → Bool) (f : Deal F → Deal F) (t : Tame p f)
      → (ds : List (Deal F)) → All (λ d. P d.id) ds
      → All (λ d. P d.id) (update_where p f ds)
  ids-update P p f t [] h = tt
  ids-update P p f t (d ∷ ds) h = elim (Bool-cases (p d)) [
    | inl e ↦ rw e (subst P (sym (t.same_id d)) h.0, ids-update P p f t ds h.1)
    | inr e ↦ rw e (h.0, ids-update P p f t ds h.1)
  ]

  DistinctIds-update :
      (p : Deal F → Bool) (f : Deal F → Deal F) (t : Tame p f) (ds : List (Deal F))
      → DistinctIds ds
      → DistinctIds (update_where p f ds)
  DistinctIds-update p f t [] h = tt
  DistinctIds-update p f t (d ∷ ds) h =
      let id = d.id in
      let others = ids-update (λ i. i ≢ id) p f t ds h.0 in
      elim (Bool-cases (p d)) [
        | inl e ↦ rw (e, t.same_id) (others, DistinctIds-update p f t ds h.1)
        | inr e ↦ rw e (others, DistinctIds-update p f t ds h.1)
      ]

  -- An update that touches open rows only, and confirms them, keeps the invariant.
  pub update-IsValid :
      (db : Db F) (p : Deal F → Bool) (f : Deal F → Deal F) (t : Tame p f)
      → All (Touches p f) db.deals
      → IsValid db
      → IsValid (record db { deals = update_where p f db.deals })
  update-IsValid db p f t k h = record {
    one_open = OneOpen-update p f t db.deals k h.one_open;
    distinct = DistinctIds-update p f t db.deals h.distinct;
    confirmed = confirmed-update p f db.deals k h.confirmed;
    numbered = ids-update (λ i. i < db.next_deal_id) p f t db.deals h.numbered;
  }

  find?-none :
      (p : Deal F → Bool) (ds : List (Deal F))
      → is_some (find? p ds) ≡ false
      → All (λ d. p d ≡ false) ds
  find?-none p [] h = tt
  find?-none p (d ∷ ds) h = elim (Bool-cases (p d)) [
    | inl e ↦ absurd (ground arith)
    | inr e ↦ (e, find?-none p ds (ground arith))
  ]

  fresh-ids : (n : ℕ) (ds : List (Deal F)) → All (λ d. d.id < n) ds → All (λ d. d.id ≢ n) ds
  fresh-ids n [] h = tt
  fresh-ids n (d ∷ ds) h = (λ e. omega (arith, h.0, e), fresh-ids n ds h.1)

  later-ids : (n : ℕ) (ds : List (Deal F)) → All (λ d. d.id < n) ds → All (λ d. d.id < n + 1) ds
  later-ids n [] h = tt
  later-ids n (d ∷ ds) h = (omega (arith, h.0), later-ids n ds h.1)

module _ {F : Type 0} ⦃fl : Floats F⦄ where
  -- Creating a candidate keeps one open deal for each offer and rule, one row for each id, and an
  -- observation behind every confirmed deal.
  pub create_candidate_deal-IsValid :
      (db : Db F) (offer_id : ℕ) (candidate : DealCandidate F) (observation : ℕ)
      → (via : DetectedVia) (kind : DealReferenceKind) (grounds : ReferenceDetail) (detected_at : ℕ)
      → (claimed : Option ℤ) (claimed_kind : Option ClaimedReferenceKind) (inflated : Option Bool)
      → IsValid db
      → IsValid
          (create_candidate_deal db offer_id candidate observation via kind grounds detected_at
            claimed claimed_kind inflated).1
  unfolding create_candidate_deal
  create_candidate_deal-IsValid db offer_id candidate observation via kind grounds detected_at
        claimed claimed_kind inflated h =
      elim (Bool-cases (meets_checks candidate claimed)) [
        | inl c ↦
            rw c
              (elim (Bool-cases (is_some (find? (is_open_for offer_id candidate.rule) db.deals))) [
                | inl e ↦ rw e (record {
                  one_open = h.one_open;
                  distinct = h.distinct;
                  confirmed = h.confirmed;
                  numbered = later-ids db.next_deal_id db.deals h.numbered;
                })
                | inr e ↦ rw e (record {
                  one_open = (
                    λ _. find?-none (is_open_for offer_id candidate.rule) db.deals e,
                    h.one_open,
                  );
                  distinct = (fresh-ids db.next_deal_id db.deals h.numbered, h.distinct);
                  confirmed = (λ c. absurd (cc), h.confirmed);
                  numbered = (omega arith, later-ids db.next_deal_id db.deals h.numbered);
                })
              ])
        | inr c ↦ rw c (record {
          one_open = h.one_open;
          distinct = h.distinct;
          confirmed = h.confirmed;
          numbered = later-ids db.next_deal_id db.deals h.numbered;
        })
      ]

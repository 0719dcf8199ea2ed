-- ===== src/Store/Deals/Rows.antt =====
-- Rows of the `deals` table: the open ones, and updates of one row.
use fishing_deal_tracker.Prelude.{
  ℕ, ◌+◌, Bool, true, false, ◌&&◌, not, Option, none, some, List, [], ◌∷◌, leb, is_some,
  if◌then◌else◌,
}
use fishing_deal_tracker.Prelude.Int.{ℤ, ltb_ℤ, pos}
use fishing_deal_tracker.Prelude.Eq.{◌==◌, nat_eq}
use fishing_deal_tracker.Prelude.Order.{keep, sort}
use fishing_deal_tracker.Prelude.Query.{find?, head?}
use fishing_deal_tracker.Floats.{Floats}
use fishing_deal_tracker.Domain.{ClaimedReferenceKind, DetectedVia, Lane, Rule, rule_beq}
use fishing_deal_tracker.Deals.Detect.{DealCandidate}
use fishing_deal_tracker.Deals.References.{ReferenceDetail}
use fishing_deal_tracker.Store.Database.{Db, Deal, DealReferenceKind, DealStatus}

-- `status IN ('CANDIDATE', 'CONFIRMING', 'ACTIVE', 'HELD_REVIEW')`
abbrev pub is_open : DealStatus → Bool
is_open DealStatus.rejected = false
is_open DealStatus.expired = false
is_open _ = true

-- `status IN ('CANDIDATE', 'CONFIRMING')`
abbrev pub is_unconfirmed : DealStatus → Bool
is_unconfirmed DealStatus.candidate = true
is_unconfirmed DealStatus.confirming = true
is_unconfirmed _ = false

abbrev pub is_active : DealStatus → Bool
is_active DealStatus.active = true
is_active _ = false

pub record OpenDeal : Type 0 where
  pub id : ℕ
  pub rule : Rule
  pub lane : Lane
  pub detected_observation_id : ℕ
  pub detected_at : ℕ
  pub detected_via : DetectedVia
  pub price_cents : ℤ
  pub status : DealStatus

module _ {F : Type 0} where
  abbrev pub is_open_for : ℕ → Rule → Deal F → Bool
  is_open_for offer_id rule d = is_open d.status && d.offer_id == offer_id && rule_beq d.rule rule

  abbrev pub detected_later : Deal F → Deal F → Bool
  detected_later a b = leb b.detected_at a.detected_at

  abbrev pub to_open_deal : Deal F → OpenDeal
  to_open_deal d = record {
    id = d.id;
    rule = d.rule;
    lane = d.lane;
    detected_observation_id = d.detected_observation_id;
    detected_at = d.detected_at;
    detected_via = d.detected_via;
    price_cents = d.price_cents;
    status = d.status;
  }

  abbrev pub to_open : Option (Deal F) → Option OpenDeal
  to_open none = none
  to_open (some d) = some (to_open_deal d)

  -- `ORDER BY detected_at DESC LIMIT 1`
  unfoldable pub find_open_deal : Db F → (offer_id : ℕ) → Rule → Option OpenDeal
  find_open_deal db offer_id rule =
      to_open (head? (sort detected_later (keep (is_open_for offer_id rule) db.deals)))

  -- `UPDATE deals SET … WHERE …`
  abbrev pub update_where : (Deal F → Bool) → (Deal F → Deal F) → List (Deal F) → List (Deal F)
  update_where p f [] = []
  update_where p f (d ∷ ds) = (if p d then f d else d) ∷ update_where p f ds

  abbrev pub has_id : ℕ → Deal F → Bool
  has_id deal_id d = d.id == deal_id

  abbrev pub update_deal : ℕ → (Deal F → Deal F) → Db F → Db F
  update_deal deal_id f db = record db { deals = update_where (has_id deal_id) f db.deals }

  abbrev pub new_deal :
      (db : Db F) (offer_id : ℕ) (candidate : DealCandidate F) (detected_observation_id : ℕ)
      → DetectedVia
      → DealReferenceKind
      → ReferenceDetail
      → (detected_at : ℕ) (claimed_reference_cents : Option ℤ) → Option ClaimedReferenceKind
      → (claimed_inflated : Option Bool) → Deal F
  new_deal db offer_id candidate observation via kind grounds detected_at claimed claimed_kind
        inflated =
      record {
        id = db.next_deal_id;
        offer_id = offer_id;
        rule = candidate.rule;
        lane = candidate.lane;
        status = DealStatus.confirming;
        detected_observation_id = observation;
        confirming_observation_id = none;
        last_confirmed_observation_id = none;
        detected_via = via;
        price_cents = candidate.price_cents;
        landed_price_cents = none;
        reference_kind = kind;
        reference_cents = candidate.reference_cents;
        reference_detail = grounds;
        claimed_reference_cents = claimed;
        claimed_reference_kind = claimed_kind;
        claimed_inflated = inflated;
        discount_pct = candidate.discount_pct;
        reject_reason = none;
        hold_reason = none;
        detected_at = detected_at;
        confirmed_at = none;
        expired_at = none;
        expire_reason = none;
      }

-- `x IS NULL OR x > 0`
abbrev pub is_positive_or_null : Option ℤ → Bool
is_positive_or_null none = true
is_positive_or_null (some n) = ltb_ℤ (pos 0) n

module _ {F : Type 0} ⦃fl : Floats F⦄ where
  -- The CHECKs of db/migrations/008_deals.up.sql on the row of a candidate. Those on the texts hold
  -- by their types, and a candidate's landed price is NULL.
  abbrev pub meets_checks : DealCandidate F → (claimed_reference_cents : Option ℤ) → Bool
  meets_checks candidate claimed =
      ltb_ℤ (pos 0) candidate.price_cents
      && ltb_ℤ (pos 0) candidate.reference_cents
      && is_positive_or_null claimed
      && not (fl.lt candidate.discount_pct (fl.of_int (pos 0)))
      && not (fl.lt (fl.of_int (pos 100)) candidate.discount_pct)
      && ltb_ℤ candidate.price_cents candidate.reference_cents

  -- The insert of a candidate, or the deal that is open already. None is an exception: that of a
  -- CHECK, which is tested before the index, or that of the index where no deal is open.
  unfoldable pub create_candidate_deal :
      (db : Db F) (offer_id : ℕ) (candidate : DealCandidate F) (detected_observation_id : ℕ)
      → DetectedVia
      → DealReferenceKind
      → ReferenceDetail
      → (detected_at : ℕ) (claimed_reference_cents : Option ℤ) → Option ClaimedReferenceKind
      → (claimed_inflated : Option Bool) → Option OpenDeal × Db F
  create_candidate_deal db offer_id candidate observation via kind grounds detected_at claimed
        claimed_kind inflated =
      let row =
        new_deal db offer_id candidate observation via kind grounds detected_at claimed claimed_kind
          inflated in
      let numbered = record db { next_deal_id = db.next_deal_id + 1 } in
      if not (meets_checks candidate claimed)
      then (none, numbered)
      else if is_some (find? (is_open_for offer_id candidate.rule) db.deals)
      then (find_open_deal db offer_id candidate.rule, numbered)
      else (some (to_open_deal row), record numbered { deals = row ∷ db.deals })

-- ===== src/Store/Pipeline/Keeps.antt =====
-- That fpt/store/pipeline.py keeps the invariant of the `deals` table, whatever it does with an
-- observation, and queues the confirmation of what it detects.
use mathlib.Core.Path.{subst}
use fishing_deal_tracker.Prelude.{
  ℕ, ◌≡◌, Bool, true, Option, none, some, List, [], ◌∷◌, arith, Bool-cases, Option-cases, inl, inr,
}
use fishing_deal_tracker.Prelude.Int.{ℤ}
use fishing_deal_tracker.Floats.{Floats}
use fishing_deal_tracker.Domain.{ConditionGroup, ParsedOffer, Rule, group_beq}
use fishing_deal_tracker.Deals.Confirm.{confirm_candidate}
use fishing_deal_tracker.Deals.Detect.{DealCandidate, DealRules}
use fishing_deal_tracker.Store.Database.{Db, DealStatus}
use fishing_deal_tracker.Store.Queries.{get_offer_context, is_ok}
use fishing_deal_tracker.Store.Deals.Rows.{OpenDeal, find_open_deal, is_active}
use fishing_deal_tracker.Store.Deals.Confirmation.{
  enqueue_confirm_task, insert_task, build_confirm_context,
}
use fishing_deal_tracker.Store.Deals.Recheck.{RecheckRules}
use fishing_deal_tracker.Store.Deals.Invariant.{IsValid, create_candidate_deal-IsValid}
use fishing_deal_tracker.Store.Deals.Lifecycle.{
  apply_confirm_result-IsValid, refresh_or_expire_active_deal-IsValid,
}
use fishing_deal_tracker.Store.Pipeline.{
  DealAction, Fetched, compare_price, confirm_rule, confirming, landed_price_cents, may_confirm,
  or_next, recheck_rule, rules_in_order, try_confirm, try_recheck_active,
}
use fishing_deal_tracker.Store.Pipeline.Ingest.{
  Detected, act_on_observation, create_new, create_used, created_action, detect_if_ok,
  detect_if_priced, enqueue_for, recheck_if_ok, run_detection,
}

active_status : (s : DealStatus) → is_active s ≡ true → s ≡ DealStatus.active
active_status s e = ground arith

module _ {F : Type 0} where
  -- Where there is a result, its tables are valid.
  abbrev Keeps : Option (DealAction × Db F) → Type 0
  Keeps none = Unit
  Keeps (some r) = IsValid r.1

  or_next-Keeps : (a b : Option (DealAction × Db F)) → Keeps a → Keeps b → Keeps (or_next a b)
  or_next-Keeps none b h k = k
  or_next-Keeps (some a) b h k = h

  pub same-IsValid :
      (db db' : Db F)
      → db'.deals ≡ db.deals
      → db'.next_deal_id ≡ db.next_deal_id
      → IsValid db
      → IsValid db'
  same-IsValid db db' d n v = record {
    one_open = rw d v.one_open;
    distinct = rw d v.distinct;
    confirmed = rw d v.confirmed;
    numbered = rw (d, n) v.numbered;
  }

  enqueue_for-same :
      (fetch : Fetched) (deal_id : ℕ) (db : Db F)
      → ((enqueue_for fetch deal_id db).deals ≡ db.deals)
        × ((enqueue_for fetch deal_id db).next_deal_id ≡ db.next_deal_id)
  unfolding enqueue_confirm_task insert_task
  enqueue_for-same fetch deal_id db = (ground arith, ground arith)

  enqueue_for-IsValid :
      (fetch : Fetched) (deal_id : ℕ) (db : Db F)
      → IsValid db
      → IsValid (enqueue_for fetch deal_id db)
  enqueue_for-IsValid fetch deal_id db v =
      let same = enqueue_for-same fetch deal_id db in
      same-IsValid db (enqueue_for fetch deal_id db) same.0 same.1 v

  created_action-Keeps :
      (fetch : Fetched) (r : Option OpenDeal × Db F) → IsValid r.1 → Keeps (created_action fetch r)
  created_action-Keeps fetch (none, db) v = tt
  created_action-Keeps fetch (some d, db) v = enqueue_for-IsValid fetch d.id db v

module _ {F : Type 0} ⦃fl : Floats F⦄ where
  recheck_rule-Keeps :
      (config : RecheckRules F) (db : Db F) (offer_id : ℕ) (offer : ParsedOffer) (observed_id : ℕ)
      → (rule : Rule) → IsValid db
      → Keeps (recheck_rule config db offer_id offer observed_id rule)
  unfolding recheck_rule
  recheck_rule-Keeps config db offer_id offer observed_id rule v =
      elim (Option-cases (find_open_deal db offer_id rule)) [
        | inl e ↦ rw (e, Keeps) tt
        | inr (d, e) ↦ elim (Bool-cases (is_active d.status)) [
          | inr i ↦ rw (e, i, Keeps) tt
          | inl i ↦
              elim (Option-cases
                (compare_price rule (landed_price_cents offer).0 (landed_price_cents offer).1)) [
                  | inl c ↦ rw (e, i, c, Keeps) tt
                  | inr (price, c) ↦
                      rw (e, i, c, Keeps)
                        (refresh_or_expire_active_deal-IsValid config db offer_id rule d observed_id
                          price (landed_price_cents offer).1 offer.availability none none
                          offer.claimed_reference_cents v e (active_status d.status i))
                ]
        ]
      ]

  try_recheck_active-Keeps :
      (config : RecheckRules F) (db : Db F) (offer_id : ℕ) (offer : ParsedOffer) (observed_id : ℕ)
      → (rules : List Rule) → IsValid db
      → Keeps (try_recheck_active config db offer_id offer observed_id rules)
  unfolding try_recheck_active
  try_recheck_active-Keeps config db offer_id offer observed_id [] v = tt
  try_recheck_active-Keeps config db offer_id offer observed_id (rule ∷ rules) v =
      or_next-Keeps _ _ (recheck_rule-Keeps config db offer_id offer observed_id rule v)
        (try_recheck_active-Keeps config db offer_id offer observed_id rules v)

  confirm_rule-Keeps :
      (db : Db F) (offer_id : ℕ) (offer : ParsedOffer) (fetch : Fetched) (rule : Rule)
      → IsValid db
      → Keeps (confirm_rule db offer_id offer fetch rule)
  unfolding confirm_rule
  confirm_rule-Keeps db offer_id offer fetch rule v =
      elim (Option-cases (find_open_deal db offer_id rule)) [
        | inl e ↦ rw (e, Keeps) tt
        | inr (d, e) ↦ elim (Bool-cases (may_confirm d fetch)) [
          | inr m ↦ rw (e, m, Keeps) tt
          | inl m ↦ elim (Option-cases offer.price_cents) [
            | inl p ↦ rw (e, m, p, Keeps) tt
            | inr (price, p) ↦
                let ctx = build_confirm_context db d offer_id (confirming offer fetch price) in
                rw (e, m, p, Keeps)
                  (apply_confirm_result-IsValid db offer_id rule d fetch.observed_id
                    (confirm_candidate ctx) (some ctx) v e)
          ]
        ]
      ]

  try_confirm-Keeps :
      (db : Db F) (offer_id : ℕ) (offer : ParsedOffer) (fetch : Fetched) (rules : List Rule)
      → IsValid db
      → Keeps (try_confirm db offer_id offer fetch rules)
  unfolding try_confirm
  try_confirm-Keeps db offer_id offer fetch [] v = tt
  try_confirm-Keeps db offer_id offer fetch (rule ∷ rules) v =
      or_next-Keeps _ _ (confirm_rule-Keeps db offer_id offer fetch rule v)
        (try_confirm-Keeps db offer_id offer fetch rules v)

  create_new-Keeps :
      (db : Db F) (offer_id : ℕ) (offer : ParsedOffer) (fetch : Fetched) (inflated : Option Bool)
      → (d : Option (Detected F)) → IsValid db
      → Keeps (create_new db offer_id offer fetch inflated d)
  create_new-Keeps db offer_id offer fetch inflated none v = v
  create_new-Keeps db offer_id offer fetch inflated (some d) v =
      created_action-Keeps fetch _ (create_candidate_deal-IsValid db _ _ _ _ _ _ _ _ _ _ v)

  create_used-Keeps :
      (db : Db F) (offer_id : ℕ) (fetch : Fetched) (c : Option (DealCandidate F))
      → IsValid db
      → Keeps (create_used db offer_id fetch c)
  create_used-Keeps db offer_id fetch none v = v
  create_used-Keeps db offer_id fetch (some c) v =
      created_action-Keeps fetch _ (create_candidate_deal-IsValid db _ _ _ _ _ _ _ _ _ _ v)

  run_detection-Keeps :
      (config : DealRules F) (db : Db F) (offer_id : ℕ) (offer : ParsedOffer) (price : ℤ)
      → (fetch : Fetched) → IsValid db
      → Keeps (run_detection config db offer_id offer price fetch)
  unfolding run_detection
  run_detection-Keeps config db offer_id offer price fetch v =
      elim (Option-cases (get_offer_context db offer_id)) [
        | inl e ↦ rw (e, Keeps) tt
        | inr (ctx, e) ↦
            elim (Bool-cases (group_beq ctx.condition_group ConditionGroup.new_group)) [
              | inl g ↦ rw (e, g, Keeps) (create_new-Keeps db offer_id offer fetch _ _ v)
              | inr g ↦ rw (e, g, Keeps) (create_used-Keeps db offer_id fetch _ v)
            ]
      ]

  detect_if_priced-Keeps :
      (config : DealRules F) (db : Db F) (offer_id : ℕ) (offer : ParsedOffer) (fetch : Fetched)
      → (price : Option ℤ) → IsValid db
      → Keeps (detect_if_priced config db offer_id offer fetch price)
  detect_if_priced-Keeps config db offer_id offer fetch none v = v
  detect_if_priced-Keeps config db offer_id offer fetch (some price) v =
      run_detection-Keeps config db offer_id offer price fetch v

  detect_if_ok-Keeps :
      (config : DealRules F) (db : Db F) (offer_id : ℕ) (offer : ParsedOffer) (fetch : Fetched)
      → IsValid db
      → Keeps (detect_if_ok config db offer_id offer fetch)
  detect_if_ok-Keeps config db offer_id offer fetch v = elim (Bool-cases (is_ok fetch.quality)) [
    | inr q ↦ rw (q, Keeps) v
    | inl q ↦ rw q (detect_if_priced-Keeps config db offer_id offer fetch offer.price_cents v)
  ]

  recheck_if_ok-Keeps :
      (recheck : RecheckRules F) (db : Db F) (offer_id : ℕ) (offer : ParsedOffer) (fetch : Fetched)
      → IsValid db
      → Keeps (recheck_if_ok recheck db offer_id offer fetch)
  recheck_if_ok-Keeps recheck db offer_id offer fetch v = elim (Bool-cases (is_ok fetch.quality)) [
    | inr q ↦ rw (q, Keeps) tt
    | inl q ↦
        rw q (try_recheck_active-Keeps recheck db offer_id offer fetch.observed_id rules_in_order v)
  ]

  act_on_observation-Keeps :
      (config : DealRules F) (recheck : RecheckRules F) (db : Db F) (offer_id : ℕ)
      → (offer : ParsedOffer) (fetch : Fetched) → IsValid db
      → Keeps (act_on_observation config recheck db offer_id offer fetch)
  unfolding act_on_observation
  act_on_observation-Keeps config recheck db offer_id offer fetch v =
      or_next-Keeps _ _ (recheck_if_ok-Keeps recheck db offer_id offer fetch v) (
        or_next-Keeps _ _ (try_confirm-Keeps db offer_id offer fetch rules_in_order v)
          (detect_if_ok-Keeps config db offer_id offer fetch v))

  -- Whatever an observation makes of the deals of its offer, by recheck, confirmation or
  -- detection, the tables that result keep the invariant: one open deal for each offer and rule,
  -- one row for each id, and an observation behind every confirmed deal.
  pub act_on_observation-IsValid :
      (config : DealRules F) (recheck : RecheckRules F) (db : Db F) (offer_id : ℕ)
      → (offer : ParsedOffer) (fetch : Fetched) (answer : DealAction) (db' : Db F) → IsValid db
      → act_on_observation config recheck db offer_id offer fetch ≡ some (answer, db')
      → IsValid db'
  act_on_observation-IsValid config recheck db offer_id offer fetch answer db' v e =
      subst Keeps e (act_on_observation-Keeps config recheck db offer_id offer fetch v)

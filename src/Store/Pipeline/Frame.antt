-- ===== src/Store/Pipeline/Frame.antt =====
-- What fpt/store/pipeline.py can change of the tables when it acts on an observation: the deals, and
-- the tasks by queueing new ones.
use mathlib.Core.Path.{subst}
use fishing_deal_tracker.Prelude.{
  ℕ, ◌≡◌, refl, Bool, Option, none, some, List, [], ◌∷◌, is_some, Bool-cases, Option-cases, inl,
  inr,
}
use fishing_deal_tracker.Prelude.Int.{ℤ}
use fishing_deal_tracker.Prelude.Query.{find?}
use fishing_deal_tracker.Floats.{Floats}
use fishing_deal_tracker.Domain.{
  Availability, ClaimedReferenceKind, ConditionGroup, DetectedVia, ParsedOffer, Rule, group_beq,
}
use fishing_deal_tracker.Deals.Detect.{DealCandidate, DealRules}
use fishing_deal_tracker.Deals.References.{ReferenceDetail}
use fishing_deal_tracker.Store.Database.{CrawlTask, Db, Deal, DealReferenceKind, TaskStatus}
use fishing_deal_tracker.Store.Queries.{get_offer_context, is_ok}
use fishing_deal_tracker.Store.Deals.Rows.{
  OpenDeal, create_candidate_deal, meets_checks, find_open_deal, is_active, is_open_for,
}
use fishing_deal_tracker.Store.Deals.Confirmation.{
  apply_confirm_result, enqueue_confirm_task, insert_task,
}
use fishing_deal_tracker.Store.Deals.Recheck.{
  Decision, RecheckRules, carry_out, decide, refresh_or_expire_active_deal,
}
use fishing_deal_tracker.Store.Pipeline.{
  DealAction, Fetched, compare_price, confirm_rule, landed_price_cents, may_confirm, or_next,
  recheck_rule, rules_in_order, try_confirm, try_recheck_active,
}
use fishing_deal_tracker.Store.Pipeline.Ingest.{
  Detected, act_on_observation, create_new, create_used, created_action, detect_if_priced,
  enqueue_for, run_detection,
}

-- A task that waits, and that no drain has tried yet.
pub record IsFresh (t : CrawlTask) : Type 0 where
  pub queued : t.status ≡ TaskStatus.queued
  pub untried : t.attempts ≡ 0
  pub unfinished : t.finished_at ≡ none

-- A property of the tables that no write of a deal breaks, and no new task that is fresh.
pub record Frame {F : Type 0} (P : Db F → Type 0) : Type 0 where
  pub deals :
      (db : Db F) (deals : List (Deal F)) (next_deal_id : ℕ)
      → P db
      → P (record db { deals = deals; next_deal_id = next_deal_id })
  pub tasks : (db : Db F) (task : CrawlTask) → IsFresh task → P db → P (insert_task db task).1

module _ {F : Type 0} (P : Db F → Type 0) (frame : Frame P) where
  abbrev pub Holds : Option (DealAction × Db F) → Type 0
  Holds none = Unit
  Holds (some r) = P r.1

  or_next-Holds : (a b : Option (DealAction × Db F)) → Holds a → Holds b → Holds (or_next a b)
  or_next-Holds none b h k = k
  or_next-Holds (some a) b h k = h

  enqueue_for-Holds :
      (fetch : Fetched) (deal_id : ℕ) (db : Db F) → P db → P (enqueue_for fetch deal_id db)
  unfolding enqueue_confirm_task
  enqueue_for-Holds fetch deal_id db h = elim (Bool-cases fetch.skip_confirm_task_enqueue) [
    | inl e ↦ rw e h
    | inr e ↦
        rw e (frame.tasks db _ (record { queued = refl; untried = refl; unfinished = refl }) h)
  ]

  created_action-Holds :
      (fetch : Fetched) (r : Option OpenDeal × Db F) → P r.1 → Holds (created_action fetch r)
  created_action-Holds fetch (none, db) h = tt
  created_action-Holds fetch (some d, db) h = enqueue_for-Holds fetch d.id db h

module _ {F : Type 0} ⦃fl : Floats F⦄ (P : Db F → Type 0) (frame : Frame P) where
  create-holds :
      (db : Db F) (offer_id : ℕ) (c : DealCandidate F) (observation : ℕ) (via : DetectedVia)
      → (kind : DealReferenceKind) (grounds : ReferenceDetail) (detected_at : ℕ)
      → (claimed : Option ℤ) (claimed_kind : Option ClaimedReferenceKind) (inflated : Option Bool)
      → P db
      → P
          (create_candidate_deal db offer_id c observation via kind grounds detected_at claimed
            claimed_kind inflated).1
  unfolding create_candidate_deal
  create-holds db offer_id c observation via kind grounds detected_at claimed claimed_kind inflated
        h =
      elim (Bool-cases (meets_checks c claimed)) [
        | inr k ↦ rw k (frame.deals db db.deals _ h)
        | inl k ↦ rw k (elim (Bool-cases (is_some (find? (is_open_for offer_id c.rule) db.deals))) [
          | inl e ↦ rw e (frame.deals db db.deals _ h)
          | inr e ↦ rw e (frame.deals db _ _ h)
        ])
      ]

  create_new-Holds :
      (db : Db F) (offer_id : ℕ) (offer : ParsedOffer) (fetch : Fetched) (inflated : Option Bool)
      → (d : Option (Detected F)) → P db
      → Holds P frame (create_new db offer_id offer fetch inflated d)
  create_new-Holds db offer_id offer fetch inflated none h = h
  create_new-Holds db offer_id offer fetch inflated (some d) h =
      created_action-Holds P frame fetch _ (create-holds db _ _ _ _ _ _ _ _ _ _ h)

  create_used-Holds :
      (db : Db F) (offer_id : ℕ) (fetch : Fetched) (c : Option (DealCandidate F))
      → P db
      → Holds P frame (create_used db offer_id fetch c)
  create_used-Holds db offer_id fetch none h = h
  create_used-Holds db offer_id fetch (some c) h =
      created_action-Holds P frame fetch _ (create-holds db _ _ _ _ _ _ _ _ _ _ h)

  carry_out-holds :
      (db : Db F) (d : OpenDeal) (observation : ℕ) (price : ℤ) (landed : Option ℤ)
      → (x : Decision F) → P db
      → P (carry_out db d observation price landed x).1
  carry_out-holds db d observation price landed (Decision.refresh reference discount) h =
      frame.deals db _ db.next_deal_id h
  carry_out-holds db d observation price landed (Decision.expire reason) h =
      frame.deals db _ db.next_deal_id h

  refresh-holds :
      (config : RecheckRules F) (db : Db F) (d : OpenDeal) (offer_id observation : ℕ) (price : ℤ)
      → (landed : Option ℤ) (a : Availability) (min_pct max_pct : Option F) (claimed : Option ℤ)
      → P db
      → P
          (refresh_or_expire_active_deal config db d offer_id observation price landed a min_pct
            max_pct claimed).1
  unfolding refresh_or_expire_active_deal
  refresh-holds config db d offer_id observation price landed a min_pct max_pct claimed h =
      carry_out-holds db d observation price landed
        (decide config db d offer_id price a min_pct max_pct claimed) h

  recheck_rule-Holds :
      (config : RecheckRules F) (db : Db F) (offer_id : ℕ) (offer : ParsedOffer) (observed_id : ℕ)
      → (rule : Rule) → P db
      → Holds P frame (recheck_rule config db offer_id offer observed_id rule)
  unfolding recheck_rule
  recheck_rule-Holds config db offer_id offer observed_id rule h =
      elim (Option-cases (find_open_deal db offer_id rule)) [
        | inl e ↦ rw (e, Holds) tt
        | inr (d, e) ↦ elim (Bool-cases (is_active d.status)) [
          | inr i ↦ rw (e, i, Holds) tt
          | inl i ↦
              elim (Option-cases
                (compare_price rule (landed_price_cents offer).0 (landed_price_cents offer).1)) [
                  | inl c ↦ rw (e, i, c, Holds) tt
                  | inr (price, c) ↦
                      rw (e, i, c, Holds)
                        (refresh-holds config db d offer_id observed_id price
                          (landed_price_cents offer).1 offer.availability none none
                          offer.claimed_reference_cents h)
                ]
        ]
      ]

  try_recheck_active-Holds :
      (config : RecheckRules F) (db : Db F) (offer_id : ℕ) (offer : ParsedOffer) (observed_id : ℕ)
      → (rules : List Rule) → P db
      → Holds P frame (try_recheck_active config db offer_id offer observed_id rules)
  unfolding try_recheck_active
  try_recheck_active-Holds config db offer_id offer observed_id [] h = tt
  try_recheck_active-Holds config db offer_id offer observed_id (rule ∷ rules) h =
      or_next-Holds P frame _ _ (recheck_rule-Holds config db offer_id offer observed_id rule h)
        (try_recheck_active-Holds config db offer_id offer observed_id rules h)

  confirm_rule-Holds :
      (db : Db F) (offer_id : ℕ) (offer : ParsedOffer) (fetch : Fetched) (rule : Rule)
      → P db
      → Holds P frame (confirm_rule db offer_id offer fetch rule)
  unfolding confirm_rule apply_confirm_result
  confirm_rule-Holds db offer_id offer fetch rule h =
      elim (Option-cases (find_open_deal db offer_id rule)) [
        | inl e ↦ rw (e, Holds) tt
        | inr (d, e) ↦ elim (Bool-cases (may_confirm d fetch)) [
          | inr m ↦ rw (e, m, Holds) tt
          | inl m ↦ elim (Option-cases offer.price_cents) [
            | inl p ↦ rw (e, m, p, Holds) tt
            | inr (price, p) ↦ rw (e, m, p, Holds) (frame.deals db _ db.next_deal_id h)
          ]
        ]
      ]

  try_confirm-Holds :
      (db : Db F) (offer_id : ℕ) (offer : ParsedOffer) (fetch : Fetched) (rules : List Rule)
      → P db
      → Holds P frame (try_confirm db offer_id offer fetch rules)
  unfolding try_confirm
  try_confirm-Holds db offer_id offer fetch [] h = tt
  try_confirm-Holds db offer_id offer fetch (rule ∷ rules) h =
      or_next-Holds P frame _ _ (confirm_rule-Holds db offer_id offer fetch rule h)
        (try_confirm-Holds db offer_id offer fetch rules h)

  run_detection-Holds :
      (config : DealRules F) (db : Db F) (offer_id : ℕ) (offer : ParsedOffer) (price : ℤ)
      → (fetch : Fetched) → P db
      → Holds P frame (run_detection config db offer_id offer price fetch)
  unfolding run_detection
  run_detection-Holds config db offer_id offer price fetch h =
      elim (Option-cases (get_offer_context db offer_id)) [
        | inl e ↦ rw (e, Holds) tt
        | inr (ctx, e) ↦
            elim (Bool-cases (group_beq ctx.condition_group ConditionGroup.new_group)) [
              | inl g ↦ rw (e, g, Holds) (create_new-Holds db offer_id offer fetch _ _ h)
              | inr g ↦ rw (e, g, Holds) (create_used-Holds db offer_id fetch _ h)
            ]
      ]

  detect_if_priced-Holds :
      (config : DealRules F) (db : Db F) (offer_id : ℕ) (offer : ParsedOffer) (fetch : Fetched)
      → (price : Option ℤ) → P db
      → Holds P frame (detect_if_priced config db offer_id offer fetch price)
  detect_if_priced-Holds config db offer_id offer fetch none h = h
  detect_if_priced-Holds config db offer_id offer fetch (some price) h =
      run_detection-Holds config db offer_id offer price fetch h

  act-Holds :
      (config : DealRules F) (recheck : RecheckRules F) (db : Db F) (offer_id : ℕ)
      → (offer : ParsedOffer) (fetch : Fetched) → P db
      → Holds P frame (act_on_observation config recheck db offer_id offer fetch)
  unfolding act_on_observation
  act-Holds config recheck db offer_id offer fetch h =
      let confirmed = try_confirm-Holds db offer_id offer fetch rules_in_order h in
      elim (Bool-cases (is_ok fetch.quality)) [
        | inl q ↦ rw q (
            or_next-Holds P frame _ _
              (try_recheck_active-Holds recheck db offer_id offer fetch.observed_id rules_in_order
                h)
              (or_next-Holds P frame _ _ confirmed
                (detect_if_priced-Holds config db offer_id offer fetch offer.price_cents h)))
        | inr q ↦ rw q (or_next-Holds P frame _ _ confirmed h)
      ]

  -- What no write of a deal and no queued task breaks still holds after an observation was acted on.
  pub act_on_observation-Frame :
      (config : DealRules F) (recheck : RecheckRules F) (db : Db F) (offer_id : ℕ)
      → (offer : ParsedOffer) (fetch : Fetched) (answer : DealAction) (db' : Db F) → P db
      → act_on_observation config recheck db offer_id offer fetch ≡ some (answer, db')
      → P db'
  act_on_observation-Frame config recheck db offer_id offer fetch answer db' h e =
      subst (Holds P frame) e (act-Holds config recheck db offer_id offer fetch h)

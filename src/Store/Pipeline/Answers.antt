-- ===== src/Store/Pipeline/Answers.antt =====
-- How the detection of fpt/store/pipeline.py ends, and that it queues a confirmation for the deal
-- that it creates.
use fishing_deal_tracker.Prelude.{
  ℕ, ◌≡◌, ◌⊎◌, or_default, refl, Bool, true, false, Option, none, some, is_some, arith, Bool-cases,
  inl, inr,
}
use fishing_deal_tracker.Prelude.Int.{ℤ, pos}
use fishing_deal_tracker.Prelude.Query.{find?}
use fishing_deal_tracker.Floats.{Floats}
use fishing_deal_tracker.Domain.{ConditionGroup, ParsedOffer, group_beq}
use fishing_deal_tracker.Deals.Detect.{DealCandidate, DealRules, detect_used_vs_current_new}
use fishing_deal_tracker.Deals.References.{claimed_inflated}
use fishing_deal_tracker.Store.Database.{Db, DedupeKey}
use fishing_deal_tracker.Store.Queries.{
  OfferContext, get_offer_context, resolve_current_new_for_variant,
  resolve_verified_reference_for_offer,
}
use fishing_deal_tracker.Store.Deals.Rows.{OpenDeal, meets_checks}
use fishing_deal_tracker.Store.Deals.Confirmation.{enqueue_confirm_task, has_open_key, insert_task}
use fishing_deal_tracker.Store.Deals.Lifecycle.{create_candidate_deal-again}
use fishing_deal_tracker.Store.Deals.Recheck.{verified_cents}
use fishing_deal_tracker.Store.Pipeline.{DealAction, Fetched, landed_price_cents}
use fishing_deal_tracker.Store.Pipeline.Ingest.{
  Detected, create_new, create_used, created_action, detect_new, enqueue_for, run_detection,
}

module _ {F : Type 0} where
  -- The deal of a detection has a pending CONFIRM task, unless the caller asked for none.
  abbrev pub IsQueued : Fetched → DealAction × Db F → Type 0
  IsQueued fetch (DealAction.candidate_created deal_id, db) =
      fetch.skip_confirm_task_enqueue ≡ false
      → is_some (find? (has_open_key (DedupeKey.confirm_deal deal_id)) db.crawl_tasks) ≡ true
  IsQueued fetch _ = Unit

  enqueue_for-queued :
      (fetch : Fetched) (deal_id : ℕ) (db : Db F)
      → fetch.skip_confirm_task_enqueue ≡ false
      → is_some (
          find?
            (has_open_key (DedupeKey.confirm_deal deal_id))
            (enqueue_for fetch deal_id db).crawl_tasks)
        ≡ true
  unfolding enqueue_confirm_task insert_task
  enqueue_for-queued fetch deal_id db s = ground arith

  -- There is a result, and what it detects is queued, or else so much is known.
  abbrev Answers : Fetched → (Otherwise : Type 0) → Option (DealAction × Db F) → Type 0
  Answers fetch Otherwise none = Otherwise
  Answers fetch Otherwise (some r) = IsQueued fetch r

  created_action-Answers :
      (Otherwise : Type 0) (fetch : Fetched) (r : Option OpenDeal × Db F)
      → (is_some r.0 ≡ true) ⊎ Otherwise
      → Answers fetch Otherwise (created_action fetch r)
  created_action-Answers Otherwise fetch (none, db) (inl h) = absurd (cc)
  created_action-Answers Otherwise fetch (none, db) (inr h) = h
  created_action-Answers Otherwise fetch (some d, db) h = enqueue_for-queued fetch d.id db

  answer-cases :
      (Otherwise : Type 0) (fetch : Fetched) (o : Option (DealAction × Db F))
      → Answers fetch Otherwise o
      → ((r : DealAction × Db F) × (o ≡ some r) × IsQueued fetch r) ⊎ ((o ≡ none) × Otherwise)
  answer-cases Otherwise fetch none h = inr (refl, h)
  answer-cases Otherwise fetch (some r) h = inl (r, refl, h)

module _ {F : Type 0} ⦃fl : Floats F⦄ where
  -- A row that the CHECKs of the table refuse.
  abbrev pub IsRefused : DealCandidate F → (claimed : Option ℤ) → Type 0
  IsRefused c claimed = meets_checks c claimed ≡ false

  create_new-Answers :
      (db : Db F) (offer_id : ℕ) (offer : ParsedOffer) (fetch : Fetched) (inflated : Option Bool)
      → (o : Option (Detected F))
      → Answers fetch
          ((d : Detected F) × (o ≡ some d) × IsRefused d.candidate offer.claimed_reference_cents)
          (create_new db offer_id offer fetch inflated o)
  create_new-Answers db offer_id offer fetch inflated none = tt
  create_new-Answers db offer_id offer fetch inflated (some d) =
      created_action-Answers
        ((x : Detected F) × (some d ≡ some x) × IsRefused x.candidate offer.claimed_reference_cents)
        fetch _
        (elim (Bool-cases (meets_checks d.candidate offer.claimed_reference_cents)) [
          | inl c ↦ inl (create_candidate_deal-again db _ _ _ _ _ _ _ _ _ _ c).0
          | inr c ↦ inr (d, refl, c)
        ])

  create_used-Answers :
      (db : Db F) (offer_id : ℕ) (fetch : Fetched) (o : Option (DealCandidate F))
      → Answers fetch
          ((c : DealCandidate F) × (o ≡ some c) × IsRefused c none)
          (create_used db offer_id fetch o)
  create_used-Answers db offer_id fetch none = tt
  create_used-Answers db offer_id fetch (some d) =
      created_action-Answers ((x : DealCandidate F) × (some d ≡ some x) × IsRefused x none) fetch _
        (elim (Bool-cases (meets_checks d none)) [
          | inl c ↦ inl (create_candidate_deal-again db _ _ _ _ _ _ _ _ _ _ c).0
          | inr c ↦ inr (d, refl, c)
        ])

  -- What the rules find for the offer is a row that the table refuses.
  abbrev pub FindsRefused :
      DealRules F → Db F → (offer_id : ℕ) → ParsedOffer → (price : ℤ) → OfferContext → Type 0
  FindsRefused config db offer_id offer price ctx =
      ((d : Detected F) × (detect_new config offer price
            (resolve_verified_reference_for_offer db offer_id)
          ≡ some d)
        × IsRefused d.candidate offer.claimed_reference_cents)
      ⊎ ((c : DealCandidate F) × (detect_used_vs_current_new config offer.condition
              offer.availability (or_default (landed_price_cents offer).0 price)
              (resolve_current_new_for_variant db ctx.variant_id offer_id) none
            ≡ some c)
          × IsRefused c none)

  weaker :
      (P Q : Type 0) (fetch : Fetched) (o : Option (DealAction × Db F))
      → (P → Q)
      → Answers fetch P o
      → Answers fetch Q o
  weaker P Q fetch none f h = f h
  weaker P Q fetch (some r) f h = h

  run_detection-Answers :
      (config : DealRules F) (db : Db F) (offer_id : ℕ) (offer : ParsedOffer) (price : ℤ)
      → (fetch : Fetched) (ctx : OfferContext) → get_offer_context db offer_id ≡ some ctx
      → Answers fetch
          (FindsRefused config db offer_id offer price ctx)
          (run_detection config db offer_id offer price fetch)
  unfolding run_detection
  run_detection-Answers config db offer_id offer price fetch ctx e =
      let verified = resolve_verified_reference_for_offer db offer_id in
      let inflated =
        claimed_inflated offer.claimed_reference_cents (verified_cents verified)
          (fl.div_int (pos 5) (pos 4)) in
      let new = detect_new config offer price verified in
      let used =
        detect_used_vs_current_new config offer.condition offer.availability
          (or_default (landed_price_cents offer).0 price)
          (resolve_current_new_for_variant db ctx.variant_id offer_id) none in
      let refused = FindsRefused config db offer_id offer price ctx in
      elim (Bool-cases (group_beq ctx.condition_group ConditionGroup.new_group)) [
        | inl g ↦
            rw (e, g, Answers)
              (weaker
                ((d : Detected F) × (new ≡ some d)
                  × IsRefused d.candidate offer.claimed_reference_cents)
                refused fetch (create_new db offer_id offer fetch inflated new) (λ h. inl h)
                (create_new-Answers db offer_id offer fetch inflated new))
        | inr g ↦
            rw (e, g, Answers)
              (weaker ((c : DealCandidate F) × (used ≡ some c) × IsRefused c none) refused fetch
                (create_used db offer_id fetch used) (λ h. inr h)
                (create_used-Answers db offer_id fetch used))
      ]

  -- Detection of an offer that the store knows ends with an action, and a deal that it creates has a
  -- pending CONFIRM task, unless the caller asked for none; or it ends with an exception, and then
  -- what the rules have found is a row that the CHECKs of the table refuse.
  pub run_detection-queues :
      (config : DealRules F) (db : Db F) (offer_id : ℕ) (offer : ParsedOffer) (price : ℤ)
      → (fetch : Fetched) (ctx : OfferContext) → get_offer_context db offer_id ≡ some ctx
      → ((r : DealAction × Db F) × (run_detection config db offer_id offer price fetch ≡ some r)
          × IsQueued fetch r)
        ⊎ ((run_detection config db offer_id offer price fetch ≡ none)
            × FindsRefused config db offer_id offer price ctx)
  run_detection-queues config db offer_id offer price fetch ctx e =
      answer-cases _ fetch (run_detection config db offer_id offer price fetch)
        (run_detection-Answers config db offer_id offer price fetch ctx e)

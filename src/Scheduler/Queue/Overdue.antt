-- ===== src/Scheduler/Queue/Overdue.antt =====
-- What `expire_overdue_confirm_tasks` of fpt/scheduler/queue.py does to tasks and deals.
use mathlib.Core.Path.{subst}
use fishing_deal_tracker.Prelude.{
  ℕ, ◌≡◌, ◌≢◌, refl, sym, true, false, Option, none, some, List, [], ◌∷◌, arith, ==_iff, Bool-cases,
  Option-cases, inl, inr,
}
use fishing_deal_tracker.Prelude.Order.{
  All, All-In, All-keep, All-kept, All-of_keep, All-pair, All-self, In, keep,
}
use fishing_deal_tracker.Prelude.Query.{All-filter_map, filter_map}
use fishing_deal_tracker.Store.Database.{CrawlTask, Db, Deal}
use fishing_deal_tracker.Store.Deals.Rows.{is_unconfirmed, update_where}
use fishing_deal_tracker.Store.Deals.Invariant.{IsValid, Tame, Touches, update-IsValid}
use fishing_deal_tracker.Store.Pipeline.Keeps.{same-IsValid}
use fishing_deal_tracker.Scheduler.Queue.{
  deal_of, expire_overdue_confirm_tasks, expire_task, is_missed, is_overdue, missed_row,
  overdue_deals, reject_missed, update_tasks,
}

module _ {F : Type 0} where
  missed-Tame : (k : ℕ) → Tame {F = F} (is_missed k) missed_row
  missed-Tame k = record { same_offer = λ d. refl; same_rule = λ d. refl; same_id = λ d. refl }

  missed-Touches : (k : ℕ) (ds : List (Deal F)) → All (Touches (is_missed k) missed_row) ds
  missed-Touches k [] = tt
  missed-Touches k (d ∷ ds) = (λ e. (ground arith, λ c. absurd (cc)), missed-Touches k ds)

  reject_missed-IsValid :
      (ids : List ℕ) (db : Db F)
      → IsValid db
      → IsValid (record db { deals = reject_missed ids db.deals })
  unfolding reject_missed
  reject_missed-IsValid [] db v = v
  reject_missed-IsValid (k ∷ ids) db v =
      reject_missed-IsValid ids
        (record db { deals = update_where (is_missed k) missed_row db.deals })
        (update-IsValid db (is_missed k) missed_row (missed-Tame k) (missed-Touches k db.deals) v)

  -- Expiring the overdue CONFIRM tasks of a retailer keeps one open deal for each offer and rule,
  -- one row for each id, and an observation behind every confirmed deal: the rejection without a
  -- confirming observation is one that the table admits.
  pub expire_overdue_confirm_tasks-IsValid :
      (db : Db F) (retailer_id now : ℕ)
      → IsValid db
      → IsValid (expire_overdue_confirm_tasks db retailer_id now).1
  unfolding expire_overdue_confirm_tasks
  expire_overdue_confirm_tasks-IsValid db retailer_id now v =
      let ids = overdue_deals retailer_id now db.crawl_tasks in
      same-IsValid (record db { deals = reject_missed ids db.deals })
        (expire_overdue_confirm_tasks db retailer_id now).1 refl refl
        (reject_missed-IsValid ids db v)

  -- No row of the deal waits for its confirmation.
  abbrev pub Settled : ℕ → List (Deal F) → Type 0
  Settled k ds = All (λ d. d.id ≡ k → is_unconfirmed d.status ≡ false) ds

  Settled-missed :
      (k : ℕ) (ds : List (Deal F)) → Settled k (update_where (is_missed k) missed_row ds)
  Settled-missed k [] = tt
  Settled-missed k (d ∷ ds) = (ground (arith, ==_iff d.id k), Settled-missed k ds)

  Settled-update :
      (k j : ℕ) (ds : List (Deal F))
      → Settled k ds
      → Settled k (update_where (is_missed j) missed_row ds)
  Settled-update k j [] h = tt
  Settled-update k j (d ∷ ds) h = elim (Bool-cases (is_missed j d)) [
    | inl e ↦ rw e (λ q. refl, Settled-update k j ds h.1)
    | inr e ↦ rw e (h.0, Settled-update k j ds h.1)
  ]

  Settled-reject :
      (k : ℕ) (ids : List ℕ) (ds : List (Deal F)) → Settled k ds → Settled k (reject_missed ids ds)
  unfolding reject_missed
  Settled-reject k [] ds h = h
  Settled-reject k (j ∷ ids) ds h =
      Settled-reject k ids (update_where (is_missed j) missed_row ds) (Settled-update k j ds h)

  reject_missed-Settled :
      (ids : List ℕ) (ds : List (Deal F)) → All (λ k. Settled k (reject_missed ids ds)) ids
  unfolding reject_missed
  reject_missed-Settled [] ds = tt
  reject_missed-Settled (k ∷ ids) ds =
      let next = update_where (is_missed k) missed_row ds in
      (Settled-reject k ids next (Settled-missed k ds), reject_missed-Settled ids next)

expired_tasks :
    (retailer_id now : ℕ) (ts : List CrawlTask)
    → All
        (λ t. is_overdue retailer_id now t ≡ false)
        (update_tasks (is_overdue retailer_id now) (expire_task now) ts)
expired_tasks retailer_id now [] = tt
expired_tasks retailer_id now (t ∷ ts) = elim (Bool-cases (is_overdue retailer_id now t)) [
  | inl e ↦ rw e (ground arith, expired_tasks retailer_id now ts)
  | inr e ↦ rw e (e, expired_tasks retailer_id now ts)
]

-- All of the ids of the tasks, where the first carries `o`.
abbrev Listed : (ℕ → Type 0) → CrawlTask → List CrawlTask → Option ℕ → Type 0
Listed P t ts o =
    All P (elim o [ none ↦ filter_map deal_of ts | some b ↦ b ∷ filter_map deal_of ts ])

-- What holds of all ids that tasks carry, for each task that carries one.
All-of_deals :
    (P : ℕ → Type 0) (ts : List CrawlTask)
    → All P (filter_map deal_of ts)
    → All (λ t. (k : ℕ) → t.deal_id ≡ some k → P k) ts
All-of_deals P [] h = tt
All-of_deals P (t ∷ ts) h = elim (Option-cases t.deal_id) [
  | inl e ↦ (λ j q. absurd (cc (e, q)), All-of_deals P ts (subst (Listed P t ts) e h))
  | inr (j, e) ↦
      let k = subst (Listed P t ts) e h in
      (λ i q. let same : j ≡ i = ground (arith, e, q) in subst P same k.0, All-of_deals P ts k.1)
]

module _ {F : Type 0} where
  -- After the expiry no CONFIRM task of the retailer waits past its deadline, and none of the deals
  -- whose task was overdue waits for its confirmation.
  pub expire_overdue_confirm_tasks-settles :
      (db : Db F) (retailer_id now : ℕ)
      → All
          (λ t. is_overdue retailer_id now t ≡ false)
          (expire_overdue_confirm_tasks db retailer_id now).1.crawl_tasks
        × All
            (λ t.
              is_overdue retailer_id now t ≡ true
              → (k : ℕ) → t.deal_id ≡ some k
              → Settled k (expire_overdue_confirm_tasks db retailer_id now).1.deals)
            db.crawl_tasks
  unfolding expire_overdue_confirm_tasks
  expire_overdue_confirm_tasks-settles db retailer_id now =
      let ids = overdue_deals retailer_id now db.crawl_tasks in
      (
        expired_tasks retailer_id now db.crawl_tasks,
        All-of_keep _ (is_overdue retailer_id now) db.crawl_tasks (
            All-of_deals (λ k. Settled k (reject_missed ids db.deals))
              (keep (is_overdue retailer_id now) db.crawl_tasks)
              (reject_missed-Settled ids db.deals)),
      )

  In-update :
      (d : Deal F) (j : ℕ) (ds : List (Deal F))
      → is_missed j d ≡ false
      → In d ds
      → In d (update_where (is_missed j) missed_row ds)
  In-update d j [] q i = absurd i
  In-update d j (e ∷ ds) q (inl same) = inl (rw (sym same, q) refl)
  In-update d j (e ∷ ds) q (inr i) = inr (In-update d j ds q i)

  In-reject :
      (d : Deal F) (ids : List ℕ) (ds : List (Deal F))
      → All (λ j. d.id ≢ j) ids
      → In d ds
      → In d (reject_missed ids ds)
  unfolding reject_missed
  In-reject d [] ds h i = i
  In-reject d (j ∷ ids) ds h i =
      In-reject d ids (update_where (is_missed j) missed_row ds) h.1
        (In-update d j ds (ground (arith, h.0, ==_iff d.id j)) i)

  -- A deal that no overdue CONFIRM task of the retailer carries stays as it is, whatever its own
  -- deadline: a deal whose task has left the queue otherwise, skipped or failed, is not rejected.
  pub expire_overdue_confirm_tasks-others :
      (db : Db F) (retailer_id now : ℕ) (d : Deal F)
      → In d db.deals
      → ((t : CrawlTask)
          → In t db.crawl_tasks
          → t.deal_id ≡ some d.id
          → is_overdue retailer_id now t ≡ false)
      → In d (expire_overdue_confirm_tasks db retailer_id now).1.deals
  unfolding expire_overdue_confirm_tasks
  expire_overdue_confirm_tasks-others db retailer_id now d i h =
      In-reject d (overdue_deals retailer_id now db.crawl_tasks) db.deals
        (All-filter_map (λ j. d.id ≢ j) deal_of (keep (is_overdue retailer_id now) db.crawl_tasks)
          (λ t j k e same.
            let o =
              All-In _ (keep (is_overdue retailer_id now) db.crawl_tasks) t
                (All-pair _ _ (keep (is_overdue retailer_id now) db.crawl_tasks)
                  (All-keep _ (is_overdue retailer_id now) db.crawl_tasks (All-self db.crawl_tasks))
                  (All-kept (is_overdue retailer_id now) db.crawl_tasks))
                k in
            absurd (cc (h t o.0 (rw same e), o.1))))
        i

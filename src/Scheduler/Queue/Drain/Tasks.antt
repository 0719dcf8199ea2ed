-- ===== src/Scheduler/Queue/Drain/Tasks.antt =====
-- What a drain of fpt/scheduler/queue.py makes of the tasks.
use mathlib.Core.Path.{subst, sym}
use fishing_deal_tracker.Prelude.{
  ℕ, ◌≤◌, ◌≡◌, ◌⊎◌, refl, Bool, true, false, Option, none, some, List, [], ◌∷◌, arith, ==_iff,
  Bool-cases, Option-cases, inl, inr,
}
use fishing_deal_tracker.Prelude.Order.{All, All-In, All-implies, All-self, In}
use fishing_deal_tracker.Prelude.Query.{All-++}
use fishing_deal_tracker.Floats.{Floats}
use fishing_deal_tracker.Domain.{FetchRequest, FetchResponse, ResponseOutcome}
use fishing_deal_tracker.Store.Database.{CrawlTask, Db, TaskStatus}
use fishing_deal_tracker.Store.Pipeline.Frame.{IsFresh}
use fishing_deal_tracker.Scheduler.Limiter.{Denial, RetailerPolicy, RetailerState, can_admit}
use fishing_deal_tracker.Scheduler.Queue.{
  expire_overdue_confirm_tasks, expire_task, has_task_id, is_overdue, update_tasks,
}
use fishing_deal_tracker.Scheduler.Queue.Drain.{
  Drain, FetchResult, ParseAnswer, Site, after_admission, after_check, after_fetch, after_parse,
  after_robots, with_request, with_sentinels, drain_retailer_queue, drain_round, finish_task,
  ingest_all, ingested, is_cap, is_ok_outcome, lease_task, with_task,
}
use fishing_deal_tracker.Scheduler.Queue.Drain.Laws.{IngestLaws, OnlyQueues}
use fishing_deal_tracker.Scheduler.Queue.Drain.Rounds.{EndHolds, TurnHolds, drain_from-holds}

abbrev pub is_leased : TaskStatus → Bool
is_leased TaskStatus.leased = true
is_leased _ = false

-- No task is leased.
abbrev pub Idle : List CrawlTask → Type 0
Idle ts = All (λ t. is_leased t.status ≡ false) ts

-- A fetch has been tried for the task, and the time of its end is written.
pub record IsFinished (t : CrawlTask) : Type 0 where
  pub ended : (t.status ≡ TaskStatus.done) ⊎ (t.status ≡ TaskStatus.failed)
  pub tried : 1 ≤ t.attempts
  pub timed : (time : ℕ) × (t.finished_at ≡ some time)

-- The task was taken off the queue without a fetch.
pub record IsDropped (t : CrawlTask) : Type 0 where
  pub dropped :
      (t.status ≡ TaskStatus.skipped_budget)
      ⊎ ((t.status ≡ TaskStatus.skipped_robots) ⊎ (t.status ≡ TaskStatus.expired))
  pub timed : (time : ℕ) × (t.finished_at ≡ some time)

-- What a drain may leave of the tasks: one as it was, one that it ended, or a fresh one.
abbrev pub IsLeft : (before : List CrawlTask) → CrawlTask → Type 0
IsLeft before t = In t before ⊎ (IsFinished t ⊎ (IsDropped t ⊎ IsFresh t))

finish-IsFinished :
    (status : TaskStatus) (o : Option ResponseOutcome) (clock : ℕ) (t : CrawlTask)
    → (status ≡ TaskStatus.done) ⊎ (status ≡ TaskStatus.failed)
    → IsFinished (finish_task status o clock t)
finish-IsFinished status none clock t h = record {
  ended = h;
  tried = omega arith;
  timed = (clock, refl);
}
finish-IsFinished status (some o) clock t h = record {
  ended = h;
  tried = omega arith;
  timed = (clock, refl);
}

module _ (before : List CrawlTask) where
  abbrev Left : List CrawlTask → Type 0
  Left ts = All (IsLeft before) ts

  -- All but the one task that is fetched.
  abbrev LeftBut : ℕ → List CrawlTask → Type 0
  LeftBut task_id ts = All (λ t. IsLeft before t ⊎ (t.id ≡ task_id)) ts

  Left-lease :
      (task_id : ℕ) (ts : List CrawlTask)
      → Left ts
      → LeftBut task_id (update_tasks (has_task_id task_id) lease_task ts)
  Left-lease task_id [] h = tt
  Left-lease task_id (t ∷ ts) h = elim (Bool-cases (has_task_id task_id t)) [
    | inl e ↦ rw e (inr ((==_iff t.id task_id).0 e), Left-lease task_id ts h.1)
    | inr e ↦ rw e (inl h.0, Left-lease task_id ts h.1)
  ]

  Left-update :
      (p : CrawlTask → Bool) (f : CrawlTask → CrawlTask) (ts : List CrawlTask)
      → ((t : CrawlTask) → IsLeft before (f t))
      → Left ts
      → Left (update_tasks p f ts)
  Left-update p f [] n h = tt
  Left-update p f (t ∷ ts) n h = elim (Bool-cases (p t)) [
    | inl e ↦ rw e (n t, Left-update p f ts n h.1)
    | inr e ↦ rw e (h.0, Left-update p f ts n h.1)
  ]

  -- The end of the one fetch.
  LeftBut-Left :
      (task_id : ℕ) (f : CrawlTask → CrawlTask) (ts : List CrawlTask)
      → ((t : CrawlTask) → IsLeft before (f t))
      → LeftBut task_id ts
      → Left (update_tasks (has_task_id task_id) f ts)
  LeftBut-Left task_id f [] n h = tt
  LeftBut-Left task_id f (t ∷ ts) n h = elim (Bool-cases (has_task_id task_id t)) [
    | inl e ↦ rw e (n t, LeftBut-Left task_id f ts n h.1)
    | inr e ↦ rw e (
      elim h.0 [ inl k ↦ k | inr q ↦ absurd (cc (e, (==_iff t.id task_id).1 q)) ],
      LeftBut-Left task_id f ts n h.1,
    )
  ]

  LeftBut-finished :
      (task_id clock : ℕ) (status : TaskStatus) (o : Option ResponseOutcome) (ts : List CrawlTask)
      → (status ≡ TaskStatus.done) ⊎ (status ≡ TaskStatus.failed)
      → LeftBut task_id ts
      → Left (update_tasks (has_task_id task_id) (finish_task status o clock) ts)
  LeftBut-finished task_id clock status o ts e h =
      LeftBut-Left task_id (finish_task status o clock) ts
        (λ t. inr (inl (finish-IsFinished status o clock t e))) h

  OnlyQueues-LeftBut :
      (task_id : ℕ) (old new : List CrawlTask)
      → OnlyQueues old new
      → LeftBut task_id old
      → LeftBut task_id new
  OnlyQueues-LeftBut task_id old new q h =
      subst (LeftBut task_id) (sym q.whole)
        (All-++ _ q.added old (All-implies _ _ q.added (λ t f. inl (inr (inr (inr f)))) q.fresh) h)

Left-Idle : (before ts : List CrawlTask) → Idle before → All (IsLeft before) ts → Idle ts
Left-Idle before ts h k = All-implies _ _ ts (λ t l. unleased t l) k
  where
    unleased : (t : CrawlTask) → IsLeft before t → is_leased t.status ≡ false
    unleased t (inl i) = All-In _ before t h i
    unleased t (inr (inl f)) = (let e = f.ended in ground arith)
    unleased t (inr (inr (inl f))) = (let e = f.dropped in ground arith)
    unleased t (inr (inr (inr f))) = (let e = f.queued in ground arith)

module _ {F : Type 0} (before : List CrawlTask) where
  abbrev pub HasLeft : Drain F → Type 0
  HasLeft d = Left before d.db.crawl_tasks

  abbrev MayLease : ℕ → Option (Db F) → Type 0
  MayLease task_id none = Unit
  MayLease task_id (some db) = LeftBut before task_id db.crawl_tasks

module _ {F Listing : Type 0} ⦃fl : Floats F⦄ (site : Site F Listing) (policy : RetailerPolicy F)
    (laws : IngestLaws site) (before : List CrawlTask) where
  ingest_all-MayLease :
      (db : Db F) (t : CrawlTask) (response : FetchResponse) (ls : List Listing)
      → LeftBut before t.id db.crawl_tasks
      → MayLease before t.id (ingest_all site db t response ls)
  unfolding ingest_all
  ingest_all-MayLease db t response [] h = h
  ingest_all-MayLease db t response (l ∷ ls) h = elim (Option-cases (site.ingest db t response l)) [
    | inl e ↦ rw (e, ingest_all, MayLease) tt
    | inr (db', e) ↦
        rw (e, ingest_all)
          (ingest_all-MayLease db' t response ls (
            OnlyQueues-LeftBut before t.id db.crawl_tasks db'.crawl_tasks
              (laws.only_queues db t response l db' e) h))
  ]

  ingested-HasLeft :
      (t : CrawlTask) (listings delay : ℕ) (d : Drain F) (db : Option (Db F))
      → MayLease before t.id db
      → TurnHolds (HasLeft before) (ingested site t listings delay d db)
  ingested-HasLeft t listings delay d none h = tt
  ingested-HasLeft t listings delay d (some db) h =
      LeftBut-finished before t.id d.clock TaskStatus.done (some ResponseOutcome.ok) db.crawl_tasks
        (inl refl) h

  after_parse-HasLeft :
      (t : CrawlTask) (response : FetchResponse) (delay : ℕ) (d : Drain F) (p : ParseAnswer Listing)
      → LeftBut before t.id d.db.crawl_tasks
      → TurnHolds (HasLeft before) (after_parse site t response delay d p)
  after_parse-HasLeft t response delay d (ParseAnswer.parsed ls) h =
      ingested-HasLeft t _ delay d _ (ingest_all-MayLease d.db t response ls h)
  after_parse-HasLeft t response delay d ParseAnswer.recursion_error h =
      LeftBut-finished before t.id d.clock TaskStatus.failed
        (some ResponseOutcome.structure_changed) d.db.crawl_tasks (inr refl) h
  after_parse-HasLeft t response delay d ParseAnswer.parse_error h =
      LeftBut-finished before t.id d.clock TaskStatus.failed
        (some ResponseOutcome.structure_changed) d.db.crawl_tasks (inr refl) h

  after_check-HasLeft :
      (t : CrawlTask) (response : FetchResponse) (delay : ℕ) (d : Drain F) (o : ResponseOutcome)
      → LeftBut before t.id d.db.crawl_tasks
      → TurnHolds (HasLeft before) (after_check site t response delay d o)
  after_check-HasLeft t response delay d o h = elim (Bool-cases (is_ok_outcome o)) [
    | inl e ↦ rw e (after_parse-HasLeft t response delay d (site.parse response) h)
    | inr e ↦ rw e (
        LeftBut-finished before t.id d.clock TaskStatus.done (some o) d.db.crawl_tasks (inl refl) h)
  ]

  with_sentinels-HasLeft :
      (t : CrawlTask) (response : FetchResponse) (delay : ℕ) (d : Drain F)
      → (o : Option (List (List ℕ))) → LeftBut before t.id d.db.crawl_tasks
      → TurnHolds (HasLeft before) (with_sentinels site policy t response delay d o)
  with_sentinels-HasLeft t response delay d none h = tt
  with_sentinels-HasLeft t response delay d (some sentinels) h =
      after_check-HasLeft t response delay _ _ h

  after_fetch-HasLeft :
      (t : CrawlTask) (delay : ℕ) (d : Drain F) (a : FetchResult FetchResponse)
      → LeftBut before t.id d.db.crawl_tasks
      → TurnHolds (HasLeft before) (after_fetch site policy t delay d a)
  unfolding after_fetch
  after_fetch-HasLeft t delay d FetchResult.unsafe_url h =
      LeftBut-finished before t.id d.clock TaskStatus.failed none d.db.crawl_tasks (inr refl) h
  after_fetch-HasLeft t delay d FetchResult.transport_error h =
      LeftBut-finished before t.id d.clock TaskStatus.failed none d.db.crawl_tasks (inr refl) h
  after_fetch-HasLeft t delay d (FetchResult.fetched response) h =
      with_sentinels-HasLeft t response delay _ (site.content_sentinels t.page_type) h

  with_request-HasLeft :
      (round : ℕ) (t : CrawlTask) (d : Drain F) (o : Option FetchRequest)
      → LeftBut before t.id d.db.crawl_tasks
      → TurnHolds (HasLeft before) (with_request site policy round t d o)
  with_request-HasLeft round t d none h = tt
  with_request-HasLeft round t d (some request) h =
      after_fetch-HasLeft t (site.next_delay round) d (site.fetch round request) h

  after_robots-HasLeft :
      (round : ℕ) (t : CrawlTask) (d : Drain F) (o : Option Bool)
      → HasLeft before d
      → TurnHolds (HasLeft before) (after_robots site policy round t d o)
  after_robots-HasLeft round t d none h = tt
  after_robots-HasLeft round t d (some true) h =
      with_request-HasLeft round t _ (site.build_request t)
        (Left-lease before t.id d.db.crawl_tasks h)
  after_robots-HasLeft round t d (some false) h =
      Left-update before (has_task_id t.id) _ d.db.crawl_tasks
        (λ u. inr (inr (inl (record { dropped = inr (inl refl); timed = (d.clock, refl) })))) h

  after_admission-HasLeft :
      (round : ℕ) (t : CrawlTask) (answer : Option Denial) (d : Drain F)
      → HasLeft before d
      → TurnHolds (HasLeft before) (after_admission site policy round t answer d)
  unfolding after_admission
  after_admission-HasLeft round t (some reason) d h = elim (Bool-cases (is_cap reason)) [
    | inl e ↦ rw e (
        Left-update before (has_task_id t.id) _ d.db.crawl_tasks
          (λ u. inr (inr (inl (record { dropped = inl refl; timed = (d.clock, refl) })))) h)
    | inr e ↦ rw e h
  ]
  after_admission-HasLeft round t none d h =
      after_robots-HasLeft round t d (site.admits round t.url) h

  with_task-HasLeft :
      (round : ℕ) (d : Drain F) (o : Option CrawlTask)
      → HasLeft before d
      → TurnHolds (HasLeft before) (with_task site policy round d o)
  with_task-HasLeft round d none h = h
  with_task-HasLeft round d (some t) h =
      after_admission-HasLeft round t (can_admit policy d.limiter t.kind d.clock).0 _ h

  drain_retailer_queue-HasLeft :
      (db : Db F) (limiter : RetailerState) (retailer_id now max_tasks : ℕ) (d : Drain F)
      → before ≡ db.crawl_tasks
      → drain_retailer_queue site policy db limiter retailer_id now max_tasks ≡ some d
      → All (IsLeft before) d.db.crawl_tasks
  unfolding drain_retailer_queue drain_round expire_overdue_confirm_tasks
  drain_retailer_queue-HasLeft db limiter retailer_id now max_tasks d same e =
      subst (EndHolds (HasLeft before)) e (
        drain_from-holds site policy (HasLeft before) retailer_id
          (λ round s k. with_task-HasLeft round s _ k) max_tasks 0 _
          (Left-update before (is_overdue retailer_id now) (expire_task now) db.crawl_tasks
            (λ t. inr (inr (inl (record { dropped = inr (inr refl); timed = (now, refl) }))))
            (subst (λ ts. All (IsLeft before) ts) same
              (All-implies _ _ before (λ t i. inl i) (All-self before)))))

module _ {F Listing : Type 0} ⦃fl : Floats F⦄ (site : Site F Listing) (policy : RetailerPolicy F)
    (laws : IngestLaws site) where
  pub drain_retailer_queue-Idle :
      (db : Db F) (limiter : RetailerState) (retailer_id now max_tasks : ℕ) (d : Drain F)
      → Idle db.crawl_tasks
      → drain_retailer_queue site policy db limiter retailer_id now max_tasks ≡ some d
      → Idle d.db.crawl_tasks × All (IsLeft db.crawl_tasks) d.db.crawl_tasks
  drain_retailer_queue-Idle db limiter retailer_id now max_tasks d h e =
      let left =
        drain_retailer_queue-HasLeft site policy laws db.crawl_tasks db limiter retailer_id now
          max_tasks d refl e in
      (Left-Idle db.crawl_tasks d.db.crawl_tasks h left, left)

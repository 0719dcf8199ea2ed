-- ===== src/Scheduler/Limiter/Budget.antt =====
-- Runs of a limiter of fpt/scheduler/limiter.py: requests that were admitted, and outcomes.
use fishing_deal_tracker.Prelude.{
  ℕ, suc, ◌≤◌, ◌<◌, ◌≡◌, Bool, none, List, [], ◌∷◌, ◌++◌, length, length-append, arith,
}
use fishing_deal_tracker.Floats.{Floats}
use fishing_deal_tracker.Store.Database.{TaskKind}
use fishing_deal_tracker.Scheduler.Limiter.{
  RetailerPolicy, RetailerState, can_admit, initial, pop_first, pushed_outcome, record_outcome,
  record_request, roll_buckets,
}
use fishing_deal_tracker.Scheduler.Limiter.Admission.{can_admit_iff}

roll_buckets-fewer :
    (now : ℕ) (s : RetailerState)
    → ((roll_buckets now s).requests_this_hour ≤ s.requests_this_hour)
      × ((roll_buckets now s).requests_this_day ≤ s.requests_this_day)
unfolding roll_buckets
roll_buckets-fewer now s = (ground arith, ground arith)

roll_buckets-same :
    (now : ℕ) (s : RetailerState)
    → ((roll_buckets now s).recent_outcomes ≡ s.recent_outcomes)
      × ((roll_buckets now s).disabled ≡ s.disabled)
      × ((roll_buckets now s).last_request_at ≡ s.last_request_at)
unfolding roll_buckets
roll_buckets-same now s = (ground arith, ground arith, ground arith)

length-pop_first : (bs : List Bool) (n : ℕ) → length bs ≤ suc n → length (pop_first bs) ≤ n
length-pop_first [] n h = omega arith
length-pop_first (b ∷ bs) n h = omega arith

-- The sample of outcomes never grows past its size.
length-pushed_outcome :
    (sample : ℕ) (recent : List Bool) (blocked : Bool)
    → length recent ≤ sample
    → length (pushed_outcome sample recent blocked) ≤ sample
length-pushed_outcome sample recent blocked h =
    let n = length-append recent (blocked ∷ []) in
    let p = length-pop_first (recent ++ (blocked ∷ [])) sample (omega (arith, n, h)) in
    ground (arith, n, p)

module _ {F : Type 0} ⦃fl : Floats F⦄ (policy : RetailerPolicy F) where
  -- What a worker does with a limiter: it asks, it fetches only what was admitted, and it reports
  -- the outcome.
  pub data Step : RetailerState → RetailerState → Type 0 where
    asked : (s : RetailerState) (kind : TaskKind) (now : ℕ) → Step s (can_admit policy s kind now).1
    fetched :
        (s : RetailerState) (kind : TaskKind) (now : ℕ)
        → (can_admit policy s kind now).0 ≡ none
        → Step s (record_request now (can_admit policy s kind now).1)
    reported :
        (s : RetailerState) (blocked : Bool) (now : ℕ)
        → Step s (record_outcome policy blocked now s)

  pub data Run : RetailerState → Type 0 where
    start : Run initial
    next : {s t : RetailerState} → Run s → Step s t → Run t

  pub record InBudget (s : RetailerState) : Type 0 where
    pub hourly : s.requests_this_hour ≤ policy.max_requests_per_hour
    pub daily : s.requests_this_day ≤ policy.max_requests_per_day
    pub sample : length s.recent_outcomes ≤ policy.breaker.block_rate_min_sample

  roll-InBudget : (now : ℕ) (s : RetailerState) → InBudget s → InBudget (roll_buckets now s)
  roll-InBudget now s h =
      let fewer = roll_buckets-fewer now s in
      record {
        hourly = omega (arith, fewer.0, h.hourly);
        daily = omega (arith, fewer.1, h.daily);
        sample = rw (roll_buckets-same now s).0 h.sample;
      }

  request-InBudget :
      (now : ℕ) (s : RetailerState)
      → s.requests_this_hour < policy.max_requests_per_hour
      → s.requests_this_day < policy.max_requests_per_day
      → InBudget s
      → InBudget (record_request now s)
  unfolding record_request
  request-InBudget now s a b h =
      let fewer = roll_buckets-fewer now s in
      record {
        hourly = omega (arith, fewer.0, a);
        daily = omega (arith, fewer.1, b);
        sample = rw (roll_buckets-same now s).0 h.sample;
      }

  outcome-InBudget :
      (blocked : Bool) (now : ℕ) (s : RetailerState)
      → InBudget s
      → InBudget (record_outcome policy blocked now s)
  unfolding record_outcome
  outcome-InBudget blocked now s h =
      let n =
        length-pushed_outcome policy.breaker.block_rate_min_sample s.recent_outcomes blocked
          h.sample in
      let a = h.hourly in
      let b = h.daily in
      record { hourly = ground arith; daily = ground arith; sample = ground arith }

  Step-InBudget : {s t : RetailerState} → Step s t → InBudget s → InBudget t
  unfolding can_admit
  Step-InBudget (Step.asked s kind now) h = roll-InBudget now s h
  Step-InBudget (Step.fetched s kind now e) h =
      let admitted = (can_admit_iff policy s kind now).0 e in
      request-InBudget now (roll_buckets now s) admitted.below_hourly admitted.below_daily
        (roll-InBudget now s h)
  Step-InBudget (Step.reported s blocked now) h = outcome-InBudget blocked now s h

  -- However a worker asks, fetches what is admitted and reports, the requests counted for a
  -- retailer's hour and day never exceed the policy's caps, nor the outcomes in the sample the
  -- breaker's sample size.
  pub run-InBudget : (s : RetailerState) → Run s → InBudget s
  unfolding can_admit
  run-InBudget s Run.start = record {
    hourly = omega arith;
    daily = omega arith;
    sample = omega arith;
  }
  run-InBudget _ (Run.next {s} {t} run step) = Step-InBudget step (run-InBudget s run)

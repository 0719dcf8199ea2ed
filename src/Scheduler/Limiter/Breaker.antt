-- ===== src/Scheduler/Limiter/Breaker.antt =====
-- The breaker of fpt/scheduler/limiter.py: what trips it, and that nothing passes it.
use fishing_deal_tracker.Prelude.{
  ℕ, ◌+◌, ◌*◌, ◌≤◌, ◌<◌, ◌≡◌, refl, ◌∙◌, Bool, true, false, ◌||◌, [], ◌∷◌, length, length-append,
  arith, is_some, leb,
}
use fishing_deal_tracker.Prelude.Order.{keep}
use fishing_deal_tracker.Floats.{Floats}
use fishing_deal_tracker.Store.Database.{TaskKind}
use fishing_deal_tracker.Store.Queries.{hour}
use fishing_deal_tracker.Scheduler.Limiter.{
  RetailerPolicy, RetailerState, can_admit, counted_outcome, denial, is_before, is_recent_trip,
  record_outcome, record_request, roll_buckets, tripped,
}
use fishing_deal_tracker.Scheduler.Limiter.Budget.{Step}

roll_buckets-breaker :
    (now : ℕ) (s : RetailerState)
    → ((roll_buckets now s).disabled ≡ s.disabled)
      × ((roll_buckets now s).breaker_open_until ≡ s.breaker_open_until)
unfolding roll_buckets
roll_buckets-breaker now s = (ground arith, ground arith)

module _ {F : Type 0} ⦃fl : Floats F⦄ (policy : RetailerPolicy F) where
  -- Nothing is admitted while a retailer is disabled or its breaker is open.
  pub can_admit-denied :
      (s : RetailerState) (kind : TaskKind) (now : ℕ)
      → (s.disabled || is_before now s.breaker_open_until) ≡ true
      → is_some (can_admit policy s kind now).0 ≡ true
  unfolding can_admit denial
  can_admit-denied s kind now h = let same = roll_buckets-breaker now s in ground (arith, same)

  -- What a trip leaves behind.
  record_outcome-tripped :
      (s : RetailerState) (now : ℕ)
      → policy.breaker.consecutive_blocks ≤ s.consecutive_blocks + 1
      → is_before now s.breaker_open_until ≡ false
      → record_outcome policy true now s
        ≡ tripped policy.breaker now (counted_outcome policy.breaker true s)
  unfolding record_outcome
  record_outcome-tripped s now h closed =
      let due : leb policy.breaker.consecutive_blocks (s.consecutive_blocks + 1) ≡ true =
        ground arith in
      rw (due, closed) refl

  -- The last of enough blocks in a row opens a closed breaker: until the cooldown is over, no
  -- request of any kind is admitted.
  pub record_outcome-opens :
      (s : RetailerState) (now later : ℕ) (kind : TaskKind)
      → policy.breaker.consecutive_blocks ≤ s.consecutive_blocks + 1
      → is_before now s.breaker_open_until ≡ false
      → later < now + policy.breaker.cooldown_hours * hour
      → is_some (can_admit policy (record_outcome policy true now s) kind later).0 ≡ true
  record_outcome-opens s now later kind h closed soon = rw (record_outcome-tripped s now h closed) (
      can_admit-denied (tripped policy.breaker now (counted_outcome policy.breaker true s)) kind
        later (ground arith))

  -- The last of enough blocks in a row, with the breaker closed and enough trips behind it in 48
  -- hours, disables the retailer.
  pub record_outcome-disables :
      (s : RetailerState) (now : ℕ)
      → policy.breaker.consecutive_blocks ≤ s.consecutive_blocks + 1
      → is_before now s.breaker_open_until ≡ false
      → policy.breaker.disable_after_trips_in_48h
        ≤ length (keep (is_recent_trip now) s.trips_in_48h) + 1
      → (record_outcome policy true now s).disabled ≡ true
  record_outcome-disables s now h closed trips =
      let n = length-append (keep (is_recent_trip now) s.trips_in_48h) (now ∷ []) in
      rw (record_outcome-tripped s now h closed) (ground (arith, n))

  disabled-same : (s : RetailerState) (now : ℕ) → (record_request now s).disabled ≡ s.disabled
  unfolding record_request
  disabled-same s now = (roll_buckets-breaker now s).0

  outcome-disabled :
      (s : RetailerState) (blocked : Bool) (now : ℕ)
      → s.disabled ≡ true
      → (record_outcome policy blocked now s).disabled ≡ true
  unfolding record_outcome
  outcome-disabled s blocked now h = ground arith

  -- Whatever a worker does, a disabled retailer stays disabled.
  pub Step-disabled :
      (s t : RetailerState) → Step policy s t → s.disabled ≡ true → t.disabled ≡ true
  unfolding can_admit
  Step-disabled _ _ (Step.asked s kind now) h = (roll_buckets-breaker now s).0 ∙ h
  Step-disabled _ _ (Step.fetched s kind now e) h =
      disabled-same (roll_buckets now s) now ∙ (roll_buckets-breaker now s).0 ∙ h
  Step-disabled _ _ (Step.reported s blocked now) h = outcome-disabled s blocked now h

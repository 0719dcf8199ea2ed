-- ===== src/Scheduler/Limiter/Admission.antt =====
-- When `can_admit` of fpt/scheduler/limiter.py admits a request.
use fishing_deal_tracker.Prelude.{ℕ, ◌<◌, ◌≡◌, ◌↔◌, ◌⊎◌, true, false, none, arith}
use fishing_deal_tracker.Prelude.Int.{pos}
use fishing_deal_tracker.Floats.{Floats}
use fishing_deal_tracker.Store.Database.{TaskKind}
use fishing_deal_tracker.Scheduler.Limiter.{
  RetailerPolicy, RetailerState, can_admit, denial, is_before, is_reserve_eligible, is_too_early,
  non_reserved_cap, roll_buckets,
}

module _ {F : Type 0} ⦃fl : Floats F⦄ where
  -- What an admitted request has to meet, in the state with its buckets rolled.
  pub record IsAdmitted (policy : RetailerPolicy F) (s : RetailerState) (kind : TaskKind) (now : ℕ)
      : Type 0 where
    pub enabled : s.disabled ≡ false
    pub breaker_closed : is_before now s.breaker_open_until ≡ false
    pub delay_elapsed : is_too_early policy now s.last_request_at ≡ false
    pub below_hourly : s.requests_this_hour < policy.max_requests_per_hour
    pub below_daily : s.requests_this_day < policy.max_requests_per_day
    pub within_share :
        (is_reserve_eligible kind ≡ true)
        ⊎ (fl.lt (fl.of_int (pos s.requests_this_day)) (non_reserved_cap policy) ≡ true)

  denial-IsAdmitted :
      (policy : RetailerPolicy F) (s : RetailerState) (kind : TaskKind) (now : ℕ)
      → denial policy s kind now ≡ none
      → IsAdmitted policy s kind now
  unfolding denial
  denial-IsAdmitted policy s kind now e = record {
    enabled = ground arith;
    breaker_closed = ground arith;
    delay_elapsed = ground arith;
    below_hourly = ground arith;
    below_daily = ground arith;
    within_share = ground arith;
  }

  IsAdmitted-denial :
      (policy : RetailerPolicy F) (s : RetailerState) (kind : TaskKind) (now : ℕ)
      → IsAdmitted policy s kind now
      → denial policy s kind now ≡ none
  unfolding denial
  IsAdmitted-denial policy s kind now h =
      let a = h.enabled in
      let b = h.breaker_closed in
      let c = h.delay_elapsed in
      let d = h.below_hourly in let e = h.below_daily in let f = h.within_share in ground arith

  -- A request is admitted exactly when the retailer is enabled, its breaker is closed, the delay
  -- has elapsed, both caps leave room, and a kind outside the reserve stays within its share.
  pub can_admit_iff :
      (policy : RetailerPolicy F) (s : RetailerState) (kind : TaskKind) (now : ℕ)
      → ((can_admit policy s kind now).0 ≡ none) ↔ IsAdmitted policy (roll_buckets now s) kind now
  unfolding can_admit
  can_admit_iff policy s kind now = (
    denial-IsAdmitted policy (roll_buckets now s) kind now,
    IsAdmitted-denial policy (roll_buckets now s) kind now,
  )

-- ===== src/Scheduler/Limiter.antt =====
-- fpt/scheduler/limiter.py: the request budget of a retailer, and the breaker that its blocks trip.
-- A time is a number of microseconds; the sample of outcomes holds one or more.
pub mod Admission
pub mod Budget
pub mod Breaker
mod Tests
use fishing_deal_tracker.Prelude.{
  ℕ, ◌+◌, ◌*◌, String, Bool, true, false, not, ◌&&◌, ◌||◌, Option, none, some, List, [], ◌∷◌, ◌++◌,
  length, ltb, leb, if◌then◌else◌,
}
use fishing_deal_tracker.Prelude.Int.{ℤ, pos, ◌-ℤ◌}
use fishing_deal_tracker.Prelude.Order.{keep}
use fishing_deal_tracker.Floats.{Floats}
use fishing_deal_tracker.Store.Database.{TaskKind}
use fishing_deal_tracker.Store.Queries.{hour}

-- `kind in RESERVE_ELIGIBLE_KINDS`
abbrev pub is_reserve_eligible : TaskKind → Bool
is_reserve_eligible TaskKind.confirm = true
is_reserve_eligible TaskKind.hot = true
is_reserve_eligible _ = false

pub record BreakerPolicy (F : Type 0) : Type 0 where
  pub consecutive_blocks : ℕ
  pub block_rate_threshold : F
  pub block_rate_min_sample : ℕ
  pub cooldown_hours : ℕ
  pub disable_after_trips_in_48h : ℕ

-- `reserved_share` by its values.
pub record RetailerPolicy (F : Type 0) : Type 0 where
  pub min_delay_s : F
  pub jitter_s : F
  pub max_requests_per_hour : ℕ
  pub max_requests_per_day : ℕ
  pub reserved_share : List F
  pub breaker : BreakerPolicy F

pub record RetailerState : Type 0 where
  pub last_request_at : Option ℕ
  pub requests_this_hour : ℕ
  pub requests_this_day : ℕ
  pub hour_bucket_start : Option ℕ
  pub day_bucket_start : Option ℕ
  pub consecutive_blocks : ℕ
  pub recent_outcomes : List Bool
  pub breaker_open_until : Option ℕ
  pub trips_in_48h : List ℕ
  pub disabled : Bool
  pub disabled_reason : Option String

abbrev pub initial : RetailerState
initial = record {
  last_request_at = none;
  requests_this_hour = 0;
  requests_this_day = 0;
  hour_bucket_start = none;
  day_bucket_start = none;
  consecutive_blocks = 0;
  recent_outcomes = [];
  breaker_open_until = none;
  trips_in_48h = [];
  disabled = false;
  disabled_reason = none;
}

-- Why a request is denied.
pub data Denial : Type 0 where
  is_disabled breaker_open delay_not_elapsed hourly_cap daily_cap : Denial

-- `start is None or now - start >= length`
abbrev pub is_over : (start : Option ℕ) (now bucket : ℕ) → Bool
is_over none now bucket = true
is_over (some start) now bucket = leb (start + bucket) now

abbrev pub roll_hour : ℕ → RetailerState → RetailerState
roll_hour now s =
    if is_over s.hour_bucket_start now hour
    then record s { hour_bucket_start = some now; requests_this_hour = 0 }
    else s

abbrev pub roll_day : ℕ → RetailerState → RetailerState
roll_day now s =
    if is_over s.day_bucket_start now (24 * hour)
    then record s { day_bucket_start = some now; requests_this_day = 0 }
    else s

-- `_roll_buckets`
unfoldable pub roll_buckets : ℕ → RetailerState → RetailerState
roll_buckets now s = roll_day now (roll_hour now s)

-- `until and now < until`
abbrev pub is_before : ℕ → Option ℕ → Bool
is_before now none = false
is_before now (some until) = ltb now until

abbrev pub count_blocks : List Bool → ℕ
count_blocks [] = 0
count_blocks (true ∷ bs) = 1 + count_blocks bs
count_blocks (false ∷ bs) = count_blocks bs

-- `pop(0)`
abbrev pub pop_first : List Bool → List Bool
pop_first [] = []
pop_first (b ∷ bs) = bs

abbrev pub pushed_outcome : (sample : ℕ) → List Bool → Bool → List Bool
pushed_outcome sample recent blocked =
    if ltb sample (length (recent ++ (blocked ∷ [])))
    then pop_first (recent ++ (blocked ∷ []))
    else recent ++ (blocked ∷ [])

-- `now - t < timedelta(hours=48)`
abbrev pub is_recent_trip : (now t : ℕ) → Bool
is_recent_trip now t = ltb now (t + 48 * hour)

abbrev pub counted : Bool → ℕ → ℕ
counted true n = n + 1
counted false n = 0

module _ {F : Type 0} ⦃fl : Floats F⦄ where
  -- `(now - last).total_seconds() < min_delay_s`
  abbrev pub is_too_early : RetailerPolicy F → (now : ℕ) (last_request_at : Option ℕ) → Bool
  is_too_early policy now none = false
  is_too_early policy now (some last) =
      fl.lt (fl.div_int (pos now -ℤ pos last) (pos 1_000_000)) policy.min_delay_s

  -- `sum(values)`
  abbrev pub sum_from : F → List F → F
  sum_from total [] = total
  sum_from total (x ∷ xs) = sum_from (fl.add total x) xs

  abbrev pub non_reserved_cap : RetailerPolicy F → F
  non_reserved_cap policy =
      fl.mul (fl.of_int (pos policy.max_requests_per_day))
        (fl.sub (fl.of_int (pos 1)) (sum_from (fl.of_int (pos 0)) policy.reserved_share))

  -- `can_admit` once the buckets are rolled: none when the request is admitted.
  unfoldable pub denial : RetailerPolicy F → RetailerState → TaskKind → (now : ℕ) → Option Denial
  denial policy s kind now =
      if s.disabled
      then some Denial.is_disabled
      else if is_before now s.breaker_open_until
      then some Denial.breaker_open
      else if is_too_early policy now s.last_request_at
      then some Denial.delay_not_elapsed
      else if leb policy.max_requests_per_hour s.requests_this_hour
      then some Denial.hourly_cap
      else if not (is_reserve_eligible kind)
          && not (fl.lt (fl.of_int (pos s.requests_this_day)) (non_reserved_cap policy))
      then some Denial.daily_cap
      else if leb policy.max_requests_per_day s.requests_this_day
      then some Denial.daily_cap
      else none

  unfoldable pub can_admit :
      RetailerPolicy F → RetailerState → TaskKind → (now : ℕ) → Option Denial × RetailerState
  can_admit policy s kind now = (denial policy (roll_buckets now s) kind now, roll_buckets now s)

  -- Five blocks in a row, or too many among the last twenty.
  abbrev pub should_trip : BreakerPolicy F → (blocks : ℕ) → (recent : List Bool) → Bool
  should_trip policy blocks recent =
      leb policy.consecutive_blocks blocks
      || leb policy.block_rate_min_sample (length recent)
        && fl.lt policy.block_rate_threshold
            (fl.div_int (pos (count_blocks recent)) (pos (length recent)))

  -- The breaker opens, and the retailer is disabled after enough trips.
  abbrev pub tripped : BreakerPolicy F → ℕ → RetailerState → RetailerState
  tripped policy now s = record s {
    breaker_open_until = some (now + policy.cooldown_hours * hour);
    trips_in_48h = keep (is_recent_trip now) s.trips_in_48h ++ (now ∷ []);
    consecutive_blocks = 0;
    disabled =
        s.disabled
        || leb policy.disable_after_trips_in_48h
            (length (keep (is_recent_trip now) s.trips_in_48h ++ (now ∷ [])));
    disabled_reason =
        if leb policy.disable_after_trips_in_48h
          (length (keep (is_recent_trip now) s.trips_in_48h ++ (now ∷ [])))
        then some "breaker_tripped_twice_in_48h"
        else s.disabled_reason;
  }

  abbrev pub counted_outcome : BreakerPolicy F → Bool → RetailerState → RetailerState
  counted_outcome policy blocked s = record s {
    consecutive_blocks = counted blocked s.consecutive_blocks;
    recent_outcomes = pushed_outcome policy.block_rate_min_sample s.recent_outcomes blocked;
  }

  abbrev pub trip_if_due : BreakerPolicy F → ℕ → RetailerState → RetailerState
  trip_if_due policy now s =
      if should_trip policy s.consecutive_blocks s.recent_outcomes
        && not (is_before now s.breaker_open_until)
      then tripped policy now s
      else s

  unfoldable pub record_outcome : RetailerPolicy F → Bool → ℕ → RetailerState → RetailerState
  record_outcome policy blocked now s =
      trip_if_due policy.breaker now (counted_outcome policy.breaker blocked s)

unfoldable pub record_request : ℕ → RetailerState → RetailerState
record_request now s =
    let rolled = roll_buckets now s in
    record rolled {
      last_request_at = some now;
      requests_this_hour = rolled.requests_this_hour + 1;
      requests_this_day = rolled.requests_this_day + 1;
    }

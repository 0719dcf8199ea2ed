-- ===== src/Scheduler/Limiter/Tests.antt =====
-- A run of the limiter, and the theorems at it.
use fishing_deal_tracker.Prelude.{ℕ, ◌*◌, ◌≡◌, ◌↔◌, refl, true, none, some, [], ◌∷◌, is_some, arith}
use fishing_deal_tracker.Prelude.Int.{◌-ℤ◌}
use fishing_deal_tracker.Floats.{Floats}
use fishing_deal_tracker.Floats.Fixed.{fixed}
use fishing_deal_tracker.Store.Database.{TaskKind}
use fishing_deal_tracker.Store.Queries.{hour}
use fishing_deal_tracker.Scheduler.Limiter.{
  RetailerPolicy, RetailerState, Denial, can_admit, denial, initial, record_outcome, record_request,
  roll_buckets,
}
use fishing_deal_tracker.Scheduler.Limiter.Admission.{IsAdmitted, can_admit_iff}
use fishing_deal_tracker.Scheduler.Limiter.Budget.{InBudget, Run, Step, run-InBudget}
use fishing_deal_tracker.Scheduler.Limiter.Breaker.{record_outcome-opens}

instance abbrev numbers : Floats ℕ
numbers = fixed

-- A request each 10 seconds, 2 an hour, 5 a day, a third of them reserved.
abbrev policy : RetailerPolicy ℕ
policy = record {
  min_delay_s = 100_000;
  jitter_s = 20_000;
  max_requests_per_hour = 2;
  max_requests_per_day = 5;
  reserved_share = 1_500 ∷ 1_500 ∷ [];
  breaker = record {
    consecutive_blocks = 2;
    block_rate_threshold = 2_000;
    block_rate_min_sample = 20;
    cooldown_hours = 12;
    disable_after_trips_in_48h = 2;
  };
}

abbrev first : RetailerState
first = record_request 0 (can_admit policy initial TaskKind.hot 0).1

too_early : (can_admit policy first TaskKind.hot 9_999_999).0 ≡ some Denial.delay_not_elapsed
unfolding can_admit denial roll_buckets record_request ◌-ℤ◌
too_early = refl

on_time : (can_admit policy first TaskKind.hot 10_000_000).0 ≡ none
unfolding can_admit denial roll_buckets record_request ◌-ℤ◌
on_time = refl

can_admit_iff_example :
    ((can_admit policy first TaskKind.hot 10_000_000).0 ≡ none)
    ↔ IsAdmitted policy (roll_buckets 10_000_000 first) TaskKind.hot 10_000_000
can_admit_iff_example = can_admit_iff policy first TaskKind.hot 10_000_000

initial_admits : (can_admit policy initial TaskKind.hot 0).0 ≡ none
unfolding can_admit denial roll_buckets
initial_admits = refl

abbrev first_run : Run policy first
first_run = Run.next Run.start (Step.fetched initial TaskKind.hot 0 initial_admits)

run-InBudget_example : InBudget policy first
run-InBudget_example = run-InBudget policy first first_run

-- One block behind it, and a trip some hours ago.
abbrev shaky : RetailerState
shaky = record initial {
  consecutive_blocks = 1;
  trips_in_48h = 0 ∷ [];
  breaker_open_until = some (12 * hour);
}

record_outcome-opens_example :
    is_some
      (can_admit policy
        (record_outcome policy true (13 * hour) shaky)
        TaskKind.confirm
        (20 * hour)).0
    ≡ true
record_outcome-opens_example =
    record_outcome-opens policy shaky (13 * hour) (20 * hour) TaskKind.confirm (omega arith) refl
      (omega arith)

abbrev stopped : RetailerState
stopped = record initial { disabled = true }

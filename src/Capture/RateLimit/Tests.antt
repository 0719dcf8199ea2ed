-- ===== src/Capture/RateLimit/Tests.antt =====
-- Two clients of the endpoint, and the theorem at them.
use fishing_deal_tracker.Prelude.{◌≡◌, refl, true, false, List, [], ◌∷◌, arith}
use fishing_deal_tracker.Prelude.Eq.{string_eq}
use fishing_deal_tracker.Capture.RateLimit.{RateLimiter, allow, get_hits, pop_old, put_hits}
use fishing_deal_tracker.Capture.RateLimit.Refinement.{
  Request, answers, answers-refines, spec_answers,
}

-- Two requests in ten ticks.
abbrev limiter : RateLimiter
limiter = record { max_requests = 2; window = 10; hits = [] }

abbrev requests : List Request
requests = ("a", 1) ∷ ("a", 2) ∷ ("b", 2) ∷ ("a", 11) ∷ ("a", 12) ∷ ("a", 12) ∷ []

answered : answers limiter requests ≡ true ∷ true ∷ true ∷ false ∷ true ∷ false ∷ []
unfolding allow get_hits pop_old put_hits
answered = refl

answers-refines_example : answers limiter requests ≡ spec_answers 2 10 [] requests
answers-refines_example =
    answers-refines 2 10 requests
      (omega arith, (omega arith, (omega arith, (omega arith, (omega arith, (omega arith, tt))))))

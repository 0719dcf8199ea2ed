-- ===== src/Capture/RateLimit.antt =====
-- fpt/capture/ratelimit.py: a sliding window over the requests of each key. A time of the monotonic
-- clock is a number of its ticks, so no difference of times is rounded; the lock makes each call one
-- step.
pub mod Bucket
pub mod Refinement
mod Tests
use fishing_deal_tracker.Prelude.{
  ℕ, ◌+◌, String, Bool, true, false, List, [], ◌∷◌, ◌++◌, length, leb, ltb, if◌then◌else◌,
}
use fishing_deal_tracker.Prelude.Eq.{◌==◌, string_eq}

pub record RateLimiter : Type 0 where
  pub max_requests : ℕ
  pub window : ℕ
  pub hits : List (String × List ℕ)

-- `self._hits.setdefault(key, deque())`, read.
unfoldable pub get_hits : (key : String) → List (String × List ℕ) → List ℕ
get_hits key [] = []
get_hits key ((k, bucket) ∷ rest) =
    let later = get_hits key rest in if k == key then bucket else later

-- The same, written.
unfoldable pub put_hits :
    (key : String) (bucket : List ℕ) → List (String × List ℕ) → List (String × List ℕ)
put_hits key bucket [] = (key, bucket) ∷ []
put_hits key bucket ((k, old) ∷ rest) =
    let later = put_hits key bucket rest in
    if k == key then (k, bucket) ∷ rest else (k, old) ∷ later

-- `t < now - window_s`
abbrev pub is_old : (window now t : ℕ) → Bool
is_old window now t = ltb (t + window) now

-- `while bucket and bucket[0] < cutoff: bucket.popleft()`
unfoldable pub pop_old : (window now : ℕ) → List ℕ → List ℕ
pop_old window now [] = []
pop_old window now (t ∷ bucket) =
    let rest = pop_old window now bucket in if is_old window now t then rest else t ∷ bucket

unfoldable pub allow : RateLimiter → (key : String) (now : ℕ) → Bool × RateLimiter
allow limiter key now =
    let bucket = pop_old limiter.window now (get_hits key limiter.hits) in
    if leb limiter.max_requests (length bucket)
    then (false, record limiter { hits = put_hits key bucket limiter.hits })
    else (true, record limiter { hits = put_hits key (bucket ++ (now ∷ [])) limiter.hits })

abbrev pub reset : RateLimiter → RateLimiter
reset limiter = record limiter { hits = [] }

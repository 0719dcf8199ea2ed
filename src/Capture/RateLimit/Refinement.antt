-- ===== src/Capture/RateLimit/Refinement.antt =====
-- What the limiter of fpt/capture/ratelimit.py promises: a key is let in while fewer than the most
-- requests of it were let in within the window.
use mathlib.Core.Path.{sym}
use fishing_deal_tracker.Prelude.{
  ℕ, ◌≤◌, ◌≡◌, ◌≢◌, refl, ap, ◌∙◌, String, Bool, true, false, ◌&&◌, List, [], ◌∷◌, ◌++◌, arith,
  length, leb, Bool-cases, inl, inr, if◌then◌else◌,
}
use fishing_deal_tracker.Prelude.Eq.{◌==◌, string_eq}
use fishing_deal_tracker.Prelude.Order.{keep}
use fishing_deal_tracker.Capture.RateLimit.{RateLimiter, allow, get_hits, pop_old, put_hits}
use fishing_deal_tracker.Capture.RateLimit.Bucket.{
  Ascending, Ascending-later, Ascending-snoc, get-put_ne, get-put_self, is_fresh, keep-keep,
  length-keep_snoc, pop_old-Ascending, pop_old-keep,
}

-- A request by its key and its time.
abbrev pub Request : Type 0
Request = String × ℕ

abbrev pub counts : (window : ℕ) (key : String) (now : ℕ) → Request → Bool
counts window key now r = r.0 == key && is_fresh window now r.1

-- How many of the requests that were let in count against the key.
abbrev pub used : (window : ℕ) → List Request → (key : String) (now : ℕ) → ℕ
used window accepted key now = length (keep (counts window key now) accepted)

-- The specification: it remembers all the requests that it let in, the latest first.
abbrev pub spec_allow : (most window : ℕ) → List Request → Request → Bool × List Request
spec_allow most window accepted r =
    if leb most (used window accepted r.0 r.1) then (false, accepted) else (true, r ∷ accepted)

abbrev pub spec_answers : (most window : ℕ) → List Request → List Request → List Bool
spec_answers most window accepted [] = []
spec_answers most window accepted (r ∷ rs) =
    (spec_allow most window accepted r).0
    ∷ spec_answers most window (spec_allow most window accepted r).1 rs

-- The answers of the limiter, one after the other.
abbrev pub answers : RateLimiter → List Request → List Bool
answers limiter [] = []
answers limiter (r ∷ rs) = (allow limiter r.0 r.1).0 ∷ answers (allow limiter r.0 r.1).1 rs

-- The clock never goes back.
abbrev pub InOrder : (last : ℕ) → List Request → Type 0
InOrder last [] = Unit
InOrder last (r ∷ rs) = (last ≤ r.1) × InOrder r.1 rs

-- The limiter holds, for each key, what can still count of the requests that were let in.
record Holds (limiter : RateLimiter) (accepted : List Request) (last : ℕ) : Type 0 where
  ascending : (key : String) → Ascending last (get_hits key limiter.hits)
  same_count :
      (key : String) (now : ℕ)
      → last ≤ now
      → length (keep (is_fresh limiter.window now) (get_hits key limiter.hits))
        ≡ used limiter.window accepted key now

count_of :
    (limiter : RateLimiter) (accepted : List Request) (last : ℕ) (key : String) (now : ℕ)
    → Holds limiter accepted last
    → last ≤ now
    → length (pop_old limiter.window now (get_hits key limiter.hits))
      ≡ used limiter.window accepted key now
count_of limiter accepted last key now h le =
    ap length (pop_old-keep limiter.window now last (get_hits key limiter.hits) (h.ascending key))
    ∙ h.same_count key now le

-- A write of one key's times, for a list of requests that differs in that key only.
put-Holds :
    (limiter : RateLimiter) (accepted accepted' : List Request) (last : ℕ) (key : String) (now : ℕ)
    → (bucket : List ℕ) → Holds limiter accepted last
    → last ≤ now
    → Ascending now bucket
    → ((later : ℕ)
        → now ≤ later
        → length (keep (is_fresh limiter.window later) bucket)
          ≡ used limiter.window accepted' key later)
    → ((k : String) (later : ℕ)
        → key ≢ k
        → used limiter.window accepted' k later ≡ used limiter.window accepted k later)
    → Holds (record limiter { hits = put_hits key bucket limiter.hits }) accepted' now
put-Holds limiter accepted accepted' last key now bucket h le a count others = record {
  ascending = λ k. elim (Bool-cases (key == k)) [
    | inl e ↦ rw (sym ((string_eq.test_iff key k).0 e), get-put_self key bucket limiter.hits) a
    | inr e ↦
        rw
          (get-put_ne key k bucket limiter.hits
            (λ q. absurd (cc (e, (string_eq.test_iff key k).1 q))))
          (Ascending-later last now (get_hits k limiter.hits) le (h.ascending k))
  ];
  same_count = λ k later after. elim (Bool-cases (key == k)) [
    | inl e ↦
        rw (sym ((string_eq.test_iff key k).0 e), get-put_self key bucket limiter.hits)
          (count later after)
    | inr e ↦
        let differs : key ≢ k = λ q. absurd (cc (e, (string_eq.test_iff key k).1 q)) in
        rw (get-put_ne key k bucket limiter.hits differs, others k later differs)
          (h.same_count k later (omega (arith, le, after)))
  ];
}

module _ (limiter : RateLimiter) (accepted : List Request) (last : ℕ) (key : String) (now : ℕ)
    (h : Holds limiter accepted last) (le : last ≤ now) where
  abbrev popped : List ℕ
  popped = pop_old limiter.window now (get_hits key limiter.hits)

  popped-Ascending : Ascending now popped
  popped-Ascending =
      Ascending-later last now popped le
        (pop_old-Ascending limiter.window now last (get_hits key limiter.hits) (h.ascending key))

  popped-count :
      (later : ℕ)
      → now ≤ later
      → length (keep (is_fresh limiter.window later) popped)
        ≡ used limiter.window accepted key later
  popped-count later after =
      rw
        (
          pop_old-keep limiter.window now last (get_hits key limiter.hits) (h.ascending key),
          keep-keep limiter.window now later (get_hits key limiter.hits) after,
        )
        (h.same_count key later (omega (arith, le, after)))

  -- A request that is turned away leaves the times that can still count.
  denied-Holds : Holds (record limiter { hits = put_hits key popped limiter.hits }) accepted now
  denied-Holds =
      put-Holds limiter accepted accepted last key now popped h le popped-Ascending popped-count
        (λ k later n. refl)

  snoc-count :
      (later : ℕ)
      → now ≤ later
      → length (keep (is_fresh limiter.window later) (popped ++ (now ∷ [])))
        ≡ used limiter.window ((key, now) ∷ accepted) key later
  snoc-count later after =
      let self = (string_eq.test_iff key key).1 refl in
      let rest = popped-count later after in
      length-keep_snoc (is_fresh limiter.window later) popped now
      ∙ elim (Bool-cases (is_fresh limiter.window later now)) [
        | inl e ↦ rw (e, self) (omega (arith, rest))
        | inr e ↦ rw (e, self) (omega (arith, rest))
      ]

  others-count :
      (k : String) (later : ℕ)
      → key ≢ k
      → used limiter.window ((key, now) ∷ accepted) k later ≡ used limiter.window accepted k later
  others-count k later n = ground (arith, string_eq.test_iff key k, n)

  -- A request that is let in adds its time.
  admitted-Holds :
      Holds
        (record limiter { hits = put_hits key (popped ++ (now ∷ [])) limiter.hits })
        ((key, now) ∷ accepted)
        now
  admitted-Holds =
      put-Holds limiter accepted ((key, now) ∷ accepted) last key now (popped ++ (now ∷ [])) h le
        (Ascending-snoc now popped popped-Ascending) snoc-count others-count

-- From a state that holds what counts, the limiter answers as the specification does.
answers-spec :
    (rs : List Request) (limiter : RateLimiter) (accepted : List Request) (last : ℕ)
    → Holds limiter accepted last
    → InOrder last rs
    → answers limiter rs ≡ spec_answers limiter.max_requests limiter.window accepted rs
unfolding allow
answers-spec [] limiter accepted last h o = refl
answers-spec ((key, now) ∷ rs) limiter accepted last h o =
    let count = count_of limiter accepted last key now h o.0 in
    elim (Bool-cases (leb limiter.max_requests (used limiter.window accepted key now))) [
      | inl e ↦
          let rest =
            answers-spec rs _ accepted now (denied-Holds limiter accepted last key now h o.0) o.1 in
          rw (count, e) (ap (λ l. false ∷ l) rest)
      | inr e ↦
          let rest =
            answers-spec rs _ ((key, now) ∷ accepted) now
              (admitted-Holds limiter accepted last key now h o.0) o.1 in
          rw (count, e) (ap (λ l. true ∷ l) rest)
    ]

-- Whatever keys send requests, as long as the clock does not go back, the limiter gives the answers
-- of one that remembers all requests: a request is let in exactly where fewer than the most requests
-- of its key were let in within the window before it.
pub answers-refines :
    (most window : ℕ) (rs : List Request)
    → InOrder 0 rs
    → answers (record { max_requests = most; window = window; hits = [] }) rs
      ≡ spec_answers most window [] rs
unfolding get_hits
answers-refines most window rs o =
    answers-spec rs (record { max_requests = most; window = window; hits = [] }) [] 0
      (record { ascending = λ key. tt; same_count = λ key now le. refl }) o

-- ===== src/Capture/RateLimit/Bucket.antt =====
-- The queue of times of one key of fpt/capture/ratelimit.py, and the table of the queues.
use fishing_deal_tracker.Prelude.{
  ℕ, ◌+◌, ◌≤◌, ◌≡◌, ◌≢◌, refl, String, Bool, true, false, not, List, [], ◌∷◌, ◌++◌, arith, length,
  Bool-cases, inl, inr, if◌then◌else◌,
}
use fishing_deal_tracker.Prelude.Eq.{◌==◌, string_eq}
use fishing_deal_tracker.Prelude.Order.{All, All-implies, keep}
use fishing_deal_tracker.Capture.RateLimit.{get_hits, is_old, pop_old, put_hits}

-- `t` still counts at `now`.
abbrev pub is_fresh : (window now t : ℕ) → Bool
is_fresh window now t = not (is_old window now t)

-- Times in order, the last of them no later than `last`.
abbrev pub Ascending : (last : ℕ) → List ℕ → Type 0
Ascending last [] = Unit
Ascending last (t ∷ ts) = (t ≤ last) × All (λ u. t ≤ u) ts × Ascending last ts

pub Ascending-later : (a b : ℕ) (ts : List ℕ) → a ≤ b → Ascending a ts → Ascending b ts
Ascending-later a b [] h s = tt
Ascending-later a b (t ∷ ts) h s = (omega (arith, h, s.0), s.1, Ascending-later a b ts h s.2)

All-snoc : (P : ℕ → Type 0) (ts : List ℕ) (n : ℕ) → All P ts → P n → All P (ts ++ (n ∷ []))
All-snoc P [] n h p = (p, tt)
All-snoc P (t ∷ ts) n h p = (h.0, All-snoc P ts n h.1 p)

pub Ascending-snoc :
    (last : ℕ) (ts : List ℕ) → Ascending last ts → Ascending last (ts ++ (last ∷ []))
Ascending-snoc last [] s = (omega arith, tt, tt)
Ascending-snoc last (t ∷ ts) s = (s.0, All-snoc _ ts last s.1 s.0, Ascending-snoc last ts s.2)

module _ (window now : ℕ) where
  keep-all :
      (ts : List ℕ)
      → All (λ t. is_fresh window now t ≡ true) ts
      → keep (is_fresh window now) ts ≡ ts
  keep-all [] h = refl
  keep-all (t ∷ ts) h = rw (h.0, keep-all ts h.1) refl

  fresh-later :
      (t : ℕ) (ts : List ℕ)
      → is_old window now t ≡ false
      → All (λ u. t ≤ u) ts
      → All (λ u. is_fresh window now u ≡ true) ts
  fresh-later t ts e h = All-implies _ _ ts (λ u le. ground (arith, e, le)) h

  -- Popping old times from the front takes all of them, since the times are in order.
  pub pop_old-keep :
      (last : ℕ) (ts : List ℕ)
      → Ascending last ts
      → pop_old window now ts ≡ keep (is_fresh window now) ts
  unfolding pop_old
  pop_old-keep last [] s = refl
  pop_old-keep last (t ∷ ts) s = elim (Bool-cases (is_old window now t)) [
    | inl e ↦ rw e (pop_old-keep last ts s.2)
    | inr e ↦ rw (e, keep-all ts (fresh-later t ts e s.1)) refl
  ]

  pub pop_old-Ascending :
      (last : ℕ) (ts : List ℕ) → Ascending last ts → Ascending last (pop_old window now ts)
  unfolding pop_old
  pop_old-Ascending last [] s = tt
  pop_old-Ascending last (t ∷ ts) s = elim (Bool-cases (is_old window now t)) [
    | inl e ↦ rw e (pop_old-Ascending last ts s.2)
    | inr e ↦ rw e s
  ]

-- A time that counts later counts now.
pub keep-keep :
    (window now later : ℕ) (ts : List ℕ)
    → now ≤ later
    → keep (is_fresh window later) (keep (is_fresh window now) ts) ≡ keep (is_fresh window later) ts
keep-keep window now later [] h = refl
keep-keep window now later (t ∷ ts) h =
    let rest = keep-keep window now later ts h in
    elim (Bool-cases (is_old window now t)) [
      | inl e ↦ let l : is_old window later t ≡ true = ground (arith, e, h) in rw (e, l) rest
      | inr e ↦ elim (Bool-cases (is_old window later t)) [
        | inl l ↦ rw (e, l) rest
        | inr l ↦ rw (e, l, rest) refl
      ]
    ]

pub length-keep_snoc :
    (p : ℕ → Bool) (ts : List ℕ) (n : ℕ)
    → length (keep p (ts ++ (n ∷ []))) ≡ length (keep p ts) + (if p n then 1 else 0)
length-keep_snoc p [] n = ground arith
length-keep_snoc p (t ∷ ts) n = ground (arith, length-keep_snoc p ts n)

pub get-put_self :
    (key : String) (bucket : List ℕ) (hits : List (String × List ℕ))
    → get_hits key (put_hits key bucket hits) ≡ bucket
unfolding get_hits put_hits
get-put_self key bucket [] = rw ((string_eq.test_iff key key).1 refl) refl
get-put_self key bucket ((k, old) ∷ rest) = elim (Bool-cases (k == key)) [
  | inl e ↦ rw (e, put_hits, get_hits, e) refl
  | inr e ↦ rw (e, put_hits, get_hits, e) (get-put_self key bucket rest)
]

pub get-put_ne :
    (key other : String) (bucket : List ℕ) (hits : List (String × List ℕ))
    → key ≢ other
    → get_hits other (put_hits key bucket hits) ≡ get_hits other hits
unfolding get_hits put_hits
get-put_ne key other bucket [] n = ground (arith, string_eq.test_iff key other, n)
get-put_ne key other bucket ((k, old) ∷ rest) n = elim (Bool-cases (k == key)) [
  | inl e ↦
      let same = (string_eq.test_iff k key).0 e in
      let differs : (k == other) ≡ false = ground (arith, string_eq.test_iff k other, same, n) in
      rw (e, put_hits, get_hits, differs) refl
  | inr e ↦
      let later = get-put_ne key other bucket rest n in
      elim (Bool-cases (k == other)) [
        | inl q ↦ rw (e, put_hits, get_hits, q) refl
        | inr q ↦ rw (e, put_hits, get_hits, q) later
      ]
]

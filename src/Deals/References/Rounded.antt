-- ===== src/Deals/References/Rounded.antt =====
-- The rounded median of fpt/deals/references.py: where it lies among the numbers.
use mathlib.Core.Path.{subst}
use fishing_deal_tracker.Prelude.{
  ℕ, zero, suc, ◌+◌, ◌-◌, ◌*◌, ◌/◌, ◌%◌, ◌≤◌, ◌<◌, ◌≡◌, ◌≢◌, refl, inl, inr, true, false, List, [],
  ◌∷◌, length, arith, Bool-cases, ◌==◌, ==_iff,
}
use fishing_deal_tracker.Prelude.Int.{
  ℤ, pos, negsuc, pos_part, neg_part, ◌+ℤ◌, ◌≤ℤ◌, leb_ℤ, +ℤ_parts,
}
use fishing_deal_tracker.Prelude.Order.{All, All-implies, All-sort, keep, length-sort, sort}
use fishing_deal_tracker.Prelude.Sorted.{Ascending, length-keep-sort, sort-Ascending}
use fishing_deal_tracker.Deals.References.{half_even, negate, round_half, item_at, rounded_median}

All-item_at : (P : ℤ → Type 0) (xs : List ℤ) (i : ℕ) → All P xs → i < length xs → P (item_at xs i)
All-item_at P [] i h k = elim k [ ]
All-item_at P (x ∷ xs) zero h k = h.0
All-item_at P (x ∷ xs) (suc i) h k = All-item_at P xs i h.1 (omega arith)

half_even_bounds : (s : ℕ) → (2 * half_even s ≤ s + 1) × (s ≤ 2 * half_even s + 1)
half_even_bounds s = (ground arith, ground arith)

negate_parts : (n : ℕ) → (pos_part (negate n) ≡ 0) × (neg_part (negate n) ≡ n)
negate_parts zero = (refl, refl)
negate_parts (suc n) = (refl, refl)

-- Between two bounds lies the rounded half of a sum of two numbers between them.
round_half_bounds :
    (lo hi a b : ℤ)
    → lo ≤ℤ a
    → lo ≤ℤ b
    → a ≤ℤ hi
    → b ≤ℤ hi
    → (lo ≤ℤ round_half (a +ℤ b)) × (round_half (a +ℤ b) ≤ℤ hi)
round_half_bounds lo hi a b p q r s = go (a +ℤ b) (+ℤ_parts a b)
  where
    go :
        (t : ℤ)
        → pos_part t + neg_part a + neg_part b ≡ neg_part t + pos_part a + pos_part b
        → (lo ≤ℤ round_half t) × (round_half t ≤ℤ hi)
    go (pos t) e = (omega (arith, half_even_bounds t), omega (arith, half_even_bounds t))
    go (negsuc t) e = (
      omega (arith, half_even_bounds (suc t), negate_parts (half_even (suc t))),
      omega (arith, half_even_bounds (suc t), negate_parts (half_even (suc t))),
    )

-- The rounded median of a list with an item lies between any bounds of the items.
pub rounded_median_bounds :
    (lo hi : ℤ) (xs : List ℤ)
    → 0 < length xs
    → All (λ x. (lo ≤ℤ x) × (x ≤ℤ hi)) xs
    → (lo ≤ℤ rounded_median xs) × (rounded_median xs ≤ℤ hi)
unfolding rounded_median
rounded_median_bounds lo hi xs k h =
    let P : ℤ → Type 0 = λ x. (lo ≤ℤ x) × (x ≤ℤ hi) in
    let n = length-sort leb_ℤ xs in
    let ordered = All-sort leb_ℤ P xs h in
    let middle = All-item_at P (sort leb_ℤ xs) (length xs / 2) ordered (omega (arith, n)) in
    let below = All-item_at P (sort leb_ℤ xs) (length xs / 2 - 1) ordered (omega (arith, n)) in
    elim (Bool-cases (length xs % 2 == 1)) [
      | inl e ↦ rw e middle
      | inr e ↦ rw e (round_half_bounds lo hi _ _ below.0 middle.0 below.1 middle.1)
    ]

leb_ℤ_total : (a b : ℤ) → leb_ℤ a b ≡ false → leb_ℤ b a ≡ true
leb_ℤ_total a b e = ground arith

leb_ℤ_trans : (a b c : ℤ) → leb_ℤ a b ≡ true → leb_ℤ b c ≡ true → leb_ℤ a c ≡ true
leb_ℤ_trans a b c h k = ground arith

-- How many of the prices are at most, and at least, so much.
abbrev pub at_most : ℤ → List ℤ → ℕ
at_most m xs = length (keep (λ x. leb_ℤ x m) xs)

abbrev pub at_least : ℤ → List ℤ → ℕ
at_least m xs = length (keep (λ x. leb_ℤ m x) xs)

length-keep_all : (m : ℤ) (xs : List ℤ) → All (λ x. leb_ℤ m x ≡ true) xs → at_least m xs ≡ length xs
length-keep_all m [] h = refl
length-keep_all m (x ∷ xs) h = let k = length-keep_all m xs h.1 in ground (arith, h.0, k)

at_most-item_at :
    (m : ℤ) (xs : List ℤ) (i : ℕ)
    → Ascending leb_ℤ xs
    → i < length xs
    → leb_ℤ (item_at xs i) m ≡ true
    → suc i ≤ at_most m xs
at_most-item_at m [] i h k e = elim k [ ]
at_most-item_at m (x ∷ xs) zero h k e = ground arith
at_most-item_at m (x ∷ xs) (suc i) h k e =
    let rest = at_most-item_at m xs i h.1 (omega (arith, k)) e in
    let first = All-item_at (λ y. leb_ℤ x y ≡ true) xs i h.0 (omega (arith, k)) in
    let low = leb_ℤ_trans x (item_at xs i) m first e in rw low (omega (arith, rest))

at_least-item_at :
    (m : ℤ) (xs : List ℤ) (i : ℕ)
    → Ascending leb_ℤ xs
    → i < length xs
    → leb_ℤ m (item_at xs i) ≡ true
    → length xs ≤ i + at_least m xs
at_least-item_at m [] i h k e = elim k [ ]
at_least-item_at m (x ∷ xs) zero h k e =
    let all =
      length-keep_all m (x ∷ xs) (e, All-implies _ _ xs (λ y q. leb_ℤ_trans m x y e q) h.0) in
    omega (arith, all)
at_least-item_at m (x ∷ xs) (suc i) h k e =
    let rest = at_least-item_at m xs i h.1 (omega (arith, k)) e in
    elim (Bool-cases (leb_ℤ m x)) [
      | inl q ↦ rw q (omega (arith, rest))
      | inr q ↦ rw q (omega (arith, rest))
    ]

item_at-next :
    (xs : List ℤ) (i : ℕ)
    → Ascending leb_ℤ xs
    → suc i < length xs
    → leb_ℤ (item_at xs i) (item_at xs (suc i)) ≡ true
item_at-next [] i h k = elim k [ ]
item_at-next (x ∷ xs) zero h k = All-item_at (λ y. leb_ℤ x y ≡ true) xs zero h.0 (omega (arith, k))
item_at-next (x ∷ xs) (suc i) h k = item_at-next xs i h.1 (omega (arith, k))

-- Half of the items, or more, are at most the rounded median, and half, or more, at least.
pub rounded_median-halves :
    (xs : List ℤ)
    → 0 < length xs
    → (length xs ≤ 2 * at_most (rounded_median xs) xs)
      × (length xs ≤ 2 * at_least (rounded_median xs) xs)
unfolding rounded_median
rounded_median-halves xs k =
    let s = sort leb_ℤ xs in
    let n : length s ≡ length xs = length-sort leb_ℤ xs in
    let up = sort-Ascending leb_ℤ leb_ℤ_total leb_ℤ_trans xs in
    elim (Bool-cases (length xs % 2 == 1)) [
      | inl e ↦
          let m = item_at s (length xs / 2) in
          let low = at_most-item_at m s (length xs / 2) up (omega (arith, n)) (leb_self m) in
          let high = at_least-item_at m s (length xs / 2) up (omega (arith, n)) (leb_self m) in
          let a = length-keep-sort leb_ℤ (λ x. leb_ℤ x m) xs in
          let b = length-keep-sort leb_ℤ (λ x. leb_ℤ m x) xs in
          let odd = (==_iff (length xs % 2) 1).0 e in
          rw e (omega (arith, n, low, a, odd), omega (arith, n, high, b, odd))
      | inr e ↦
          let i = length xs / 2 - 1 in
          let a = item_at s i in
          let b = item_at s (length xs / 2) in
          let m = round_half (a +ℤ b) in
          let even : length xs % 2 ≢ 1 = (λ q. absurd (cc (e, (==_iff (length xs % 2) 1).1 q))) in
          let two : suc i ≡ length xs / 2 = omega (arith, even) in
          let next : leb_ℤ a b ≡ true =
            subst (λ j. leb_ℤ a (item_at s j) ≡ true) two
              (item_at-next s i up (omega (arith, n, two))) in
          let ab = leb_ℤ→le a b next in
          let between = round_half_bounds a b a b (le_self a) ab ab (le_self b) in
          let low = at_most-item_at m s i up (omega (arith, n)) (le→leb_ℤ a m between.0) in
          let high =
            at_least-item_at m s (length xs / 2) up (omega (arith, n)) (le→leb_ℤ m b between.1) in
          let p = length-keep-sort leb_ℤ (λ x. leb_ℤ x m) xs in
          let q = length-keep-sort leb_ℤ (λ x. leb_ℤ m x) xs in
          rw e (omega (arith, n, low, p, two), omega (arith, n, high, q, two))
    ]
  where
    leb_self : (a : ℤ) → leb_ℤ a a ≡ true
    leb_self a = ground arith

    le_self : (a : ℤ) → a ≤ℤ a
    le_self a = omega arith

    leb_ℤ→le : (a b : ℤ) → leb_ℤ a b ≡ true → a ≤ℤ b
    leb_ℤ→le a b h = ground arith

    le→leb_ℤ : (a b : ℤ) → a ≤ℤ b → leb_ℤ a b ≡ true
    le→leb_ℤ a b h = ground arith

-- ===== src/Deals/References/Median.antt =====
-- The own-history reference R1: the bar of evidence, and where the median lies.
use mathlib.Core.Path.{subst, sym}
use fishing_deal_tracker.Prelude.{
  ℕ, suc, ◌+◌, ◌*◌, ◌≤◌, ◌<◌, ◌≡◌, ◌↔◌, ◌⊎◌, refl, ◌∙◌, inl, inr, Bool, true, false, none, some,
  List, [], ◌∷◌, map, length, length-map, arith,
}
use fishing_deal_tracker.Prelude.Int.{ℤ, ◌≤ℤ◌, leb_ℤ}
use fishing_deal_tracker.Prelude.Order.{
  All, All-In, All-implies, All-pair, All-self, All-sort, In, keep, length-sort, sort,
}
use fishing_deal_tracker.Prelude.Sorted.{Ascending, All-of_sort, length-keep-sort, sort-Ascending}
use fishing_deal_tracker.Deals.References.{
  NonClearanceDay, OwnHistoryResult, rounded_median, earlier, last_day, span, own_history_of,
  resolve_own_history_median,
}
use fishing_deal_tracker.Deals.References.Rounded.{rounded_median-halves, rounded_median_bounds}

length-sorted-map :
    (ds : List NonClearanceDay) → length (map (λ x. x.price_cents) (sort earlier ds)) ≡ length ds
length-sorted-map ds =
    omega (arith, length-map (sort earlier ds) (λ x. x.price_cents), length-sort earlier ds)

All-prices :
    (P : ℤ → Type 0) (ds : List NonClearanceDay)
    → All (λ d. P d.price_cents) ds
    → All P (map (λ x. x.price_cents) ds)
All-prices P [] h = tt
All-prices P (d ∷ ds) h = (h.0, All-prices P ds h.1)

own_history_of-some :
    (o : List NonClearanceDay) (min_days min_span_days : ℕ) (r : OwnHistoryResult)
    → own_history_of o min_days min_span_days ≡ some r
    → (min_days ≤ length o)
      × (min_span_days ≤ r.span_days)
      × (r.observed_days ≡ length o)
      × (r.span_days ≡ span o)
      × (r.median_cents ≡ rounded_median (map (λ x. x.price_cents) o))
unfolding own_history_of
own_history_of-some o min_days min_span_days r e = ground arith

earlier_total : (a b : NonClearanceDay) → earlier a b ≡ false → earlier b a ≡ true
earlier_total a b e = ground arith

earlier_trans :
    (a b c : NonClearanceDay) → earlier a b ≡ true → earlier b c ≡ true → earlier a c ≡ true
earlier_trans a b c h k = ground arith

-- The days reach over so many: between a first and a last of them lie all.
pub record Spans (ds : List NonClearanceDay) (days : ℕ) : Type 0 where
  pub first : NonClearanceDay
  pub last : NonClearanceDay
  pub first_of : In first ds
  pub last_of : In last ds
  pub between : All (λ d. (first.day ≤ d.day) × (d.day ≤ last.day)) ds
  pub reach : first.day + days ≡ last.day

last_day-of :
    (d : NonClearanceDay) (ds : List NonClearanceDay)
    → Ascending earlier (d ∷ ds)
    → (l : NonClearanceDay) × In l (d ∷ ds)
      × (last_day d ds ≡ l.day)
      × All (λ x. x.day ≤ l.day) (d ∷ ds)
last_day-of d [] h = (d, inl refl, refl, (omega arith, tt))
last_day-of d (e ∷ es) h =
    let rest = last_day-of e es h.1 in
    let first = h.0.0 in
    let l : d.day ≤ e.day = ground arith in
    (rest.0, inr rest.1, rest.2, (omega (arith, l, rest.3.0), rest.3))

sorted-Spans :
    (ordered : List NonClearanceDay)
    → 0 < length ordered
    → Ascending earlier ordered
    → Spans ordered (span ordered)
sorted-Spans [] k h = elim k [ ]
sorted-Spans (d ∷ ds) k h =
    let r = last_day-of d ds h in
    let l = r.3.0 in
    record {
      first = d;
      last = r.0;
      first_of = inl refl;
      last_of = r.1;
      between =
          All-pair _ _ (d ∷ ds) (omega arith, All-implies _ _ ds (λ x q. ground (arith, q)) h.0)
            r.3;
      reach = (let e = r.2 in omega (arith, e, l));
    }

sort-Spans : (ds : List NonClearanceDay) (days : ℕ) → Spans (sort earlier ds) days → Spans ds days
sort-Spans ds days h =
    let inside = All-sort earlier _ ds (All-self ds) in
    record {
      first = h.first;
      last = h.last;
      first_of = All-In _ (sort earlier ds) h.first inside h.first_of;
      last_of = All-In _ (sort earlier ds) h.last inside h.last_of;
      between = All-of_sort earlier _ ds h.between;
      reach = h.reach;
    }

-- How many days have a price that passes the test.
length-keep_price :
    (p : ℤ → Bool) (ds : List NonClearanceDay)
    → length (keep p (map (λ x. x.price_cents) (sort earlier ds)))
      ≡ length (keep (λ d. p d.price_cents) ds)
length-keep_price p ds =
    of_map (sort earlier ds) ∙ length-keep-sort earlier (λ d. p d.price_cents) ds
  where
    of_map :
        (xs : List NonClearanceDay)
        → length (keep p (map (λ x. x.price_cents) xs)) ≡ length (keep (λ d. p d.price_cents) xs)
    of_map [] = refl
    of_map (x ∷ xs) = let rest = of_map xs in ground (arith, rest)

-- What the rounded median of the prices in their order is to the prices.
median-halves :
    (ds : List NonClearanceDay) (m : ℤ)
    → 0 < length ds
    → m ≡ rounded_median (map (λ x. x.price_cents) (sort earlier ds))
    → (length ds ≤ 2 * length (keep (λ d. leb_ℤ d.price_cents m) ds))
      × (length ds ≤ 2 * length (keep (λ d. leb_ℤ m d.price_cents) ds))
median-halves ds m k e =
    let prices = map (λ x. x.price_cents) (sort earlier ds) in
    let median = rounded_median prices in
    let size = length-sorted-map ds in
    let halves = rounded_median-halves prices (omega (arith, size, k)) in
    let low = length-keep_price (λ x. leb_ℤ x median) ds in
    let high = length-keep_price (λ x. leb_ℤ median x) ds in
    subst
      (λ n.
        (length ds ≤ 2 * length (keep (λ d. leb_ℤ d.price_cents n) ds))
        × (length ds ≤ 2 * length (keep (λ d. leb_ℤ n d.price_cents) ds)))
      (sym e) (omega (arith, halves, low, size), omega (arith, halves, high, size))

-- An own-history reference rests on at least the required number of days, as many as it reports,
-- and on days that reach over at least the required span, as long as it reports. Its median lies
-- between any bounds of the days' prices; on half of the days, or more, the price was at most the
-- median, and on half, or more, it was at least the median.
pub resolve_own_history_median_sound :
    (ds : List NonClearanceDay) (min_days min_span_days : ℕ) (r : OwnHistoryResult) (lo hi : ℤ)
    → resolve_own_history_median ds min_days min_span_days ≡ some r
    → All (λ d. (lo ≤ℤ d.price_cents) × (d.price_cents ≤ℤ hi)) ds
    → (min_days ≤ length ds)
      × (min_span_days ≤ r.span_days)
      × (r.observed_days ≡ length ds)
      × Spans ds r.span_days
      × (lo ≤ℤ r.median_cents)
      × (r.median_cents ≤ℤ hi)
      × (length ds ≤ 2 * length (keep (λ d. leb_ℤ d.price_cents r.median_cents) ds))
      × (length ds ≤ 2 * length (keep (λ d. leb_ℤ r.median_cents d.price_cents) ds))
unfolding resolve_own_history_median
resolve_own_history_median_sound [] min_days min_span_days r lo hi e h = absurd (cc)
resolve_own_history_median_sound (d ∷ ds) min_days min_span_days r lo hi e h =
    let P : ℤ → Type 0 = λ x. (lo ≤ℤ x) × (x ≤ℤ hi) in
    let ordered = sort earlier (d ∷ ds) in
    let prices = map (λ x. x.price_cents) ordered in
    let n : length ordered ≡ suc (length ds) = length-sort earlier (d ∷ ds) in
    let many : 0 < length prices = omega (arith, length-sorted-map (d ∷ ds)) in
    let k = own_history_of-some ordered min_days min_span_days r e in
    let bounds =
      rounded_median_bounds lo hi prices many
        (All-prices P ordered (All-sort earlier _ (d ∷ ds) h)) in
    let halves = median-halves (d ∷ ds) r.median_cents (omega arith) k.4 in
    let reach = sort-Spans (d ∷ ds) (span ordered) (
      sorted-Spans ordered (omega (arith, n))
        (sort-Ascending earlier earlier_total earlier_trans (d ∷ ds))) in
    (
      omega arith,
      k.1,
      k.2 ∙ n,
      subst (Spans (d ∷ ds)) (sym k.3) reach,
      rw k.4 bounds.0,
      rw k.4 bounds.1,
      halves.0,
      halves.1,
    )

-- Given at least one day, there is no own-history reference exactly when the days are fewer than
-- required or their span is shorter than required.
pub resolve_own_history_median-none :
    (d : NonClearanceDay) (ds : List NonClearanceDay) (min_days min_span_days : ℕ)
    → (resolve_own_history_median (d ∷ ds) min_days min_span_days ≡ none)
      ↔ ((length (d ∷ ds) < min_days) ⊎ (span (sort earlier (d ∷ ds)) < min_span_days))
unfolding resolve_own_history_median own_history_of
resolve_own_history_median-none d ds min_days min_span_days =
    let n = length-sort earlier (d ∷ ds) in (λ h. ground (arith, n), λ h. ground (arith, n))

-- ===== src/Core/Gtin/Checksum.antt =====
-- What the check digit of fpt/core/gtin.py detects.
use mathlib.Core.Path.{sym, subst}
use fishing_deal_tracker.Prelude.{
  ℕ, ◌+◌, ◌-◌, ◌*◌, ◌%◌, ◌<◌, ◌≡◌, ◌≢◌, ◌↔◌, ◌⊎◌, refl, ap, ◌∙◌, true, false, List, [], ◌∷◌, ◌++◌,
  arith, reverse_onto, reversed, ==_iff, Bool-cases, Option-cases, inl, inr,
}
use fishing_deal_tracker.Prelude.Order.{All}
use fishing_deal_tracker.Core.Gtin.{
  Decimals, check_matches, digit_value, digit_values, gs1_checksum_valid, total_from, weight,
}

-- The sum starts from where it stands.
total-shift : (i a b : ℕ) (ds : List ℕ) → total_from i (a + b) ds ≡ a + total_from i b ds
unfolding total_from
total-shift i a b [] = refl
total-shift i a b (d ∷ ds) =
    let same : a + b + d * weight i ≡ a + (b + d * weight i) = omega arith in
    rw same (total-shift (i + 1) a (b + d * weight i) ds)

-- Two bodies that differ in one digit have sums that differ by its weight.
total-change :
    (before after : List ℕ) (i total c d : ℕ)
    → (w : ℕ) × ((w ≡ 1) ⊎ (w ≡ 3))
      × (total_from i total (before ++ c ∷ after) + d * w
          ≡ total_from i total (before ++ d ∷ after) + c * w)
unfolding total_from
total-change [] after i total c d =
    let e = total-shift (i + 1) (c * weight i) total after in
    let f = total-shift (i + 1) (d * weight i) total after in
    let p : total + c * weight i ≡ c * weight i + total = omega arith in
    let q : total + d * weight i ≡ d * weight i + total = omega arith in
    (weight i, ground arith, rw (total_from, p, q, e, f) (omega arith))
total-change (b ∷ before) after i total c d =
    total-change before after (i + 1) (total + b * weight i) c d

All-middle :
    (P : ℕ → Type 0) (before : List ℕ) (c : ℕ) (after : List ℕ) → All P (before ++ c ∷ after) → P c
All-middle P [] c after h = h.0
All-middle P (b ∷ before) c after h = All-middle P before c after h.1

check_matches_iff :
    (check : ℕ) (body : List ℕ)
    → check < 10
    → (check_matches (check ∷ body) ≡ true) ↔ ((total_from 0 0 body + check) % 10 ≡ 0)
check_matches_iff check body h =
    let iff = ==_iff ((10 - total_from 0 0 body % 10) % 10) check in
    (λ e. omega (arith, iff.0 e), λ e. iff.1 (omega (arith, e, h)))

changed_sum :
    (s t c d w : ℕ)
    → c < 10
    → d < 10
    → c ≢ d
    → (w ≡ 1) ⊎ (w ≡ 3)
    → s + d * w ≡ t + c * w
    → s % 10 ≡ 0
    → t % 10 ≢ 0
changed_sum s t c d w hc hd n (inl e) q z y =
    let r : s + d * 1 ≡ t + c * 1 = subst (λ k. s + d * k ≡ t + c * k) e q in
    n (omega (arith, r, z, y, hc, hd))
changed_sum s t c d w hc hd n (inr e) q z y =
    let r : s + d * 3 ≡ t + c * 3 = subst (λ k. s + d * k ≡ t + c * k) e q in
    n (omega (arith, r, z, y, hc, hd))

-- A change of one digit of a body that matches its check digit, or of the check digit.
check_matches-change :
    (before after : List ℕ) (c d : ℕ)
    → All (λ v. v < 10) (before ++ c ∷ after)
    → d < 10
    → c ≢ d
    → check_matches (before ++ c ∷ after) ≡ true
    → check_matches (before ++ d ∷ after) ≡ false
check_matches-change [] after c d h hd n e =
    let x = (check_matches_iff c after h.0).0 e in
    elim (Bool-cases (check_matches (d ∷ after))) [
      | inr q ↦ q
      | inl q ↦
          let y = (check_matches_iff d after hd).0 q in absurd (n (omega (arith, x, y, h.0, hd)))
    ]
check_matches-change (check ∷ before) after c d h hd n e =
    let x = (check_matches_iff check (before ++ c ∷ after) h.0).0 e in
    let w = total-change before after 0 0 c d in
    let hc = All-middle (λ v. v < 10) before c after h.1 in
    elim (Bool-cases (check_matches (check ∷ before ++ d ∷ after))) [
      | inr q ↦ q
      | inl q ↦
          let y = (check_matches_iff check (before ++ d ∷ after) h.0).0 q in
          let shifted : total_from 0 0 (before ++ c ∷ after) + check + d * w.0
              ≡ total_from 0 0 (before ++ d ∷ after) + check + c * w.0 =
            omega (arith, w.2) in
          absurd (changed_sum _ _ c d w.0 hc hd n w.1 shifted x y)
    ]

reverse_onto-append :
    (done xs ys : List ℕ) → reverse_onto done (xs ++ ys) ≡ reverse_onto (reverse_onto done xs) ys
reverse_onto-append done [] ys = refl
reverse_onto-append done (x ∷ xs) ys = reverse_onto-append (x ∷ done) xs ys

append-snoc : (xs : List ℕ) (x : ℕ) (zs : List ℕ) → (xs ++ (x ∷ [])) ++ zs ≡ xs ++ x ∷ zs
append-snoc [] x zs = refl
append-snoc (y ∷ xs) x zs = ap (λ l. y ∷ l) (append-snoc xs x zs)

reverse_onto-reversed : (done xs : List ℕ) → reverse_onto done xs ≡ reversed xs ++ done
reverse_onto-reversed done [] = refl
reverse_onto-reversed done (x ∷ xs) =
    let first = reverse_onto-reversed (x ∷ done) xs in
    let last : reversed (x ∷ xs) ++ done ≡ reversed xs ++ x ∷ done =
      rw (reverse_onto-reversed (x ∷ []) xs) (append-snoc (reversed xs) x done) in
    first ∙ sym last

reversed-middle :
    (xs : List ℕ) (x : ℕ) (ys : List ℕ) → reversed (xs ++ x ∷ ys) ≡ reversed ys ++ x ∷ reversed xs
reversed-middle xs x ys =
    reverse_onto-append [] xs (x ∷ ys) ∙ reverse_onto-reversed (x ∷ reversed xs) ys

All-reverse_onto :
    (P : ℕ → Type 0) (done xs : List ℕ) → All P done → All P xs → All P (reverse_onto done xs)
All-reverse_onto P done [] h k = h
All-reverse_onto P done (x ∷ xs) h k = All-reverse_onto P (x ∷ done) xs (k.0, h) k.1

module _ (dec : Decimals) where
  digit_values-middle :
      (before : List ℕ) (c : ℕ) (after : List ℕ)
      → digit_values dec (before ++ c ∷ after)
        ≡ digit_values dec before ++ digit_value dec c ∷ digit_values dec after
  digit_values-middle [] c after = refl
  digit_values-middle (b ∷ before) c after =
      ap (λ l. digit_value dec b ∷ l) (digit_values-middle before c after)

  digit_value-lt : (c : ℕ) → digit_value dec c < 10
  digit_value-lt c = elim (Option-cases (dec.value c)) [
    | inl e ↦ rw e (omega arith)
    | inr (v, e) ↦ rw e (dec.value-lt c v e)
  ]

  digit_values-lt : (text : List ℕ) → All (λ v. v < 10) (digit_values dec text)
  digit_values-lt [] = tt
  digit_values-lt (c ∷ text) = (digit_value-lt c, digit_values-lt text)

  values_from_last :
      (before : List ℕ) (c : ℕ) (after : List ℕ)
      → reversed (digit_values dec (before ++ c ∷ after))
        ≡ reversed (digit_values dec after)
          ++ digit_value dec c ∷ reversed (digit_values dec before)
  values_from_last before c after =
      ap reversed (digit_values-middle before c after)
      ∙ reversed-middle (digit_values dec before) (digit_value dec c) (digit_values dec after)

  valid-matches :
      (text : List ℕ)
      → gs1_checksum_valid dec text ≡ true
      → check_matches (reversed (digit_values dec text)) ≡ true
  unfolding gs1_checksum_valid
  valid-matches text e = ground (arith, e)

  mismatch-invalid :
      (text : List ℕ)
      → check_matches (reversed (digit_values dec text)) ≡ false
      → gs1_checksum_valid dec text ≡ false
  unfolding gs1_checksum_valid
  mismatch-invalid text e = ground (arith, e)

  -- A barcode that passes the check fails it once any one of its digits, the check digit included,
  -- is read as another digit: a misread digit never gives another barcode.
  pub gs1_checksum_valid-detects :
      (before : List ℕ) (c d : ℕ) (after : List ℕ)
      → digit_value dec c ≢ digit_value dec d
      → gs1_checksum_valid dec (before ++ c ∷ after) ≡ true
      → gs1_checksum_valid dec (before ++ d ∷ after) ≡ false
  gs1_checksum_valid-detects before c d after n e =
      let tail = reversed (digit_values dec after) in
      let head = reversed (digit_values dec before) in
      let matches =
        subst (λ l. check_matches l ≡ true) (values_from_last before c after)
          (valid-matches (before ++ c ∷ after) e) in
      let small = subst (All (λ v. v < 10)) (values_from_last before c after) (
        All-reverse_onto (λ v. v < 10) [] (digit_values dec (before ++ c ∷ after)) tt
          (digit_values-lt (before ++ c ∷ after))) in
      mismatch-invalid (before ++ d ∷ after) (
        ap check_matches (values_from_last before d after)
        ∙ check_matches-change tail head (digit_value dec c) (digit_value dec d) small
            (digit_value-lt d) n matches)

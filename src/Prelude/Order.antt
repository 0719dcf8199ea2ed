-- ===== src/Prelude/Order.antt =====
-- Python's `sorted` and `min` with a key: both keep the first of equal items.
use fishing_deal_tracker.Prelude.{
  suc, ◌≡◌, ◌⊎◌, refl, Bool, true, List, [], ◌∷◌, arith, length, if◌then◌else◌, Bool-cases, inl,
  inr, ◌≤◌, Option, some, none,
}
use fishing_deal_tracker.Prelude.Int.{ℤ, ◌≤ℤ◌, ltb_ℤ, ltb_ℤ→lt, ltb_ℤ-false→le}

-- A predicate that every item has.
abbrev pub All {ℓ κ} : {A : Type ℓ} → (A → Type κ) → List A → Type κ
All P [] = Unit
All P (x ∷ xs) = P x × All P xs

-- `x` is a row of the table.
abbrev pub In : {A : Type 0} → A → List A → Type 0
In x [] = ⊥
In x (y ∷ ys) = (x ≡ y) ⊎ In x ys

module _ {ℓ} {A : Type ℓ} where
  -- `[x for x in xs if p(x)]`
  abbrev pub keep : (A → Bool) → List A → List A
  keep p [] = []
  keep p (x ∷ xs) = let rest = keep p xs in if p x then x ∷ rest else rest

  pub All-keep {κ} : (P : A → Type κ) (p : A → Bool) (xs : List A) → All P xs → All P (keep p xs)
  All-keep P p [] h = tt
  All-keep P p (x ∷ xs) h = elim (Bool-cases (p x)) [
    | inl e ↦ rw e (h.0, All-keep P p xs h.1)
    | inr e ↦ rw e (All-keep P p xs h.1)
  ]

  pub All-kept : (p : A → Bool) (xs : List A) → All (λ x. p x ≡ true) (keep p xs)
  All-kept p [] = tt
  All-kept p (x ∷ xs) = elim (Bool-cases (p x)) [
    | inl e ↦ rw e (e, All-kept p xs)
    | inr e ↦ rw e (All-kept p xs)
  ]

  -- What holds of all that is kept holds of every item that passes the test.
  pub All-of_keep {κ} :
      (P : A → Type κ) (p : A → Bool) (xs : List A)
      → All P (keep p xs)
      → All (λ x. p x ≡ true → P x) xs
  All-of_keep P p [] = λ h. tt
  All-of_keep P p (x ∷ xs) = elim (Bool-cases (p x)) [
    | inl e ↦ rw e (λ h. (λ _. h.0, All-of_keep P p xs h.1))
    | inr e ↦ rw e (λ h. (λ q. cc, All-of_keep P p xs h))
  ]

  pub All-implies {κ μ} :
      (P : A → Type κ) (Q : A → Type μ) (xs : List A) → ((x : A) → P x → Q x) → All P xs → All Q xs
  All-implies P Q [] f h = tt
  All-implies P Q (x ∷ xs) f h = (f x h.0, All-implies P Q xs f h.1)

  pub length-keep : (p : A → Bool) (xs : List A) → length (keep p xs) ≤ length xs
  length-keep p [] = omega arith
  length-keep p (x ∷ xs) = ground (arith, length-keep p xs)

module _ {ℓ} {A : Type ℓ} (key : A → ℤ) where
  -- `min([a, *xs], key=key)`
  unfoldable pub min_by : A → List A → A
  min_by a [] = a
  min_by a (x ∷ xs) = min_by (if ltb_ℤ (key x) (key a) then x else a) xs

  min_bound :
      (m : ℤ) (a : A) (xs : List A)
      → m ≤ℤ key (min_by a xs)
      → (m ≤ℤ key a) × All (λ x. m ≤ℤ key x) xs
  unfolding min_by
  min_bound m a [] = λ h. (h, tt)
  min_bound m a (x ∷ xs) = elim (Bool-cases (ltb_ℤ (key x) (key a))) [
    | inl e ↦ rw e (λ h.
        let k = min_bound m x xs h in (omega (arith, k.0, ltb_ℤ→lt (key x) (key a) e), (k.0, k.1)))
    | inr e ↦ rw e (λ h.
        let k = min_bound m a xs h in
        (k.0, (omega (arith, k.0, ltb_ℤ-false→le (key x) (key a) e), k.1)))
  ]

  -- No item has a smaller key than the minimum.
  pub min_by-le :
      (a : A) (xs : List A)
      → (key (min_by a xs) ≤ℤ key a) × All (λ x. key (min_by a xs) ≤ℤ key x) xs
  min_by-le a xs = min_bound (key (min_by a xs)) a xs (omega arith)

  -- The minimum is one of the items.
  pub All-min_by {κ} : (P : A → Type κ) (a : A) (xs : List A) → P a → All P xs → P (min_by a xs)
  unfolding min_by
  All-min_by P a [] h k = h
  All-min_by P a (x ∷ xs) h k = elim (Bool-cases (ltb_ℤ (key x) (key a))) [
    | inl e ↦ rw e (All-min_by P x xs k.0 k.1)
    | inr e ↦ rw e (All-min_by P a xs h k.1)
  ]

  -- `min(xs, key=key)`, and None on no item.
  abbrev pub min? : List A → Option A
  min? [] = none
  min? (a ∷ xs) = some (min_by a xs)

module _ {ℓ} {A : Type ℓ} (before : A → A → Bool) where
  -- `before x y`: x may stand before y. An item is put before those that it may precede.
  abbrev pub insert_sorted : A → List A → List A
  insert_sorted x [] = x ∷ []
  insert_sorted x (y ∷ ys) =
      let rest = insert_sorted x ys in if before x y then x ∷ y ∷ ys else y ∷ rest

  -- `sorted(xs)`, which is stable.
  abbrev pub sort : List A → List A
  sort [] = []
  sort (x ∷ xs) = insert_sorted x (sort xs)

  pub length-insert_sorted : (x : A) (ys : List A) → length (insert_sorted x ys) ≡ suc (length ys)
  length-insert_sorted x [] = refl
  length-insert_sorted x (y ∷ ys) = ground (arith, length-insert_sorted x ys)

  pub length-sort : (xs : List A) → length (sort xs) ≡ length xs
  length-sort [] = refl
  length-sort (x ∷ xs) = omega (arith, length-insert_sorted x (sort xs), length-sort xs)

  pub All-insert_sorted {κ} :
      (P : A → Type κ) (x : A) (ys : List A) → P x → All P ys → All P (insert_sorted x ys)
  All-insert_sorted P x [] h k = (h, tt)
  All-insert_sorted P x (y ∷ ys) h k = elim (Bool-cases (before x y)) [
    | inl e ↦ rw e (h, (k.0, k.1))
    | inr e ↦ rw e (k.0, All-insert_sorted P x ys h k.1)
  ]

  pub All-sort {κ} : (P : A → Type κ) (xs : List A) → All P xs → All P (sort xs)
  All-sort P [] h = tt
  All-sort P (x ∷ xs) h = All-insert_sorted P x (sort xs) h.0 (All-sort P xs h.1)

module _ {A : Type 0} where
  pub In-cons : (y : A) (ys xs : List A) → All (λ x. In x ys) xs → All (λ x. In x (y ∷ ys)) xs
  In-cons y ys [] h = tt
  In-cons y ys (x ∷ xs) h = (inr h.0, In-cons y ys xs h.1)

  pub All-self : (xs : List A) → All (λ x. In x xs) xs
  All-self [] = tt
  All-self (x ∷ xs) = (inl refl, In-cons x xs xs (All-self xs))

  pub All-pair {κ μ} :
      (P : A → Type κ) (Q : A → Type μ) (xs : List A)
      → All P xs
      → All Q xs
      → All (λ x. P x × Q x) xs
  All-pair P Q [] h k = tt
  All-pair P Q (x ∷ xs) h k = ((h.0, k.0), All-pair P Q xs h.1 k.1)

  -- What holds of every row holds of one row.
  pub All-In {κ} : (P : A → Type κ) (xs : List A) (x : A) → All P xs → In x xs → P x
  All-In P [] x h i = absurd i
  All-In P (y ∷ ys) x h (inl e) = rw e h.0
  All-In P (y ∷ ys) x h (inr i) = All-In P ys x h.1 i

-- ===== src/Prelude/Upsert.antt =====
-- `INSERT … ON CONFLICT … DO UPDATE` on a table with one unique key.
use fishing_deal_tracker.Prelude.{
  ◌≡◌, refl, ◌∙◌, Bool, true, false, none, some, List, [], ◌∷◌, Bool-cases, inl, inr, if◌then◌else◌,
}
use fishing_deal_tracker.Prelude.Order.{All}
use fishing_deal_tracker.Prelude.Query.{find?}

module _ {ℓ} {A : Type ℓ} where
  -- The row that conflicts is updated, or the new one inserted.
  abbrev pub upsert : (conflicts : A → Bool) (update : A → A) (row : A) → List A → List A
  upsert conflicts update row [] = row ∷ []
  upsert conflicts update row (x ∷ xs) =
      let rest = upsert conflicts update row xs in if conflicts x then update x ∷ xs else x ∷ rest

  -- No two rows conflict.
  abbrev pub UniqueBy : (same : A → A → Bool) → List A → Type ℓ
  UniqueBy same [] = Unit
  UniqueBy same (x ∷ xs) = All (λ y. same x y ≡ false) xs × UniqueBy same xs

-- A test of the key, and an update that leaves the key.
pub record KeyLaws {ℓ} {A : Type ℓ} (same : A → A → Bool) (update : A → A) : Type ℓ where
  pub symmetric : (x y : A) → same x y ≡ same y x
  pub same_key : (x y : A) → same (update x) y ≡ same x y

module _ {ℓ} {A : Type ℓ} (same : A → A → Bool) (update : A → A) (laws : KeyLaws same update) where
  All-upsert :
      (x row : A) (ys : List A)
      → same x row ≡ false
      → All (λ y. same x y ≡ false) ys
      → All (λ y. same x y ≡ false) (upsert (same row) update row ys)
  All-upsert x row [] e h = (e, tt)
  All-upsert x row (y ∷ ys) e h = elim (Bool-cases (same row y)) [
    | inl q ↦
        let k : same x (update y) ≡ false =
          laws.symmetric x (update y) ∙ laws.same_key y x ∙ laws.symmetric y x ∙ h.0 in
        rw q (k, h.1)
    | inr q ↦ rw q (h.0, All-upsert x row ys e h.1)
  ]

  All-updated :
      (x : A) (ys : List A)
      → All (λ y. same x y ≡ false) ys
      → All (λ y. same (update x) y ≡ false) ys
  All-updated x [] h = tt
  All-updated x (y ∷ ys) h = (laws.same_key x y ∙ h.0, All-updated x ys h.1)

  -- An upsert keeps the key unique.
  pub upsert-UniqueBy :
      (row : A) (xs : List A) → UniqueBy same xs → UniqueBy same (upsert (same row) update row xs)
  upsert-UniqueBy row [] u = (tt, tt)
  upsert-UniqueBy row (x ∷ xs) u = elim (Bool-cases (same row x)) [
    | inl q ↦ rw q (All-updated x xs u.0, u.1)
    | inr q ↦ rw q (All-upsert x row xs (laws.symmetric x row ∙ q) u.0, upsert-UniqueBy row xs u.1)
  ]

module _ {ℓ} {A : Type ℓ} (conflicts : A → Bool) (update : A → A) (row : A) where
  -- After an upsert the row of the key is the updated one, or else the new one.
  pub find?-upsert :
      ((x : A) → conflicts x ≡ true → conflicts (update x) ≡ true)
      → conflicts row ≡ true
      → (xs : List A)
      → find? conflicts (upsert conflicts update row xs)
        ≡ elim (find? conflicts xs) [ none ↦ some row | some x ↦ some (update x) ]
  find?-upsert kept self [] = rw self refl
  find?-upsert kept self (x ∷ xs) = elim (Bool-cases (conflicts x)) [
    | inl q ↦ rw (q, kept x q) refl
    | inr q ↦ rw (q, q) (find?-upsert kept self xs)
  ]

  -- The other keys' rows stay.
  pub find?-upsert_other :
      (p : A → Bool)
      → ((x : A) → conflicts x ≡ true → (p x ≡ false) × (p (update x) ≡ false))
      → p row ≡ false
      → (xs : List A) → find? p (upsert conflicts update row xs) ≡ find? p xs
  find?-upsert_other p apart self [] = rw self refl
  find?-upsert_other p apart self (x ∷ xs) = elim (Bool-cases (conflicts x)) [
    | inl q ↦ let a = apart x q in rw (q, a.0, a.1) refl
    | inr q ↦ elim (Bool-cases (p x)) [
      | inl r ↦ rw (q, r) refl
      | inr r ↦ rw (q, r) (find?-upsert_other p apart self xs)
    ]
  ]

module _ {ℓ} {A : Type ℓ} (conflicts : A → Bool) (update update' : A → A) (row row' : A)
    (self : conflicts row ≡ true)
    (kept : (x : A) → conflicts x ≡ true → conflicts (update x) ≡ true) (new : update' row ≡ row)
    (old : (x : A) → update' (update x) ≡ update x) where
  -- The same upsert once more changes no row.
  pub upsert-again :
      (xs : List A)
      → upsert conflicts update' row' (upsert conflicts update row xs)
        ≡ upsert conflicts update row xs
  upsert-again [] = rw (self, new) refl
  upsert-again (x ∷ xs) = elim (Bool-cases (conflicts x)) [
    | inl q ↦ rw (q, kept x q, old x) refl
    | inr q ↦ rw (q, q, upsert-again xs) refl
  ]

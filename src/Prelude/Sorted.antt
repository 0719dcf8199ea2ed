-- ===== src/Prelude/Sorted.antt =====
-- That `sorted` puts first an item that may precede all the others, and loses none.
use fishing_deal_tracker.Prelude.{
  ◌≡◌, refl, Bool, true, false, List, [], ◌∷◌, length, arith, Bool-cases, inl, inr,
}
use fishing_deal_tracker.Prelude.Order.{
  All, All-implies, All-insert_sorted, insert_sorted, keep, sort,
}

module _ {ℓ} {A : Type ℓ} (before : A → A → Bool) where
  -- The first of the items comes before the others.
  abbrev pub IsHeaded : List A → Type 0
  IsHeaded [] = Unit
  IsHeaded (x ∷ xs) = All (λ y. before x y ≡ true) (x ∷ xs)

  -- Every item comes before those that follow it.
  abbrev pub Ascending : List A → Type 0
  Ascending [] = Unit
  Ascending (x ∷ xs) = All (λ y. before x y ≡ true) xs × Ascending xs

  pub All-of_insert {κ} :
      (P : A → Type κ) (x : A) (ys : List A) → All P (insert_sorted before x ys) → P x × All P ys
  All-of_insert P x [] = λ h. h
  All-of_insert P x (y ∷ ys) = elim (Bool-cases (before x y)) [
    | inl e ↦ rw e (λ h. h)
    | inr e ↦ rw e (λ h. let k = All-of_insert P x ys h.1 in (k.0, (h.0, k.1)))
  ]

  -- What holds of all that is sorted holds of every item.
  pub All-of_sort {κ} : (P : A → Type κ) (xs : List A) → All P (sort before xs) → All P xs
  All-of_sort P [] h = tt
  All-of_sort P (x ∷ xs) h =
      let k = All-of_insert P x (sort before xs) h in (k.0, All-of_sort P xs k.1)

  module _ (total : (x y : A) → before x y ≡ false → before y x ≡ true)
      (trans : (x y z : A) → before x y ≡ true → before y z ≡ true → before x z ≡ true) where
    before_self : (x : A) → before x x ≡ true
    before_self x = elim (Bool-cases (before x x)) [ inl e ↦ e | inr e ↦ total x x e ]

    insert_sorted-IsHeaded :
        (x : A) (ys : List A) → IsHeaded ys → IsHeaded (insert_sorted before x ys)
    insert_sorted-IsHeaded x [] h = (before_self x, tt)
    insert_sorted-IsHeaded x (y ∷ ys) h = elim (Bool-cases (before x y)) [
      | inl e ↦ rw e (before_self x, All-implies _ _ (y ∷ ys) (λ z q. trans x y z e q) h)
      | inr e ↦ rw e (h.0, All-insert_sorted before _ x ys (total x y e) h.1)
    ]

    pub sort-IsHeaded : (xs : List A) → IsHeaded (sort before xs)
    sort-IsHeaded [] = tt
    sort-IsHeaded (x ∷ xs) = insert_sorted-IsHeaded x (sort before xs) (sort-IsHeaded xs)

    insert_sorted-Ascending :
        (x : A) (ys : List A) → Ascending ys → Ascending (insert_sorted before x ys)
    insert_sorted-Ascending x [] h = (tt, tt)
    insert_sorted-Ascending x (y ∷ ys) h = elim (Bool-cases (before x y)) [
      | inl e ↦ rw e ((e, All-implies _ _ ys (λ z q. trans x y z e q) h.0), h)
      | inr e ↦
          rw e (All-insert_sorted before _ x ys (total x y e) h.0, insert_sorted-Ascending x ys h.1)
    ]

    pub sort-Ascending : (xs : List A) → Ascending (sort before xs)
    sort-Ascending [] = tt
    sort-Ascending (x ∷ xs) = insert_sorted-Ascending x (sort before xs) (sort-Ascending xs)

  -- Sorting keeps how many items pass a test.
  length-keep_insert :
      (p : A → Bool) (x : A) (ys : List A)
      → length (keep p (insert_sorted before x ys)) ≡ length (keep p (x ∷ ys))
  length-keep_insert p x [] = refl
  length-keep_insert p x (y ∷ ys) =
      let rest = length-keep_insert p x ys in
      elim (Bool-cases (before x y)) [ inl e ↦ rw e refl | inr e ↦ rw e (ground (arith, rest)) ]

  pub length-keep-sort :
      (p : A → Bool) (xs : List A) → length (keep p (sort before xs)) ≡ length (keep p xs)
  length-keep-sort p [] = refl
  length-keep-sort p (x ∷ xs) =
      let first = length-keep_insert p x (sort before xs) in
      let rest = length-keep-sort p xs in ground (arith, first, rest)

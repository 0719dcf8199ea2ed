-- ===== src/Prelude/Query.antt =====
-- The parts of an SQL query, over a table as a list of rows.
use fishing_deal_tracker.Prelude.{
  ℕ, ◌≡◌, refl, Bool, true, false, Option, none, some, List, [], ◌∷◌, ◌++◌, arith, if◌then◌else◌,
  ◌==◌, Bool-cases, inl, inr,
}
use fishing_deal_tracker.Prelude.Order.{All, In}

infixl 5 ◌>>=◌ ◌>>◌
abbrev pub ◌>>=◌ {ℓ κ} : {A : Type ℓ} {B : Type κ} → Option A → (A → Option B) → Option B
none >>= f = none
some a >>= f = f a

abbrev pub ◌>>◌ {ℓ} : {B : Type ℓ} → Option (Unit {0}) → Option B → Option B
m >> k = m >>= λ _. k

-- A condition of a WHERE or ON clause.
abbrev pub where_ : Bool → Option (Unit {0})
where_ true = some tt
where_ false = none

module _ {ℓ} {A : Type ℓ} where
  -- The first row that passes: `WHERE … LIMIT 1` on a unique column.
  abbrev pub find? : (A → Bool) → List A → Option A
  find? p [] = none
  find? p (x ∷ xs) = let rest = find? p xs in if p x then some x else rest

  abbrev pub head? : List A → Option A
  head? [] = none
  head? (x ∷ xs) = some x

  -- `DISTINCT ON (key)` of rows in order: the first row of each run of one key.
  abbrev pub distinct_after : (key : A → ℕ) → ℕ → List A → List A
  distinct_after key k [] = []
  distinct_after key k (x ∷ xs) =
      let rest = distinct_after key (key x) xs in if key x == k then rest else x ∷ rest

  abbrev pub distinct_on : (key : A → ℕ) → List A → List A
  distinct_on key [] = []
  distinct_on key (x ∷ xs) = x ∷ distinct_after key (key x) xs

  pub All-distinct_after {κ} :
      (P : A → Type κ) (key : A → ℕ) (k : ℕ) (xs : List A)
      → All P xs
      → All P (distinct_after key k xs)
  All-distinct_after P key k [] h = tt
  All-distinct_after P key k (x ∷ xs) h = elim (Bool-cases (key x == k)) [
    | inl e ↦ rw e (All-distinct_after P key (key x) xs h.1)
    | inr e ↦ rw e (h.0, All-distinct_after P key (key x) xs h.1)
  ]

  pub All-distinct_on {κ} :
      (P : A → Type κ) (key : A → ℕ) (xs : List A) → All P xs → All P (distinct_on key xs)
  All-distinct_on P key [] h = tt
  All-distinct_on P key (x ∷ xs) h = (h.0, All-distinct_after P key (key x) xs h.1)

module _ {ℓ κ} {A : Type ℓ} {B : Type κ} where
  -- The rows that `f` makes.
  abbrev pub filter_map : (A → Option B) → List A → List B
  filter_map f [] = []
  filter_map f (x ∷ xs) = elim (f x) [ none ↦ filter_map f xs | some b ↦ b ∷ filter_map f xs ]

  -- A join: all the rows of all the tables.
  abbrev pub flat_map : (A → List B) → List A → List B
  flat_map f [] = []
  flat_map f (x ∷ xs) = f x ++ flat_map f xs

module _ {ℓ} {B : Type ℓ} where
  pub All-++ {μ} : (P : B → Type μ) (xs ys : List B) → All P xs → All P ys → All P (xs ++ ys)
  All-++ P [] ys h k = k
  All-++ P (x ∷ xs) ys h k = (h.0, All-++ P xs ys h.1 k)

module _ {κ} {A : Type 0} {B : Type κ} where
  -- A property of every row that `f` makes from a row of the table.
  pub All-filter_map {μ} :
      (P : B → Type μ) (f : A → Option B) (xs : List A)
      → ((a : A) (b : B) → In a xs → f a ≡ some b → P b)
      → All P (filter_map f xs)
  All-filter_map P f [] h = tt
  All-filter_map P f (x ∷ xs) h = go (f x) refl (All-filter_map P f xs (λ a b i. h a b (inr i)))
    where
      go :
          (o : Option B)
          → f x ≡ o
          → All P (filter_map f xs)
          → All P (elim o [ none ↦ filter_map f xs | some b ↦ b ∷ filter_map f xs ])
      go none e rest = rest
      go (some b) e rest = (h x b (inl refl) e, rest)

  pub All-flat_map {μ} :
      (P : B → Type μ) (f : A → List B) (xs : List A)
      → ((a : A) → In a xs → All P (f a))
      → All P (flat_map f xs)
  All-flat_map P f [] h = tt
  All-flat_map P f (x ∷ xs) h =
      All-++ P (f x) (flat_map f xs) (h x (inl refl)) (All-flat_map P f xs (λ a i. h a (inr i)))

module _ {A : Type 0} where
  -- A row that a lookup finds stands in the table and passes the test.
  pub find?-In : (p : A → Bool) (xs : List A) (a : A) → find? p xs ≡ some a → In a xs × (p a ≡ true)
  find?-In p [] a e = absurd (cc)
  find?-In p (x ∷ xs) a e = elim (Bool-cases (p x)) [
    | inl q ↦ let same : a ≡ x = ground arith in (inl same, rw same q)
    | inr q ↦ let k = find?-In p xs a (ground arith) in (inr k.0, k.1)
  ]

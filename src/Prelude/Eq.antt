-- ===== src/Prelude/Eq.antt =====
-- Python's `==` on the values that the program compares.
use text.Mathlib.Text.{◌==◌ as str_eq}
use text.Mathlib.TextEquality.{eq_iff}
use fishing_deal_tracker.Prelude.{
  ℕ, String, ◌≡◌, ◌↔◌, Bool, true, false, ◌||◌, Option, none, some, List, [], ◌∷◌, arith,
  ◌==◌ as nat_beq, ==_iff,
}
use fishing_deal_tracker.Prelude.Int.{ℤ, pos, negsuc}

abbrev pub int_beq : ℤ → ℤ → Bool
int_beq (pos a) (pos b) = nat_beq a b
int_beq (pos a) (negsuc b) = false
int_beq (negsuc a) (pos b) = false
int_beq (negsuc a) (negsuc b) = nat_beq a b

pub int_beq_iff : (a b : ℤ) → (int_beq a b ≡ true) ↔ (a ≡ b)
int_beq_iff (pos a) (pos b) = ground arith
int_beq_iff (pos a) (negsuc b) = ground arith
int_beq_iff (negsuc a) (pos b) = ground arith
int_beq_iff (negsuc a) (negsuc b) = ground arith

-- `None` equals `None` only.
abbrev pub option_beq {ℓ} : {A : Type ℓ} → (A → A → Bool) → Option A → Option A → Bool
option_beq f none none = true
option_beq f none (some b) = false
option_beq f (some a) none = false
option_beq f (some a) (some b) = f a b

module _ {ℓ} {A : Type ℓ} (f : A → A → Bool) (iff : (a b : A) → (f a b ≡ true) ↔ (a ≡ b)) where
  pub option_beq_iff : (a b : Option A) → (option_beq f a b ≡ true) ↔ (a ≡ b)
  option_beq_iff none none = ground arith
  option_beq_iff none (some b) = ground arith
  option_beq_iff (some a) none = ground arith
  option_beq_iff (some a) (some b) = ground (arith, iff a b)

-- A type with a test of equality that decides it.
pub record Comparable {ℓ} (A : Type ℓ) : Type ℓ where
  pub test : A → A → Bool
  pub test_iff : (x y : A) → (test x y ≡ true) ↔ (x ≡ y)

instance abbrev pub int_eq : Comparable ℤ
int_eq = record { test = int_beq; test_iff = int_beq_iff }

instance abbrev pub string_eq : Comparable String
string_eq = record { test = str_eq; test_iff = eq_iff }

instance abbrev pub nat_eq : Comparable ℕ
nat_eq = record { test = nat_beq; test_iff = ==_iff }

abbrev pub ◌==◌ {ℓ} : {A : Type ℓ} ⦃same : Comparable A⦄ → A → A → Bool
◌==◌ ⦃same⦄ = same.test

infix 50 ◌==◌
instance abbrev pub option_eq {ℓ} : {A : Type ℓ} ⦃same : Comparable A⦄ → Comparable (Option A)
option_eq ⦃same⦄ = record {
  test = option_beq same.test;
  test_iff = option_beq_iff same.test same.test_iff;
}

module _ {ℓ} {A : Type ℓ} ⦃same : Comparable A⦄ where
  abbrev pub contains : List A → A → Bool
  contains [] a = false
  contains (x ∷ xs) a = same.test a x || contains xs a

  -- `{a, b, …}`: each value once.
  abbrev pub to_set : List A → List A
  to_set [] = []
  to_set (x ∷ xs) =
      let rest = to_set xs in elim (contains rest x) [ true ↦ rest | false ↦ x ∷ rest ]

-- ===== src/Core/Gtin/Normal.antt =====
-- The normal form of a barcode in fpt/core/gtin.py.
use mathlib.Core.Path.{subst}
use fishing_deal_tracker.Prelude.{
  ℕ, ◌≡◌, ◌≢◌, ◌↔◌, refl, sym, true, false, Option, none, some, List, [], ◌∷◌, ◌++◌, arith, length,
  ==_iff, Bool-cases, Option-cases, inl, inr,
}
use fishing_deal_tracker.Prelude.Order.{All}
use fishing_deal_tracker.Core.Gtin.{
  Decimals, all_decimal, append_new, digits_of, gs1_checksum_valid, is_decimal, is_in,
  normalize_all, normalize_gtin, normalize_onto, text_beq,
}

pub text_beq_iff : (s t : List ℕ) → (text_beq s t ≡ true) ↔ (s ≡ t)
text_beq_iff [] [] = ground arith
text_beq_iff [] (b ∷ t) = (λ e. absurd (cc), λ e. absurd (cc))
text_beq_iff (a ∷ s) [] = (λ e. absurd (cc), λ e. absurd (cc))
text_beq_iff (a ∷ s) (b ∷ t) =
    let iff = ==_iff a b in let rest = text_beq_iff s t in ground (arith, iff, rest)

module _ (dec : Decimals) where
  all_decimal-keep : (text : List ℕ) → all_decimal dec text ≡ true → digits_of dec text ≡ text
  all_decimal-keep [] e = refl
  all_decimal-keep (c ∷ text) e =
      let rest = all_decimal-keep text (ground (arith, e)) in
      let first : is_decimal dec c ≡ true = ground (arith, e) in rw (first, rest) refl

  valid-shape :
      (text : List ℕ)
      → gs1_checksum_valid dec text ≡ true
      → (length text ≡ 14) × (all_decimal dec text ≡ true)
  unfolding gs1_checksum_valid
  valid-shape text e = (ground (arith, e, ==_iff (length text) 14), ground (arith, e))

  normal-valid :
      (raw gtin : List ℕ) → normalize_gtin dec raw ≡ some gtin → gs1_checksum_valid dec gtin ≡ true
  unfolding normalize_gtin
  normal-valid raw gtin e = ground (arith, e)

  valid-normal :
      (gtin : List ℕ) → gs1_checksum_valid dec gtin ≡ true → normalize_gtin dec gtin ≡ some gtin
  unfolding normalize_gtin
  valid-normal gtin e =
      let shape = valid-shape gtin e in rw (all_decimal-keep gtin shape.1, shape.0, e) refl

  -- The normal form of a barcode is its own normal form: what is stored reads back as itself.
  pub normalize_gtin_idempotent :
      (raw gtin : List ℕ) → normalize_gtin dec raw ≡ some gtin → normalize_gtin dec gtin ≡ some gtin
  normalize_gtin_idempotent raw gtin e = valid-normal gtin (normal-valid raw gtin e)

  -- Twelve digits and the same with a zero in front are one barcode: a retailer's UPC-A matches
  -- another's EAN-13, whatever other characters stand between the digits.
  pub normalize_gtin-zero :
      (raw : List ℕ)
      → length (digits_of dec raw) ≡ 12
      → normalize_gtin dec (48 ∷ raw) ≡ normalize_gtin dec raw
  unfolding normalize_gtin
  normalize_gtin-zero raw e = rw (dec.value-zero, e) refl

  -- The texts are normal forms, and no two of them are equal.
  abbrev pub AllNormal : List (List ℕ) → Type 0
  AllNormal out = All (λ gtin. normalize_gtin dec gtin ≡ some gtin) out

  abbrev pub IsUnique : List (List ℕ) → Type 0
  IsUnique [] = Unit
  IsUnique (g ∷ gs) = All (λ h. g ≢ h) gs × IsUnique gs

  -- What is known of the list of barcodes, from the values that were read.
  pub record Collects (raw_values : List (List ℕ)) (out : List (List ℕ)) : Type 0 where
    pub normal : AllNormal out
    pub unique : IsUnique out
    pub complete :
        All
          (λ raw. (gtin : List ℕ) → normalize_gtin dec raw ≡ some gtin → is_in gtin out ≡ true)
          raw_values

  not_in-differs : (g : List ℕ) (out : List (List ℕ)) → is_in g out ≡ false → All (λ h. h ≢ g) out
  not_in-differs g [] e = tt
  not_in-differs g (h ∷ out) e = (
    λ q. absurd (ground (arith, e, (text_beq_iff g h).1 (sym q))),
    not_in-differs g out (ground (arith, e)),
  )

  All-snoc_text :
      (P : List ℕ → Type 0) (out : List (List ℕ)) (g : List ℕ)
      → All P out
      → P g
      → All P (out ++ (g ∷ []))
  All-snoc_text P [] g h p = (p, tt)
  All-snoc_text P (k ∷ out) g h p = (h.0, All-snoc_text P out g h.1 p)

  IsUnique-snoc :
      (out : List (List ℕ)) (g : List ℕ)
      → IsUnique out
      → All (λ h. h ≢ g) out
      → IsUnique (out ++ (g ∷ []))
  IsUnique-snoc [] g u n = (tt, tt)
  IsUnique-snoc (h ∷ out) g u n = (All-snoc_text _ out g u.0 n.0, IsUnique-snoc out g u.1 n.1)

  is_in-snoc :
      (g : List ℕ) (out : List (List ℕ)) (h : List ℕ)
      → is_in g out ≡ true
      → is_in g (out ++ (h ∷ [])) ≡ true
  is_in-snoc g [] h e = absurd (cc)
  is_in-snoc g (k ∷ out) h e = elim (Bool-cases (text_beq g k)) [
    | inl q ↦ rw q refl
    | inr q ↦ rw q (is_in-snoc g out h (ground (arith, e, q)))
  ]

  is_in-last : (g : List ℕ) (out : List (List ℕ)) → is_in g (out ++ (g ∷ [])) ≡ true
  is_in-last g [] = rw ((text_beq_iff g g).1 refl) refl
  is_in-last g (k ∷ out) = elim (Bool-cases (text_beq g k)) [
    | inl q ↦ rw q refl
    | inr q ↦ rw q (is_in-last g out)
  ]

  AllNormal-append :
      (out : List (List ℕ)) (raw : List ℕ)
      → AllNormal out
      → AllNormal (append_new out (normalize_gtin dec raw))
  AllNormal-append out raw h = elim (Option-cases (normalize_gtin dec raw)) [
    | inl e ↦ rw e h
    | inr (gtin, e) ↦ elim (Bool-cases (is_in gtin out)) [
      | inl q ↦ rw (e, q) h
      | inr q ↦ rw (e, q) (All-snoc_text _ out gtin h (normalize_gtin_idempotent raw gtin e))
    ]
  ]

  IsUnique-append :
      (out : List (List ℕ)) (o : Option (List ℕ)) → IsUnique out → IsUnique (append_new out o)
  IsUnique-append out none u = u
  IsUnique-append out (some gtin) u = elim (Bool-cases (is_in gtin out)) [
    | inl q ↦ rw q u
    | inr q ↦ rw q (IsUnique-snoc out gtin u (not_in-differs gtin out q))
  ]

  is_in-append :
      (g : List ℕ) (out : List (List ℕ)) (o : Option (List ℕ))
      → is_in g out ≡ true
      → is_in g (append_new out o) ≡ true
  is_in-append g out none e = e
  is_in-append g out (some gtin) e = elim (Bool-cases (is_in gtin out)) [
    | inl q ↦ rw q e
    | inr q ↦ rw q (is_in-snoc g out gtin e)
  ]

  is_in-new : (g : List ℕ) (out : List (List ℕ)) → is_in g (append_new out (some g)) ≡ true
  is_in-new g out = elim (Bool-cases (is_in g out)) [
    | inl q ↦ rw q q
    | inr q ↦ rw q (is_in-last g out)
  ]

  is_in-onto :
      (g : List ℕ) (out raw_values : List (List ℕ))
      → is_in g out ≡ true
      → is_in g (normalize_onto dec out raw_values) ≡ true
  is_in-onto g out [] e = e
  is_in-onto g out (raw ∷ rest) e =
      is_in-onto g (append_new out (normalize_gtin dec raw)) rest
        (is_in-append g out (normalize_gtin dec raw) e)

  collects :
      (raw_values out : List (List ℕ))
      → AllNormal out
      → IsUnique out
      → Collects raw_values (normalize_onto dec out raw_values)
  collects [] out n u = record { normal = n; unique = u; complete = tt }
  collects (raw ∷ rest) out n u =
      let next = append_new out (normalize_gtin dec raw) in
      let h =
        collects rest next (AllNormal-append out raw n)
          (IsUnique-append out (normalize_gtin dec raw) u) in
      record {
        normal = h.normal;
        unique = h.unique;
        complete = (
          λ gtin e.
              is_in-onto gtin next rest
                (subst (λ o. is_in gtin (append_new out o) ≡ true) (sym e) (is_in-new gtin out)),
          h.complete,
        );
      }

  -- Of the values that were read, the list has the normal form of each that has one, each once, and
  -- nothing that is no normal form.
  pub normalize_all-Collects :
      (raw_values : List (List ℕ)) → Collects raw_values (normalize_all dec raw_values)
  unfolding normalize_all
  normalize_all-Collects raw_values = collects raw_values [] tt tt

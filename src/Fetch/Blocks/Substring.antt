-- ===== src/Fetch/Blocks/Substring.antt =====
-- What `sub in body` and `not body.strip()` of fpt/fetch/blocks.py ask.
use fishing_deal_tracker.Prelude.{
  ℕ, ◌≡◌, ◌↔◌, refl, ap, true, List, [], ◌∷◌, ◌++◌, arith, ==_iff, Bool-cases, inl, inr,
}
use fishing_deal_tracker.Fetch.Blocks.{includes, starts_with}

-- The body is the text with something before and something after it.
abbrev pub Occurs : (sub body : List ℕ) → Type 0
Occurs sub body = (before : List ℕ) × (after : List ℕ) × (body ≡ before ++ sub ++ after)

starts_with_sound :
    (sub body : List ℕ) → starts_with sub body ≡ true → (after : List ℕ) × (body ≡ sub ++ after)
starts_with_sound [] body e = (body, refl)
starts_with_sound (a ∷ sub) [] e = absurd (cc)
starts_with_sound (a ∷ sub) (b ∷ body) e =
    let r = starts_with_sound sub body (ground arith) in
    let q : a ≡ b = ground (arith, ==_iff a b) in (r.0, rw q (ap (λ l. b ∷ l) r.1))

starts_with-append : (sub after : List ℕ) → starts_with sub (sub ++ after) ≡ true
starts_with-append [] after = refl
starts_with-append (a ∷ sub) after = ground (arith, starts_with-append sub after, ==_iff a a)

includes_sound : (sub body : List ℕ) → includes sub body ≡ true → Occurs sub body
unfolding includes
includes_sound sub [] e = let r = starts_with_sound sub [] e in ([], r.0, r.1)
includes_sound sub (b ∷ body) e = elim (Bool-cases (starts_with sub (b ∷ body))) [
  | inl q ↦ let r = starts_with_sound sub (b ∷ body) q in ([], r.0, r.1)
  | inr q ↦ let r = includes_sound sub body (ground arith) in (b ∷ r.0, r.1, ap (λ l. b ∷ l) r.2)
]

includes-front : (sub body : List ℕ) → starts_with sub body ≡ true → includes sub body ≡ true
unfolding includes
includes-front sub [] e = e
includes-front sub (b ∷ body) e = rw e refl

includes-append : (sub before after : List ℕ) → includes sub (before ++ sub ++ after) ≡ true
unfolding includes
includes-append sub [] after = includes-front sub (sub ++ after) (starts_with-append sub after)
includes-append sub (b ∷ before) after =
    let rest = includes-append sub before after in
    elim (Bool-cases (starts_with sub (b ∷ before ++ sub ++ after))) [
      | inl q ↦ rw q refl
      | inr q ↦ rw q rest
    ]

-- The search by position finds a sequence of bytes in a body exactly where the body is that
-- sequence with some bytes before it and some after it.
pub includes_iff : (sub body : List ℕ) → (includes sub body ≡ true) ↔ Occurs sub body
includes_iff sub body = (includes_sound sub body, λ o. rw o.2 (includes-append sub o.0 o.1))

-- ===== src/Fetch/Blocks/Outcome.antt =====
-- When fpt/fetch/blocks.py calls a response a page, and when a block.
use mathlib.Core.Path.{subst}
use fishing_deal_tracker.Prelude.{
  ℕ, String, ◌<◌, ◌≡◌, ◌≢◌, ◌↔◌, ◌⊎◌, refl, sym, true, false, Option, none, some, List, [], ◌∷◌,
  arith, map, Bool-cases, inl, inr,
}
use fishing_deal_tracker.Prelude.Order.{In}
use fishing_deal_tracker.Domain.{ResponseOutcome}
use fishing_deal_tracker.Fetch.Blocks.{
  block_signatures, bytes, detect_block_or_empty, detect_on, detect_unsigned, first_signature,
  includes, includes_any, is_blank, is_space, lacks_sentinels, lower,
}
use fishing_deal_tracker.Fetch.Blocks.Substring.{Occurs, includes_iff}

-- No text of the list occurs in the body.
abbrev pub NoneOccurs : List String → List ℕ → Type 0
NoneOccurs [] body = Unit
NoneOccurs (s ∷ rest) body = (Occurs (bytes s) body → ⊥) × NoneOccurs rest body

abbrev pub SomeOccurs : List String → List ℕ → Type 0
SomeOccurs [] body = ⊥
SomeOccurs (s ∷ rest) body = Occurs (bytes s) body ⊎ SomeOccurs rest body

first_signature-none :
    (texts : List String) (body : List ℕ)
    → (first_signature texts body ≡ none) ↔ NoneOccurs texts body
first_signature-none [] body = (λ _. tt, λ _. ground arith)
first_signature-none (s ∷ rest) body =
    let iff = includes_iff (bytes s) body in
    let later = first_signature-none rest body in
    elim (Bool-cases (includes (bytes s) body)) [
      | inl e ↦ (λ q. absurd (ground (arith, e, q)), λ h. absurd (h.0 (iff.0 e)))
      | inr e ↦ (
        λ q. (λ o. absurd (ground (arith, e, iff.1 o)), later.0 (ground (arith, e, q))),
        λ h. let l = later.1 h.1 in ground (arith, e, l),
      )
    ]

first_signature-some :
    (texts : List String) (body : List ℕ) (s : String)
    → first_signature texts body ≡ some s
    → SomeOccurs texts body
first_signature-some [] body s e = absurd (cc)
first_signature-some (t ∷ rest) body s e = elim (Bool-cases (includes (bytes t) body)) [
  | inl q ↦ inl ((includes_iff (bytes t) body).0 q)
  | inr q ↦ inr (first_signature-some rest body s (ground (arith, e, q)))
]

NoneOccurs-not_some :
    (texts : List String) (body : List ℕ) → NoneOccurs texts body → SomeOccurs texts body → ⊥
NoneOccurs-not_some [] body h o = o
NoneOccurs-not_some (t ∷ rest) body h (inl o) = h.0 o
NoneOccurs-not_some (t ∷ rest) body h (inr o) = NoneOccurs-not_some rest body h.1 o

-- One of the page's sentinels occurs, or it has none.
abbrev pub HasSentinel : (sentinels : List (List ℕ)) (body : List ℕ) → Type 0
HasSentinel sentinels body = (sentinels ≡ []) ⊎ (s : List ℕ) × In s sentinels × Occurs s body

-- A byte that is no white space.
abbrev pub IsInk : ℕ → Type 0
IsInk b = (b ≢ 32) × ((b < 9) ⊎ (13 < b))

abbrev pub HasText : (body : List ℕ) → Type 0
HasText body = (b : ℕ) × In b body × IsInk b

includes_any_iff :
    (subs : List (List ℕ)) (body : List ℕ)
    → (includes_any subs body ≡ true) ↔ ((s : List ℕ) × In s subs × Occurs s body)
includes_any_iff [] body = (λ h. absurd (cc), λ h. absurd h.1)
includes_any_iff (s ∷ subs) body =
    let iff = includes_iff s body in
    let rest = includes_any_iff subs body in
    (
      λ h. elim (Bool-cases (includes s body)) [
        | inl e ↦ (s, inl refl, iff.0 e)
        | inr e ↦ let r = rest.0 (ground (arith, h, e)) in (r.0, inr r.1, r.2)
      ],
      λ h. elim h.1 [
        | inl e ↦ (let o = iff.1 (subst (λ x. Occurs x body) e h.2) in rw o refl)
        | inr i ↦ (let o = rest.1 (h.0, i, h.2) in ground (arith, o))
      ],
    )

lacks_sentinels_iff :
    (sentinels : List (List ℕ)) (body : List ℕ)
    → (lacks_sentinels sentinels body ≡ false) ↔ HasSentinel sentinels body
lacks_sentinels_iff [] body = (λ h. inl refl, λ h. refl)
lacks_sentinels_iff (s ∷ sentinels) body =
    let iff = includes_any_iff (s ∷ sentinels) body in
    (
      λ h. inr (iff.0 (ground (arith, h))),
      λ h. elim h [ inl e ↦ absurd (cc) | inr o ↦ (let k = iff.1 o in ground (arith, k)) ],
    )

is_space_iff : (b : ℕ) → (is_space b ≡ false) ↔ IsInk b
is_space_iff b = ground arith

is_blank_iff : (body : List ℕ) → (is_blank body ≡ false) ↔ HasText body
is_blank_iff [] = (λ h. absurd (cc), λ h. absurd h.1)
is_blank_iff (b ∷ body) =
    let iff = is_space_iff b in
    let rest = is_blank_iff body in
    (
      λ h. elim (Bool-cases (is_space b)) [
        | inl e ↦ let r = rest.0 (ground (arith, h, e)) in (r.0, inr r.1, r.2)
        | inr e ↦ (b, inl refl, iff.0 e)
      ],
      λ h. elim h.1 [
        | inl e ↦ (let k = iff.1 (subst IsInk e h.2) in rw k refl)
        | inr i ↦ (let k = rest.1 (h.0, i, h.2) in ground (arith, k))
      ],
    )

-- A response that no check stops.
pub record IsPage (status : ℕ) (body : List ℕ) (sentinels : List (List ℕ)) : Type 0 where
  pub unsigned : NoneOccurs block_signatures (map lower body)
  pub not_forbidden : status ≢ 403
  pub not_limited : status ≢ 429
  pub found : status ≢ 404
  pub has_sentinel : HasSentinel sentinels body
  pub has_text : HasText body

unsigned-ok :
    (status : ℕ) (body : List ℕ) (sentinels : List (List ℕ))
    → ((detect_unsigned status body sentinels).outcome ≡ ResponseOutcome.ok) ↔ (
        (status ≢ 403)
        × (status ≢ 429)
        × (status ≢ 404)
        × (lacks_sentinels sentinels body ≡ false)
        × (is_blank body ≡ false))
unsigned-ok status body sentinels = ground arith

unsigned-blocked :
    (status : ℕ) (body : List ℕ) (sentinels : List (List ℕ))
    → ((detect_unsigned status body sentinels).outcome ≡ ResponseOutcome.blocked)
      ↔ ((status ≡ 403) ⊎ (status ≡ 429))
unsigned-blocked status body sentinels = ground arith

detect_on-ok :
    (found : Option String) (status : ℕ) (body : List ℕ) (sentinels : List (List ℕ))
    → (found ≡ none) ↔ NoneOccurs block_signatures (map lower body)
    → ((detect_on found status body sentinels).outcome ≡ ResponseOutcome.ok)
      ↔ IsPage status body sentinels
detect_on-ok (some s) status body sentinels iff =
    (λ q. absurd (cc), λ h. absurd (cc (iff.1 h.unsigned)))
detect_on-ok none status body sentinels iff =
    let rest = unsigned-ok status body sentinels in
    (
      λ q.
          let r = rest.0 q in
          record {
            unsigned = iff.0 refl;
            not_forbidden = r.0;
            not_limited = r.1;
            found = r.2;
            has_sentinel = (lacks_sentinels_iff sentinels body).0 r.3;
            has_text = (is_blank_iff body).0 r.4;
          },
      λ h. rest.1 (
        h.not_forbidden,
        h.not_limited,
        h.found,
        (lacks_sentinels_iff sentinels body).1 h.has_sentinel,
        (is_blank_iff body).1 h.has_text,
      ),
    )

-- A response is OK exactly where no signature of a block occurs in its lowered body, its status is
-- none of 403, 429 and 404, one of the page's sentinels (if it has any) occurs in the body, and a
-- byte of the body is no white space: neither the length of the body nor where it came from is
-- asked.
pub detect_block_or_empty-ok_iff :
    (status : ℕ) (body : List ℕ) (final_url request_url : String) (sentinels : List (List ℕ))
    → ((detect_block_or_empty status body final_url request_url sentinels).outcome
        ≡ ResponseOutcome.ok)
      ↔ IsPage status body sentinels
unfolding detect_block_or_empty
detect_block_or_empty-ok_iff status body final_url request_url sentinels =
    detect_on-ok (first_signature block_signatures (map lower body)) status body sentinels
      (first_signature-none block_signatures (map lower body))

detect_on-blocked :
    (found : Option String) (status : ℕ) (body : List ℕ) (sentinels : List (List ℕ))
    → found ≡ first_signature block_signatures (map lower body)
    → ((detect_on found status body sentinels).outcome ≡ ResponseOutcome.blocked)
      ↔ (SomeOccurs block_signatures (map lower body) ⊎ ((status ≡ 403) ⊎ (status ≡ 429)))
detect_on-blocked (some s) status body sentinels e =
    (λ q. inl (first_signature-some block_signatures (map lower body) s (sym e)), λ h. refl)
detect_on-blocked none status body sentinels e =
    let rest = unsigned-blocked status body sentinels in
    let clean = (first_signature-none block_signatures (map lower body)).0 (sym e) in
    (
      λ q. inr (rest.0 q),
      λ h. elim h [
        | inl o ↦ absurd (NoneOccurs-not_some block_signatures (map lower body) clean o)
        | inr s ↦ rest.1 s
      ],
    )

-- A response is BLOCKED exactly where a signature of a block occurs in its lowered body, or its
-- status is 403 or 429, however short the body is and whatever sentinels the page has.
pub detect_block_or_empty-blocked_iff :
    (status : ℕ) (body : List ℕ) (final_url request_url : String) (sentinels : List (List ℕ))
    → ((detect_block_or_empty status body final_url request_url sentinels).outcome
        ≡ ResponseOutcome.blocked)
      ↔ (SomeOccurs block_signatures (map lower body) ⊎ ((status ≡ 403) ⊎ (status ≡ 429)))
unfolding detect_block_or_empty
detect_block_or_empty-blocked_iff status body final_url request_url sentinels =
    detect_on-blocked (first_signature block_signatures (map lower body)) status body sentinels refl

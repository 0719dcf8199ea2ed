-- ===== src/Store/Observations/Once.antt =====
-- That fpt/store/observations.py records a snapshot of an offer once.
use fishing_deal_tracker.Prelude.{
  ℕ, ◌+◌, ◌≡◌, ◌≢◌, refl, sym, ◌∙◌, String, Bool, true, false, ◌&&◌, Option, none, some, List, [],
  ◌∷◌, arith, length, Bool-cases, inl, inr, ==_iff,
}
use fishing_deal_tracker.Prelude.Eq.{◌==◌, nat_eq, string_eq}
use fishing_deal_tracker.Prelude.Order.{All}
use fishing_deal_tracker.Prelude.Query.{find?}
use fishing_deal_tracker.Store.Database.{Db, Observation}
use fishing_deal_tracker.Validation.{ValidationResult}
use fishing_deal_tracker.Store.Observations.{
  ObservedValues, find_existing_observation_by_snapshot, is_snapshot_of, observation_id_of,
  record_observation, record_unless, recorded,
}

-- Each snapshot of an offer backs one observation at most.
abbrev pub OncePerSnapshot : List Observation → Type 0
OncePerSnapshot [] = Unit
OncePerSnapshot (o ∷ os) =
    (o.snapshot_ref ≢ "" → All (λ p. is_snapshot_of o.offer_id o.snapshot_ref p ≡ false) os)
    × OncePerSnapshot os

find?-absent :
    (p : Observation → Bool) (os : List Observation)
    → observation_id_of (find? p os) ≡ none
    → All (λ o. p o ≡ false) os
find?-absent p [] e = tt
find?-absent p (o ∷ os) e = elim (Bool-cases (p o)) [
  | inl q ↦ absurd (ground (arith, e, q))
  | inr q ↦ (q, find?-absent p os (ground (arith, e, q)))
]

self_snapshot :
    (offer_id : ℕ) (snapshot_ref : String)
    → (offer_id == offer_id && snapshot_ref == snapshot_ref) ≡ true
self_snapshot offer_id snapshot_ref =
    rw ((==_iff offer_id offer_id).1 refl, (string_eq.test_iff snapshot_ref snapshot_ref).1 refl)
      refl

module _ {F : Type 0} (date_et : ℕ → ℕ) where
  named-find :
      (db : Db F) (offer_id : ℕ) (snapshot_ref : String)
      → snapshot_ref ≢ ""
      → find_existing_observation_by_snapshot db offer_id snapshot_ref
        ≡ observation_id_of (find? (is_snapshot_of offer_id snapshot_ref) db.price_observations)
  unfolding find_existing_observation_by_snapshot
  named-find db offer_id snapshot_ref n = elim (Bool-cases (snapshot_ref == "")) [
    | inl e ↦ absurd (n ((string_eq.test_iff snapshot_ref "").0 e))
    | inr e ↦ rw e refl
  ]

  empty-find :
      (db : Db F) (offer_id : ℕ) → find_existing_observation_by_snapshot db offer_id "" ≡ none
  unfolding find_existing_observation_by_snapshot
  empty-find db offer_id = refl

  unless-OncePerSnapshot :
      (db : Db F) (v : ObservedValues) (validation : ValidationResult) (snapshot_ref : String)
      → (existing : Option ℕ)
      → find_existing_observation_by_snapshot db v.offer_id snapshot_ref ≡ existing
      → OncePerSnapshot db.price_observations
      → OncePerSnapshot
          (record_unless date_et db v validation snapshot_ref existing).1.price_observations
  unless-OncePerSnapshot db v validation snapshot_ref none e h = (
    λ n.
        find?-absent (is_snapshot_of v.offer_id snapshot_ref) db.price_observations
          (sym (named-find db v.offer_id snapshot_ref n) ∙ e),
    h,
  )
  unless-OncePerSnapshot db v validation snapshot_ref (some existing) e h = h

  -- Recording keeps it so that each snapshot of an offer, empty references apart, backs one
  -- observation at most.
  pub record_observation-OncePerSnapshot :
      (db : Db F) (v : ObservedValues) (validation : ValidationResult) (snapshot_ref : String)
      → OncePerSnapshot db.price_observations
      → OncePerSnapshot
          (record_observation date_et db v validation snapshot_ref).1.price_observations
  unfolding record_observation
  record_observation-OncePerSnapshot db v validation snapshot_ref h =
      unless-OncePerSnapshot db v validation snapshot_ref
        (find_existing_observation_by_snapshot db v.offer_id snapshot_ref) refl h

  found-after :
      (db : Db F) (v : ObservedValues) (validation : ValidationResult) (snapshot_ref : String)
      → (existing : Option ℕ) → snapshot_ref ≢ ""
      → find_existing_observation_by_snapshot db v.offer_id snapshot_ref ≡ existing
      → let r = record_unless date_et db v validation snapshot_ref existing in
        find_existing_observation_by_snapshot r.1 v.offer_id snapshot_ref ≡ some r.0.observation_id
  found-after db v validation snapshot_ref none n e =
      named-find (record_unless date_et db v validation snapshot_ref none).1 v.offer_id snapshot_ref
        n
      ∙ rw (self_snapshot v.offer_id snapshot_ref) refl
  found-after db v validation snapshot_ref (some existing) n e = e

  -- A fetch that is replayed records nothing: once a snapshot of an offer is recorded, recording the
  -- same snapshot again, whatever was read from it this time, changes no table, and gives the first
  -- observation's id and the mark of a duplicate.
  pub record_observation-again :
      (db : Db F) (v w : ObservedValues) (validation validation' : ValidationResult)
      → (snapshot_ref : String) → snapshot_ref ≢ ""
      → w.offer_id ≡ v.offer_id
      → record_observation date_et
          (record_observation date_et db v validation snapshot_ref).1
          w
          validation'
          snapshot_ref
        ≡ (
          recorded
              (record_observation date_et db v validation snapshot_ref).0.observation_id
              validation'
              true,
          (record_observation date_et db v validation snapshot_ref).1,
        )
  unfolding record_observation
  record_observation-again db v w validation validation' snapshot_ref n same =
      let found =
        found-after db v validation snapshot_ref
          (find_existing_observation_by_snapshot db v.offer_id snapshot_ref) n refl in
      rw (same, found) refl

  -- A fetch with no snapshot reference is never taken for a replay: it adds its observation.
  pub record_observation-empty :
      (db : Db F) (v : ObservedValues) (validation : ValidationResult)
      → ((record_observation date_et db v validation "").0.was_duplicate ≡ false)
        × (length (record_observation date_et db v validation "").1.price_observations
            ≡ length db.price_observations + 1)
  unfolding record_observation
  record_observation-empty db v validation = rw (empty-find db v.offer_id) (refl, omega arith)

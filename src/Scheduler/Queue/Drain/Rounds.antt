-- ===== src/Scheduler/Queue/Drain/Rounds.antt =====
-- Induction over the rounds of a drain.
use fishing_deal_tracker.Prelude.{ℕ, zero, suc, ◌+◌, Option, none, some}
use fishing_deal_tracker.Floats.{Floats}
use fishing_deal_tracker.Scheduler.Limiter.{RetailerPolicy}
use fishing_deal_tracker.Scheduler.Queue.Drain.{Drain, Site, Turn, drain_from, drain_round}

module _ {F : Type 0} (P : Drain F → Type 0) where
  -- The state that a round, or a drain, leaves has the property.
  abbrev pub TurnHolds : Turn F → Type 0
  TurnHolds Turn.raised = Unit
  TurnHolds (Turn.stopped d) = P d
  TurnHolds (Turn.continued d) = P d

  abbrev pub EndHolds : Option (Drain F) → Type 0
  EndHolds none = Unit
  EndHolds (some d) = P d

module _ {F Listing : Type 0} ⦃fl : Floats F⦄ (site : Site F Listing)
    (policy : RetailerPolicy F) where
  -- What every round keeps holds at the end.
  pub drain_from-holds :
      (P : Drain F → Type 0) (retailer_id : ℕ)
      → ((round : ℕ) (d : Drain F)
          → P d
          → TurnHolds P (drain_round site policy retailer_id round d))
      → (max_tasks round : ℕ) (d : Drain F) → P d
      → EndHolds P (drain_from site policy retailer_id max_tasks round d)
  unfolding drain_from
  drain_from-holds P retailer_id step zero round d h = h
  drain_from-holds P retailer_id step (suc n) round d h =
      after (drain_round site policy retailer_id round d) (step round d h)
        (λ e. drain_from-holds P retailer_id step n (round + 1) e)
    where
      after :
          (turn : Turn F)
          → TurnHolds P turn
          → ((e : Drain F) → P e → EndHolds P (drain_from site policy retailer_id n (round + 1) e))
          → EndHolds P (elim turn [
            | Turn.raised ↦ none
            | Turn.stopped d' ↦ some d'
            | Turn.continued d' ↦ drain_from site policy retailer_id n (round + 1) d'
          ])
      after Turn.raised k rest = tt
      after (Turn.stopped e) k rest = k
      after (Turn.continued e) k rest = rest e k

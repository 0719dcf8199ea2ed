-- ===== src/Store/Pipeline/Shipping.antt =====
-- The price that a recheck compares: fpt/store/pipeline.py means the item price for a new offer, and
-- uses the landed one.
use fishing_deal_tracker.Prelude.{◌≡◌, some, arith}
use fishing_deal_tracker.Prelude.Int.{ℤ, ◌+ℤ◌}
use fishing_deal_tracker.Domain.{ParsedOffer, Rule}
use fishing_deal_tracker.Store.Pipeline.{compare_price, landed_price_cents}

-- Whatever the rule, a recheck compares the price with the shipping added where both are known.
pub compare_price-landed :
    (rule : Rule) (offer : ParsedOffer) (price shipping : ℤ)
    → offer.price_cents ≡ some price
    → offer.shipping_cents ≡ some shipping
    → compare_price rule (landed_price_cents offer).0 (landed_price_cents offer).1
      ≡ some (price +ℤ shipping)
unfolding landed_price_cents
compare_price-landed rule offer price shipping p s = ground arith

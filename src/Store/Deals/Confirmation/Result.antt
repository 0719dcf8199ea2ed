-- ===== src/Store/Deals/Confirmation/Result.antt =====
-- `apply_confirm_result` of fpt/store/deals.py.
use fishing_deal_tracker.Prelude.{ℕ, Option, none, some, or_default}
use fishing_deal_tracker.Prelude.Eq.{int_eq, string_eq}
use fishing_deal_tracker.Deals.Confirm.{ConfirmContext, ConfirmResult, ConfirmStatus}
use fishing_deal_tracker.Store.Database.{Db, Deal, DealStatus}
use fishing_deal_tracker.Store.Deals.Rows.{update_deal}

-- `CASE WHEN status = 'ACTIVE' THEN now() ELSE confirmed_at END`
abbrev pub confirmed_time : ConfirmStatus → ℕ → Option ℕ → Option ℕ
confirmed_time ConfirmStatus.active now old = some now
confirmed_time _ now old = old

module _ {F : Type 0} where
  -- The row of a confirmed or held deal, with the context's numbers where it is given.
  abbrev pub confirm_row :
      ℕ → DealStatus → ℕ → ConfirmResult → Option (ConfirmContext F) → Deal F → Deal F
  confirm_row now status observation result none d = record d {
    status = status;
    confirming_observation_id = some observation;
    last_confirmed_observation_id = some observation;
    hold_reason = result.hold_reason;
    confirmed_at = confirmed_time result.status now d.confirmed_at;
  }
  confirm_row now status observation result (some ctx) d = record d {
    status = status;
    confirming_observation_id = some observation;
    last_confirmed_observation_id = some observation;
    hold_reason = result.hold_reason;
    price_cents = ctx.confirming_price_cents;
    discount_pct = ctx.recomputed_discount_pct;
    reference_cents = or_default ctx.reference_cents d.reference_cents;
    confirmed_at = confirmed_time result.status now d.confirmed_at;
  }

  abbrev pub reject_row : ℕ → ConfirmResult → Deal F → Deal F
  reject_row observation result d = record d {
    status = DealStatus.rejected;
    confirming_observation_id = some observation;
    reject_reason = result.reject_reason;
  }

  abbrev pub result_row :
      ℕ → ConfirmStatus → ℕ → ConfirmResult → Option (ConfirmContext F) → Deal F → Deal F
  result_row now ConfirmStatus.active observation result ctx d =
      confirm_row now DealStatus.active observation result ctx d
  result_row now ConfirmStatus.held_review observation result ctx d =
      confirm_row now DealStatus.held_review observation result ctx d
  result_row now ConfirmStatus.rejected observation result ctx d = reject_row observation result d

  unfoldable pub apply_confirm_result :
      Db F
      → (deal_id confirming_observation_id : ℕ) → ConfirmResult
      → Option (ConfirmContext F)
      → Db F
  apply_confirm_result db deal_id observation result ctx =
      update_deal deal_id (result_row db.now result.status observation result ctx) db

-- ===== src/Store/Deals/Confirmation.antt =====
-- The confirmation of a deal in fpt/store/deals.py: what is put to the checks, what their answer
-- writes, and the task of the second fetch.
pub mod Context
pub mod Result
pub mod Task
pub use fishing_deal_tracker.Store.Deals.Confirmation.Context.{Confirming, Recomputed}
unfoldable pub use fishing_deal_tracker.Store.Deals.Confirmation.Context.{
  nothing_found, text_or, some_or, nonzero, from_current_new, own_identity, detail_key,
  detail_units, from_verified, from_claim, of_context, unmatched, recompute, offer_group,
  recomputed_discount, build_confirm_context,
}
unfoldable pub use fishing_deal_tracker.Store.Deals.Confirmation.Result.{
  confirmed_time, confirm_row, reject_row, result_row, apply_confirm_result,
}
unfoldable pub use fishing_deal_tracker.Store.Deals.Confirmation.Task.{
  is_pending, has_open_key, insert_task, enqueue_confirm_task,
}

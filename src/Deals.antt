-- ===== src/Deals.antt =====
-- fpt/deals: references, detection and confirmation of deals.
pub mod Discount
pub mod References
pub mod Detect
pub mod Confirm

-- ===== src/Store/Deals.antt =====
-- The writes of fpt/store/deals.py: a deal from its detection to its confirmation, its rechecks and
-- its end. A statement that trips a unique index leaves the table as it was, by its savepoint.
pub mod Rows
pub mod Confirmation
pub mod Recheck
pub mod Invariant
pub mod Lifecycle
pub mod Outcome
pub mod UsedLane

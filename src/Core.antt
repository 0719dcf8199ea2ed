-- ===== src/Core.antt =====
-- fpt/core: values that the other parts share.
pub mod Gtin
pub mod Ids

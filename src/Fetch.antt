-- ===== src/Fetch.antt =====
-- fpt/fetch: what is read off a response before it is parsed.
pub mod Blocks

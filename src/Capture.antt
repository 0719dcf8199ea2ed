-- ===== src/Capture.antt =====
-- fpt/capture: what the ingest endpoint lets in.
pub mod RateLimit

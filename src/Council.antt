-- ===== src/Council.antt =====
-- cmd/council: what a directory authority remembers of the consensus documents that it signs.
pub mod Signing
pub mod Serving

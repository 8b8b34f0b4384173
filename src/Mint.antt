-- ===== src/Mint.antt =====
-- internal/mint.
pub mod Seen
pub mod Journal
pub mod SpentFile
pub mod Identity
pub mod Receipts
pub mod Token
pub mod SpentSet

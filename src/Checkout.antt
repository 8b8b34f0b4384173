-- ===== src/Checkout.antt =====
-- internal/checkout: the limit on how many invoices are created.
pub mod Limiter

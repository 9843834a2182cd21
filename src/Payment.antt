-- ===== src/Payment.antt =====
-- pkg/payment: payments on ShinzoHub.
pub mod Client
pub mod Hub

-- ===== src/Subscription.antt =====
-- pkg/subscription: subscriptions, from their creation to their end.
pub mod Manager

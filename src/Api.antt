-- ===== src/Api.antt =====
-- pkg/api: the middleware, the handlers of the HTTP requests, and the routes.
pub mod Reply
pub mod RateLimit
pub mod Auth
pub mod Indexers
pub mod Hosts
pub mod Discovery
pub mod Subscriptions
pub mod Payments
pub mod Accounting
pub mod Settlement
pub mod Health
pub mod Server

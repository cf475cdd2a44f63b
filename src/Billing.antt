-- ===== src/Billing.antt =====
-- backend/internal/billing: checkout, payment webhooks, subscriptions and the daily scan quota.
pub mod Model
pub mod Repository
pub mod Webhook
pub mod Limiter
pub mod Ledger
pub mod Capture
pub mod Quota

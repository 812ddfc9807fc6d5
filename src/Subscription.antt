-- ===== src/Subscription.antt =====
-- Subscriptions, web/src/api/subscriptions.ts, web/src/lib/subscription-format.ts and the form of
-- web/src/components/subscriptions/subscription-form.tsx.
pub mod Timestamp
pub mod WallTime
pub mod Form
pub mod Format

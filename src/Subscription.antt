-- ===== src/Subscription.antt =====
-- Subscription renewal reminders: internal/subscription.
pub mod Date
pub mod Checker
mod Sample
mod Tests

-- ===== src/Billing.antt =====
-- Subscriptions: app/models/billing.py and app/services/billing_service.py.
pub mod Rows
pub mod Webhooks
pub mod Endpoint
pub mod Tables
pub mod Effects
pub mod Plans
pub mod Events
pub mod Delivery
pub mod Audits
pub mod Providers
pub mod Owners
pub mod StandIn
pub mod Heard
pub mod Settled
pub mod Checkout
mod Tests
mod CheckoutTests

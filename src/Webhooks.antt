-- ===== src/Webhooks.antt =====
-- apps/webhooks: signed deliveries of events to endpoints.
pub mod Deliveries

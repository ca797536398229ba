-- ===== src/Heartbeat.antt =====
-- apps/heartbeat: uptime monitoring.
pub mod Model
pub mod Services

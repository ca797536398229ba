-- ===== src/Runbook.antt =====
-- apps/runbook: documents with versions, who may see and change them, the service and retention.
pub mod Model
pub mod Permissions
pub mod Text
pub mod Service
pub mod Lookup
pub mod Documents
pub mod Shelves
pub mod Locked
pub mod Retention

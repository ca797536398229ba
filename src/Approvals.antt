-- ===== src/Approvals.antt =====
-- apps/approvals: requests, permissions and the service.
pub mod Model
pub mod Permissions
pub mod Services

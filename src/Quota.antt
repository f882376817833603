-- ===== src/Quota.antt =====
-- Per-user quotas.
pub mod Rows
pub mod Service
pub mod Limits

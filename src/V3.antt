-- ===== src/V3.antt =====
-- src/v3
pub mod NfsStatus
pub mod MountStatus

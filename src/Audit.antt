-- ===== src/Audit.antt =====
-- internal/audit/logger.go: the audit log and what it hides.
pub mod Redaction
pub mod Logger
pub mod Hidden
pub mod Strings
pub mod Examples

-- ===== src/Audit/Retain.antt =====
-- That the retention of internal/audit/logger.go leaves a log that verifies.

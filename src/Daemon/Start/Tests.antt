-- ===== src/Daemon/Start/Tests.antt =====
-- A start whose writing thread cannot be created.

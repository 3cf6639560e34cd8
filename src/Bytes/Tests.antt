-- ===== src/Bytes/Tests.antt =====
-- Runs of the 32-byte encoding.

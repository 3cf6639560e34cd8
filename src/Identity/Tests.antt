-- ===== src/Identity/Tests.antt =====
-- Runs of the identity commitments.

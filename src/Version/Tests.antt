-- ===== src/Version/Tests.antt =====
-- A run of the question for a contract's version.

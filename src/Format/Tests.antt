-- ===== src/Format/Tests.antt =====
-- A partition of 80 MB.

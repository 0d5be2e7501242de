-- ===== src/Rtc/Tests.antt =====
-- The clock at 1999-12-31 23:59:58.

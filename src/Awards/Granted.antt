-- ===== src/Awards/Granted.antt =====
-- What becomes of a granted award.

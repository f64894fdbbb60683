-- ===== src/Scheduler/Election/Split.antt =====
-- An instance that comes to lead because its connection to Redis is lost.

-- ===== src/Db/Tests.antt =====
-- Small inputs for lib/kvengine/db.cc.

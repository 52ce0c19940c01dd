-- ===== src/Util.antt =====
-- core/src/util.rs: the shared counters and the map whose entries expire.
pub mod TtlMap
pub mod Counters

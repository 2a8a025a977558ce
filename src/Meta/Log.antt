-- ===== src/Meta/Log.antt =====
-- user/shared/drbdmeta.c: the activity log. Its transactions are decoded, the range from the oldest
-- to the newest is found, and replayed into the table of hot extents.
pub mod Ring
pub mod Scan
pub mod Replay
pub mod Apply

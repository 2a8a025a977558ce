-- ===== src/Tool.antt =====
-- The helpers on text and on numbers that drbdadm, drbdsetup and drbdmeta share:
-- user/shared/shared_tool.c, and the checksum of user/v9/drbdtool_common.c.
pub mod Crc
pub mod Escape
pub mod Numbers

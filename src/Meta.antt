-- ===== src/Meta.antt =====
-- user/shared/drbdmeta.c: the meta data of one device.
pub mod Types
pub mod Flags
pub mod Disk
pub mod Layout
pub mod Valid
pub mod Convert
pub mod Gi
pub mod Log
pub mod Dump

-- ===== src/Adm.antt =====
-- user/v9: drbdadm, the program that compares the configuration with the running state and has
-- drbdsetup change what differs.
pub mod Options
pub mod Volumes
pub mod Deferred
pub mod Commands
pub mod Disk
pub mod Net
pub mod Adjust
pub mod Hosts
pub mod Mesh

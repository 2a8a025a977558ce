-- ===== src/Meta/Disk.antt =====
-- user/shared/drbdmeta.c: the super blocks on disk of formats 0.6 to 9, and their conversion to and
-- from the in-core form. A field of a record on disk holds the word as it stands in memory; struct
-- meta_data_on_disk_9 comes from drbd-headers, and has the fields that the conversions touch.
mod Base
mod Old
mod Eight
mod Nine
pub mod Wide
pub mod RoundTrip
pub use Base.{zero_peer, zero_md, gen_cnt_size, ui_current, ui_bitmap, ui_history_start}
unfoldable pub use Old.*
unfoldable pub use Eight.*
unfoldable pub use Nine.*

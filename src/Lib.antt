-- ===== src/Lib.antt =====
-- The core of drbdmeta, the program that creates, checks, converts and repairs the meta data of
-- DRBD on a block device; the part of drbdadm that finds out what has to change on a running system
-- and in which order; and the helpers on text and numbers that the programs share.
--
-- The meta data of a device are a super block, an activity log and a bitmap for each peer.
-- drbdmeta reads the super block of one of four formats into `struct md_cpu`, checks it, computes
-- where the log and the bitmaps lie, and writes it back. After a crash it replays the log to find
-- the extents that have to be marked in the bitmaps.
--
-- drbdadm compares the options and volumes of the configuration with those of the kernel, flags what
-- differs, schedules commands with dependencies for it, and runs them stage by stage.
--
-- Parts and files:
--   Prelude         words of 32 and 64 bits as natural numbers, Boolean tests, single bits of a
--                   word, and the outcome of code that may call exit() or abort()
--   Headers         the constants of the submodule drbd-headers, which the repository only names;
--                   they are the fields of a record that the definitions take, and `IsHeaders`
--                   lists what the code relies on
--   Endian          user/shared/drbd_endian.h: byte order of a little endian host
--   Meta/Types      user/shared/drbdmeta.h: struct md_cpu, struct format
--   Meta/Flags      single flags of a word
--   Meta/Disk       user/shared/drbdmeta.c: md_disk_0x_to_cpu() and md_cpu_to_disk_0x()
--   Meta/Layout     bm_bytes(), max_usable_sectors(), re_initialize_md_offsets()
--   Meta/Valid      v06_validate_md(), is_valid_md()
--   Meta/Convert    md_convert_0x_to_0y(), convert_md(), detect_md()
--   Meta/Gi         the texts of set-gi; outdating and invalidating the data
--   Meta/Log        the activity log: decoding, the search for its ends, replay_al_84(),
--                   replay_al_07(), replay_al_pmem(); the bits of a hot extent, which apply_al()
--                   sets
--   Meta/Dump       parse_bitmap() and what it calls: the bitmap of a dump file
--   Tool            user/shared/shared_tool.c: quoting, sizes, units
--   Tool/Crc        user/v9/drbdtool_common.c: crc32c()
--   Adm/Options     user/v9/drbdadm_main.c: find_opt(), del_opt(); user/v9/drbdadm_adjust.c:
--                   opts_equal(), opt_equal(); user/v9/drbdadm_postparse.c: expand_opts()
--   Adm/Volumes     user/v9/drbdadm_adjust.c: compare_volumes() and what it calls;
--                   user/v9/drbdadm.h: STAILQ_INSERT_ORDERED
--   Adm/Deferred    user/v9/drbdadm_main.c: schedule_deferred_cmd() to run_deferred_cmds()
--   Adm/Commands    user/v9/drbdadm_main.c: the table of commands, adm_up()
--   Adm/Disk        user/v9/drbdadm_adjust.c: adjust_disk()
--   Adm/Net         user/v9/drbdadm_adjust.c: adjust_paths(), adjust_peer_devices(),
--                   schedule_peer_device_options(), adjust_net();
--                   user/v9/drbdadm_postparse.c: addresses_equal(); user/shared/shared_tool.c:
--                   ipv4_addresses_match(), ipv6_addresses_match()
--   Adm/Adjust      user/v9/drbdadm_adjust.c: adjust_drbd()
--   Adm/Hosts       user/v9/drbdadm_postparse.c: check_volume_sets_equal()
--   Adm/Mesh        user/v9/drbdadm_postparse.c: create_connections_from_mesh();
--                   user/v9/drbdadm_parser.c: hostnames_equal(), hostname_in_list()
--   Tests           runs at concrete inputs
--
-- Conventions. A function of C keeps its name; what it changes is in its result. Arithmetic of a
-- fixed width is written out as a remainder of 2^32 or 2^64; `long` has 64 bits. An array is a
-- function of its index, of which the code reads what is below the bound. exit(n) and a failed
-- ASSERT are the outcomes `stop (exit n)` and `stop abort`; messages are left out, also those of
-- d_expect(), which goes on. A loop is a recursion on the list that it walks through or on the
-- number of its rounds. Two loops have fuel: that of run_deferred_cmds() one round for each
-- scheduled command and one more, and that of parse_bitmap() two windows. A list of the header
-- sys/queue.h is a list; the queues of deferred commands are one array in the order of scheduling,
-- of which a queue is the commands of its stage. An address that the code only compares is a
-- number.
--
-- Parameters. The checksum of a log block, which is crc32c() of its bytes, the number that
-- strtoul() reads of a text, what sscanf() reads, the tokens that the scanner of dump files
-- returns, and the answer of fnmatch() are arguments of the definitions that use them. So are the
-- tables of fields with the functions that compare two values of an option, the answer of
-- is_same_disk(), which asks the file system, the number that inet_pton() makes of an address, the
-- states of a connection, the running resource, which the parser makes of the output of drbdsetup,
-- and what the call of a deferred command returns, an int that may depend on the calls before it;
-- a call is taken to schedule no further command.
--
-- Not modelled: input and output on the device, allocation, locks, the printers of dump files and
-- the parser of all but their bitmap, the windows in which apply_al() reads and writes the bitmap,
-- and the other commands of drbdmeta, most of which is work on the device; the parser of drbdadm,
-- most of what follows it, its adjustment of proxies, and the arguments that it gives to drbdsetup;
-- drbdsetup and drbdmon; the programs for DRBD 8.4; scripts and documentation.
pub mod Prelude
pub mod Headers
pub mod Endian
pub mod Meta
pub mod Tool
pub mod Adm
mod Tests

-- ===== src/Lib.antt =====
-- A model of sfptpd, the daemon that steers the clocks of a host by PTP, NTP and PPS, and theorems
-- on it. The engine (src/sfptpd_engine.c) runs sync instances in threads of their own and chooses
-- one of them as the source of time; a PTP instance runs the protocol engine of src/ptp/ptpd2, which
-- chooses among the foreign masters that it hears.
--
-- The files and what they model:
-- - Bic: src/sfptpd_bic.c. Bic/Defs has the rules of a selection policy and `sfptpd_bic_select`,
--   Bic/Choose has `sfptpd_bic_choose` and the manual selection; Bic/Order, Compare, Best, Policy
--   and Manual hold the proofs. A pointer to an instance record is its index with the record.
-- - Time: src/sfptpd_time.c and src/include/sfptpd_time.h. Time/Defs has the integer operations on
--   `struct sfptpd_timespec`; Time/Value, Difference, Convert and Nanos hold the proofs, where a
--   time is a number of units of 2^-32 ns.
-- - Foreign: src/ptp/ptpd2/foreign.c. Foreign/Defs has the table of foreign masters, the search in
--   it and the insertion, Foreign/Expire has `expireForeignMasterRecords`; Foreign/Index, Find,
--   Insert, Moves and Expiry hold the proofs. The table is the whole
--   array that is allocated, with the number of the records in use; an access outside it is a
--   result of its own, `none`.
-- - Bmc: src/ptp/ptpd2/bmc.c. Bmc/Defs has `bmcDataSetComparison`, `getQualification` and the loops
--   of `bmc`, Bmc/Delete has `deleteUnselectedMasters`, Bmc/Clock has `m1`, `p1`, `s1`, `copyD0` and
--   `bmcStateDecision`; Bmc/Compare, Order, Rounds, Best, Full and Decision hold the proofs,
--   and Bmc/Interval has `ptpd_update_announce_interval` with its proofs. Bmc/Whole puts `bmc`
--   together from these, Bmc/Parent has what the deletion leaves at the best index, and Bmc/Outcome
--   what `bmc` makes of the parent.
-- - Timer: src/ptp/ptpd2/dep/timer.c. Timer/Defs has the operations on the timers of a port, whose
--   ticks `timer_start` takes in place of seconds, and sequences of these operations; Timer/Expiry
--   holds the proofs.
-- - Protocol: src/ptp/ptpd2/protocol.c. Protocol/Defs has `toState`, `toStateAllPorts` and
--   `handleSendFailure` on the state of a port, with the operations on times in floating point as a
--   parameter; Protocol/Enter holds the proofs.
-- - Msg: src/ptp/ptpd2/dep/msg.c. Msg/Octets has the buffers, which are octets by their offset,
--   Msg/Header the header of a message, Msg/Announce, Event and General the messages;
--   Msg/RoundTrip, Follow, Stamps and Bounds hold the proofs. The result of a function that packs
--   is a length or an error, next to the buffer, and a failed assertion is `none`.
-- - Acl: src/ptp/ptpd2/dep/ipv4_acl.c. Acl/Defs has the lists and the match of an address,
--   Acl/Parse the parsing of an entry, Acl/Check `checkACL` and `checkACLmask` of
--   src/ptp/ptpd2/protocol.c; Acl/Bits, Prefix, Octets, Matching, Memory and Verdict
--   hold the proofs.
-- - Engine: src/sfptpd_engine.c. Engine/Defs has `select_sync_instance`, the handler of a change
--   of state with the choice of Bic, the hold-off timer and the manual selection, as steps on
--   the state of the engine; Engine/Control, Change and Holdoff hold the proofs. What the sync
--   modules answer is part of each step.
-- - Db: src/sfptpd_db.c and src/include/sfptpd_db.h. Db/Store has `struct store_ops` as an interface
--   with its laws, Db/Array and Db/Linked are the two stores with the proofs that they keep them,
--   Db/Selection has the selections and their arguments, and Db/Table the operations on a table
--   over any store. Db/Spelling, Fields, Visit, Query and Delete hold the proofs for any lawful
--   store, Db/Refine the abstract view of a table, a bag of records, and Db/Stores puts a table on
--   each of the stores. Variadic arguments are a list; a failed assertion and an access outside the memory
--   are `none`; what a callback is called on is the list of its arguments.
-- - Multicast: src/sfptpd_multicast.c. Multicast/Defs has the groups and the calls that join and
--   leave them, Multicast/Send has `sfptpd_multicast_send`; Multicast/Registry has the abstract
--   view, and Multicast/Groups, Refine, Dests and Delivery hold the proofs. The calls run one
--   after the other, as under the lock of the service.
-- - Prelude, Words, Sorting and Orders: names, integers of 32 and 64 bits, the interface of
--   `qsort_r` with insertion sort as an instance of it, the same for comparisons that can fail an
--   assertion in Sorting/Checked, and strict weak orders.
-- Each file of tests evaluates definitions and applies theorems at concrete data.
--
-- Choices: signed and unsigned integers of 32 and 64 bits wrap, where the operations on times
-- overflow; the theorems say which seconds leave room. Counters of loops are the numbers of
-- records or bits that the loops run over, so no loop needs fuel of its own. Indices, priorities
-- and numbers of steps are numbers without a bound, since the code compares them after promotion
-- to int, and the table has at most 32767 places. A clock identity is the number that its eight
-- octets spell. Floating-point types and operations, `qsort_r`, `malloc`, `strtok_r`, `strtol`, the
-- pools and queues of messages between threads, the comparison functions of a table's fields,
-- what `realloc` leaves in the memory that it adds, and the readings of the clock are parameters.
-- An allocation whose failure the code does not look at is taken to succeed.
--
-- Not modelled: the log output and the dump of a table; the conversions between times and
-- floating-point numbers; the Sync snapshots of foreign masters; the kernel's TAI offset; the
-- handling of a tick and of a message by a PTP port; the engine's threads and messages, its
-- servos and its saved state; the management and signalling messages and the TLVs; the servo,
-- the clocks and interfaces, which are calls of the operating system for the greater part; the
-- other sync modules; the configuration.
pub mod Prelude
pub mod Words
pub mod Sorting
pub mod Orders
pub mod Time
pub mod Bic
pub mod Foreign
pub mod Bmc
pub mod Db
pub mod Multicast
pub mod Engine
pub mod Timer
pub mod Msg
pub mod Acl
pub mod Protocol

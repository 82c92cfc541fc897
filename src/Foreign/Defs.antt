-- ===== src/Foreign/Defs.antt =====
-- ptp/ptpd2/foreign.c and ptp/ptpd2/datatypes.h: the data set of foreign masters, the search in it
-- and the insertion. The clock identities are the numbers that their eight octets spell, the first
-- octet the highest, which are ordered as `memcmp` orders the octets.
use sfptpd.Prelude.{
  ℕ, zero, suc, ◌+◌, ◌-◌, ◌%◌, Bool, false, ◌&&◌, Option, none, some, List, ltb, ◌==◌, get_elem?,
  set, if◌then◌else◌, ℤ,
}
use sfptpd.Time.Defs.{Timespec, time_is_greater_or_equal}

-- FOREIGN_MASTER_THRESHOLD.
abbrev pub foreign_master_threshold : ℕ
foreign_master_threshold = 2

-- `PortIdentity`.
pub record PortIdentity : Type 0 where
  pub clock_identity : ℕ
  pub port_number : ℕ

-- `ClockQuality`.
pub record ClockQuality : Type 0 where
  pub clock_class : ℕ
  pub clock_accuracy : ℕ
  pub offset_scaled_log_variance : ℕ

-- `MsgHeader`, as far as the data set of foreign masters reads it.
pub record MsgHeader : Type 0 where
  pub source_port_identity : PortIdentity
  pub flag_field1 : ℕ
  pub sequence_id : ℕ
  pub log_message_interval : ℤ

-- `MsgAnnounce`, less its timestamp.
pub record MsgAnnounce : Type 0 where
  pub current_utc_offset : ℤ
  pub grandmaster_priority1 : ℕ
  pub grandmaster_clock_quality : ClockQuality
  pub grandmaster_priority2 : ℕ
  pub grandmaster_identity : ℕ
  pub steps_removed : ℕ
  pub time_source : ℕ

-- `PortCommunicationCapabilities`.
pub record CommCaps : Type 0 where
  pub sync_capabilities : ℕ
  pub delay_resp_capabilities : ℕ

-- `ForeignSyncSnapshot`, with `Time` for the floating-point type `sfptpd_time_t`.
pub record SyncSnapshot (Time : Type 0) : Type 0 where
  pub timestamp : Timespec
  pub offset : Time
  pub have_timestamp : Bool
  pub have_offset : Bool
  pub seq : ℕ

-- `ForeignMasterRecord`. The address is the first `addressLen` octets of the socket address.
pub record ForeignMaster (Time : Type 0) : Type 0 where
  pub port_identity : PortIdentity
  pub announce : MsgAnnounce
  pub header : MsgHeader
  pub comm_caps : CommCaps
  pub address : List ℕ
  pub announce_times : List Timespec
  pub announce_times_write_idx : ℕ
  pub announce_times_count : ℕ
  pub sync_snapshot : SyncSnapshot Time

-- `ForeignMasterDS`: `records` is the whole array that `initForeignMasterDS` allocates, of which
-- the first `number_records` are in use.
pub record DataSet (Time : Type 0) : Type 0 where
  pub records : List (ForeignMaster Time)
  pub number_records : ℕ
  pub max_records : ℕ
  pub write_index : ℕ
  pub best_index : ℕ

-- The comparison of `memcmp` and of the port numbers in `findForeignMasterRecord`.
abbrev pub same_port : PortIdentity → PortIdentity → Bool
same_port p q = (p.clock_identity == q.clock_identity) && (p.port_number == q.port_number)

module _ {Time : Type 0} where
  -- The loop of `findForeignMasterRecord` with `left` rounds to go, at the index `j`. The outer
  -- `none` is a read past the array.
  unfoldable pub find_from :
      PortIdentity → List (ForeignMaster Time) → ℕ → ℕ → ℕ → Option (Option ℕ)
  find_from port records number zero j = some none
  find_from port records number (suc left) j =
      let rest = find_from port records number left ((j + 1) % number) in
      elim (get_elem? records j) [
        | none ↦ none
        | some r ↦ if same_port port r.port_identity then some (some j) else rest
      ]

  -- `findForeignMasterRecord`: the index of the record in place of the pointer.
  unfoldable pub find_record : MsgHeader → DataSet Time → Option (Option ℕ)
  find_record header ds =
      find_from header.source_port_identity ds.records ds.number_records ds.number_records
        ds.best_index

  -- `recordForeignMasterAnnounce`, where the monotonic clock reads `now`.
  unfoldable pub record_announce : Timespec → ForeignMaster Time → ForeignMaster Time
  record_announce now r =
      let idx = r.announce_times_write_idx + 1 in
      let count = r.announce_times_count in
      record r {
        announce_times = set r.announce_times r.announce_times_write_idx now;
        announce_times_write_idx = if idx == foreign_master_threshold then 0 else idx;
        announce_times_count = if ltb count foreign_master_threshold then count + 1 else count;
      }

  -- The announce time at the index `write index - back`, which goes round the array once.
  abbrev pub qualifies : ForeignMaster Time → ℕ → Timespec → Bool
  qualifies r back threshold =
      let w = r.announce_times_write_idx in
      if r.announce_times_count == 0
      then false
      else elim (get_elem? r.announce_times
          (if ltb w back then w + foreign_master_threshold - back else w - back)) [
            | none ↦ false
            | some t ↦ time_is_greater_or_equal t threshold
          ]

  -- `doesForeignMasterLatestAnnounceQualify` and `doesForeignMasterEarliestAnnounceQualify`.
  unfoldable pub latest_announce_qualifies : ForeignMaster Time → Timespec → Bool
  latest_announce_qualifies r threshold = qualifies r 1 threshold

  unfoldable pub earliest_announce_qualifies : ForeignMaster Time → Timespec → Bool
  earliest_announce_qualifies r threshold = qualifies r r.announce_times_count threshold

  -- `resetForeignMasterDS`.
  unfoldable pub reset : DataSet Time → DataSet Time
  reset ds = record ds { number_records = 0; write_index = 0; best_index = 0 }

  -- What `insertIntoForeignMasterDS` writes to a record, known or new.
  unfoldable pub update_record :
      Timespec
      → MsgHeader
      → MsgAnnounce
      → CommCaps
      → List ℕ
      → ForeignMaster Time
      → ForeignMaster Time
  unfolding record_announce
  update_record now header announce caps address r =
      record_announce now
        (record r { header = header; announce = announce; comm_caps = caps; address = address })

  -- The write index of `insertIntoForeignMasterDS` for a new master: the best one is not overwritten.
  unfoldable pub new_index : DataSet Time → ℕ
  new_index ds =
      if ltb ds.write_index ds.number_records && (ds.write_index == ds.best_index)
      then (ds.write_index + 1) % ds.max_records
      else ds.write_index

  -- The data set where a new record is written at `j`.
  unfoldable pub place_new : ℕ → ForeignMaster Time → DataSet Time → DataSet Time
  place_new j r ds =
      let n = ds.number_records in
      record ds {
        records = set ds.records j r;
        number_records = if ltb n ds.max_records then n + 1 else n;
        write_index = (j + 1) % ds.max_records;
      }

  -- The branch of `insertIntoForeignMasterDS` for a new master. The record keeps the snapshot that
  -- its place in the array held. `none` is a write past the array.
  unfoldable pub insert_new :
      Timespec
      → MsgHeader
      → MsgAnnounce
      → CommCaps
      → List ℕ
      → DataSet Time
      → Option (ℕ × DataSet Time)
  unfolding new_index place_new update_record
  insert_new now header announce caps address ds =
      let j = new_index ds in
      elim (get_elem? ds.records j) [
        | none ↦ none
        | some r ↦
            let fresh = record r {
              announce_times_write_idx = 0;
              announce_times_count = 0;
              port_identity = header.source_port_identity;
            } in
            some (j, place_new j (update_record now header announce caps address fresh) ds)
      ]

  -- The branch of `insertIntoForeignMasterDS` for the master of the record at `j`.
  unfoldable pub insert_known :
      Timespec
      → MsgHeader
      → MsgAnnounce
      → CommCaps
      → List ℕ
      → DataSet Time
      → ℕ
      → Option (ℕ × DataSet Time)
  unfolding update_record
  insert_known now header announce caps address ds j = elim (get_elem? ds.records j) [
    | none ↦ none
    | some r ↦ some (
      j,
      record ds { records = set ds.records j (update_record now header announce caps address r) },
    )
  ]

  -- `insertIntoForeignMasterDS`: the index of the record, and the data set afterwards.
  unfoldable pub insert :
      Timespec
      → MsgHeader
      → MsgAnnounce
      → CommCaps
      → List ℕ
      → DataSet Time
      → Option (ℕ × DataSet Time)
  unfolding find_record insert_new insert_known
  insert now header announce caps address ds = elim (find_record header ds) [
    | none ↦ none
    | some none ↦ insert_new now header announce caps address ds
    | some (some j) ↦ insert_known now header announce caps address ds j
  ]

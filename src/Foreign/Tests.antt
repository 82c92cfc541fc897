-- ===== src/Foreign/Tests.antt =====
-- A table of two foreign masters, and the theorems at it.
use sfptpd.Prelude.{
  ℕ, ◌<◌, refl, false, some, none, [], ◌∷◌, get_elem?, filter, take, ◌≡◌, pos, arith,
}
use sfptpd.Time.Defs.{Timespec, null_time}
use sfptpd.Foreign.Defs.{
  MsgHeader, MsgAnnounce, CommCaps, ForeignMaster, DataSet, find_from, find_record, insert,
  latest_announce_qualifies,
}
use sfptpd.Foreign.Expire.{expire}
use sfptpd.Foreign.Expiry.{IsExpired, expire-filter, expire-none}
use sfptpd.Foreign.Find.{IsWellFormed, Reports, find_record_lem}
use sfptpd.Foreign.Insert.{IsInserted, insert-IsInserted, insert-keeps_best}

abbrev pub at_time : ℕ → Timespec
at_time n = record null_time { sec = pos n }

abbrev pub header_of : ℕ → MsgHeader
header_of identity = record {
  source_port_identity = record { clock_identity = identity; port_number = 1 };
  flag_field1 = 4;
  sequence_id = 7;
  log_message_interval = pos 1;
}

abbrev pub announce_of : ℕ → ℕ → MsgAnnounce
announce_of identity priority = record {
  current_utc_offset = pos 37;
  grandmaster_priority1 = priority;
  grandmaster_clock_quality = record {
    clock_class = 6;
    clock_accuracy = 33;
    offset_scaled_log_variance = 1000;
  };
  grandmaster_priority2 = 128;
  grandmaster_identity = identity;
  steps_removed = 0;
  time_source = 32;
}

abbrev pub multicast : CommCaps
multicast = record { sync_capabilities = 1; delay_resp_capabilities = 3 }

abbrev pub master : ℕ → ℕ → ForeignMaster ℕ
master identity priority = record {
  port_identity = (header_of identity).source_port_identity;
  announce = announce_of identity priority;
  header = header_of identity;
  comm_caps = multicast;
  address = [];
  announce_times = at_time 10 ∷ at_time 12 ∷ [];
  announce_times_write_idx = 0;
  announce_times_count = 2;
  sync_snapshot = record {
    timestamp = null_time;
    offset = 0;
    have_timestamp = false;
    have_offset = false;
    seq = 0;
  };
}

abbrev pub table : DataSet ℕ
table = record {
  records = master 20 128 ∷ master 30 64 ∷ [];
  number_records = 2;
  max_records = 2;
  write_index = 0;
  best_index = 0;
}

table-IsWellFormed : IsWellFormed table
table-IsWellFormed = record {
  length_records = refl;
  max_pos = omega arith;
  number_le = omega arith;
  write_lt = omega arith;
  write_eq = λ h. absurd (omega (arith, h));
  best_le = omega arith;
}

-- The search goes round the table from the best record.
find_second : find_record (header_of 30) table ≡ some (some 1)
unfolding find_record find_from
find_second = refl

find_missing : find_record (header_of 40) table ≡ some none
unfolding find_record find_from
find_missing = refl

find_record_lem_example :
    Reports
      (header_of 30).source_port_identity
      table.records
      2
      (λ i. i < 2)
      (find_record (header_of 30) table)
find_record_lem_example = find_record_lem (header_of 30) table table-IsWellFormed

insert-IsInserted_example :
    (i : ℕ) × (ds' : DataSet ℕ) × (insert
        (at_time 14)
        (header_of 40)
        (announce_of 40 64)
        multicast
        []
        table
      ≡ some (i, ds'))
    × IsInserted (header_of 40) (announce_of 40 64) table i ds'
insert-IsInserted_example =
    insert-IsInserted (at_time 14) (header_of 40) (announce_of 40 64) multicast [] table
      table-IsWellFormed

insert-keeps_best_example :
    (i : ℕ) × (ds' : DataSet ℕ) × (insert
        (at_time 14)
        (header_of 40)
        (announce_of 40 64)
        multicast
        []
        table
      ≡ some (i, ds'))
    × (get_elem? ds'.records ds'.best_index ≡ some (master 20 128))
insert-keeps_best_example =
    insert-keeps_best (at_time 14) (header_of 40) (announce_of 40 64) multicast [] table
      (master 20 128) table-IsWellFormed (omega arith) (omega arith) refl refl

-- A table of four places, two of them in use: the first record has no announcement since 14.
abbrev half_empty : DataSet ℕ
half_empty = record table {
  records =
      master 20 128
      ∷ record (master 30 64) { announce_times = at_time 15 ∷ at_time 16 ∷ [] }
      ∷ master 0 0
      ∷ master 0 0
      ∷ [];
  max_records = 4;
}

expire-filter_example :
    (ds' : DataSet ℕ) × (expire (λ i x y. y) (at_time 14) half_empty ≡ some ds')
    × IsExpired
        (filter
          (λ r. latest_announce_qualifies r (at_time 14))
          (take half_empty.number_records half_empty.records))
        ds'
expire-filter_example = expire-filter (λ i x y. y) (at_time 14) half_empty (omega arith)

-- A master that has announced nothing since its record was made.
abbrev silent : ForeignMaster ℕ
silent = record (master 30 64) { announce_times_count = 0 }

abbrev full_table : DataSet ℕ
full_table = record table { records = master 20 128 ∷ silent ∷ [] }

silent_stale : latest_announce_qualifies silent (at_time 14) ≡ false
unfolding latest_announce_qualifies
silent_stale = refl

expire-none_example : expire (λ i x y. y) (at_time 14) full_table ≡ none
expire-none_example =
    expire-none (λ i x y. y) (at_time 14) full_table 1 silent refl refl silent_stale

-- ===== src/Bmc/Defs.antt =====
-- ptp/ptpd2/bmc.c: the comparison of two foreign masters, their qualification, and the search for
-- the best one.
use sfptpd.Prelude.{
  ℕ, suc, ◌+◌, Bool, true, false, not, ◌&&◌, ◌||◌, Option, none, some, List, [], ◌∷◌, ltb, leb,
  ◌==◌, if◌then◌else◌, bit_and, ℤ, pos, negsuc, ltb_ℤ,
}
use sfptpd.Time.Defs.{Timespec}
use sfptpd.Foreign.Defs.{
  MsgHeader, MsgAnnounce, SyncSnapshot, ForeignMaster, foreign_master_threshold,
  earliest_announce_qualifies,
}

-- The floating-point type `sfptpd_time_t` and what the qualification does with it: the test of a
-- discriminator offset against 0, the difference, the absolute value and the comparison.
pub record TimeFloats : Type 1 where
  pub Time : Type 0
  pub is_nonzero : Time → Bool
  pub sub : Time → Time → Time
  pub abs : Time → Time
  pub ge : Time → Time → Bool

-- A comparison of two numbers, or of two clock identities by `memcmp`: -1 where the first is less,
-- 1 where it is greater, and otherwise what the tests after it return.
unfoldable pub compare_then : ℕ → ℕ → ℤ → ℤ
compare_then a b rest = if ltb a b then negsuc 0 else if ltb b a then pos 1 else rest

-- `IS_SET(flagField1, PTPD_UTCV)`, a Boolean that compares as a number.
unfoldable pub utc_valid : MsgHeader → ℕ
utc_valid header = if bit_and header.flag_field1 4 == 4 then 1 else 0

-- The part of `bmcDataSetComparison` for one grandmaster, "Algorithm part2". `parent` is
-- `ptpClock->parentPortIdentity.clockIdentity`.
unfoldable pub compare_topology : ℕ → MsgHeader → MsgAnnounce → MsgHeader → MsgAnnounce → ℤ
unfolding compare_then
compare_topology parent header_a announce_a header_b announce_b =
    let steps_a = announce_a.steps_removed in
    let steps_b = announce_b.steps_removed in
    let source_a = header_a.source_port_identity in
    let source_b = header_b.source_port_identity in
    if ltb (steps_b + 1) steps_a
    then pos 1
    else if ltb (steps_a + 1) steps_b
    then negsuc 0
    else if ltb steps_b steps_a
    then compare_then source_a.clock_identity parent (pos 0)
    else if ltb steps_a steps_b
    then compare_then source_b.clock_identity parent (pos 0)
    else compare_then source_a.clock_identity source_b.clock_identity
        (compare_then source_a.port_number source_b.port_number (pos 0))

-- The part of `bmcDataSetComparison` for two grandmasters, `dataset_comp_part_1`.
unfoldable pub compare_grandmasters : Bool → MsgHeader → MsgAnnounce → MsgHeader → MsgAnnounce → ℤ
unfolding utc_valid compare_then
compare_grandmasters prefer_utc_valid header_a announce_a header_b announce_b =
    let quality_a = announce_a.grandmaster_clock_quality in
    let quality_b = announce_b.grandmaster_clock_quality in
    let by_quality = compare_then quality_a.clock_class quality_b.clock_class (
      compare_then quality_a.clock_accuracy quality_b.clock_accuracy (
        compare_then quality_a.offset_scaled_log_variance quality_b.offset_scaled_log_variance (
          compare_then announce_a.grandmaster_priority2 announce_b.grandmaster_priority2 (
            compare_then announce_a.grandmaster_identity announce_b.grandmaster_identity
              (pos 0))))) in
    compare_then announce_a.grandmaster_priority1 announce_b.grandmaster_priority1 (
      if prefer_utc_valid
      then compare_then (utc_valid header_b) (utc_valid header_a) by_quality
      else by_quality)

-- `bmcDataSetComparison`.
unfoldable pub data_set_comparison :
    Bool → ℕ → MsgHeader → MsgAnnounce → MsgHeader → MsgAnnounce → ℤ
unfolding compare_topology compare_grandmasters
data_set_comparison prefer_utc_valid parent header_a announce_a header_b announce_b =
    if announce_a.grandmaster_identity == announce_b.grandmaster_identity
    then compare_topology parent header_a announce_a header_b announce_b
    else compare_grandmasters prefer_utc_valid header_a announce_a header_b announce_b

abbrev pub is_nonzero_ℤ : ℤ → Bool
is_nonzero_ℤ z = ltb_ℤ z (pos 0) || ltb_ℤ (pos 0) z

-- `enum qualification`.
pub data Qualification : Type 0 where
  qualified unqualified_by_announce_expiry unqualified_by_discriminator : Qualification
  unqualified_by_steps_removed : Qualification

abbrev pub is_qualified : Qualification → Bool
is_qualified qualified = true
is_qualified unqualified_by_announce_expiry = false
is_qualified unqualified_by_discriminator = false
is_qualified unqualified_by_steps_removed = false

abbrev pub is_by_discriminator : Qualification → Bool
is_by_discriminator qualified = false
is_by_discriminator unqualified_by_announce_expiry = false
is_by_discriminator unqualified_by_discriminator = true
is_by_discriminator unqualified_by_steps_removed = false

-- What `bmc` reads of `ptpClock` and `rtOpts` while it looks for the best record; `threshold` is
-- what `getForeignMasterExpiryTime` sets.
pub record Context (F : TimeFloats) : Type 0 where
  pub threshold : Timespec
  pub discriminator_offset : F.Time
  pub discriminator_threshold : F.Time
  pub prefer_utc_valid : Bool
  pub parent_clock_identity : ℕ

-- The local variables of `bmc` that the search sets.
pub record Search : Type 0 where
  pub besti : ℕ
  pub number_records : ℕ
  pub had_result : Bool
  pub discriminator_disqual : Bool

module _ (F : TimeFloats) where
  -- The part of `getQualification` that looks at the Sync snapshot.
  unfoldable pub fails_discriminator : Context F → SyncSnapshot F.Time → Bool
  fails_discriminator c s =
      if F.is_nonzero c.discriminator_offset
      then (if s.have_offset
          then F.ge (F.abs (F.sub s.offset c.discriminator_offset)) c.discriminator_threshold
          else true)
      else false

  -- `getQualification`.
  unfoldable pub qualification : Context F → ForeignMaster F.Time → Qualification
  unfolding fails_discriminator earliest_announce_qualifies
  qualification c foreign =
      if ltb foreign.announce_times_count foreign_master_threshold
        || not (earliest_announce_qualifies foreign c.threshold)
      then unqualified_by_announce_expiry
      else if fails_discriminator c foreign.sync_snapshot
      then unqualified_by_discriminator
      else if leb 255 foreign.announce.steps_removed
      then unqualified_by_steps_removed
      else qualified

  -- The comparison of two records in `bmc`.
  unfoldable pub compare_records : Context F → ForeignMaster F.Time → ForeignMaster F.Time → ℤ
  unfolding data_set_comparison
  compare_records c a b =
      data_set_comparison c.prefer_utc_valid c.parent_clock_identity a.header a.announce b.header
        b.announce

  -- Whether the record `r` replaces `best` in the loop "Do pairwise comparison" of `bmc`.
  unfoldable pub wins : Context F → ForeignMaster F.Time → ForeignMaster F.Time → Bool
  unfolding qualification compare_records
  wins c best r = is_qualified (qualification c r) && ltb_ℤ (compare_records c r best) (pos 0)

  -- The variables after one round of that loop, for the record `r` at index `i`.
  unfoldable pub round :
      Context F → ℕ → ForeignMaster F.Time → ForeignMaster F.Time → Search → Search
  unfolding wins qualification compare_records
  round c i best r s =
      let q = qualification c r in
      let comp = compare_records c r best in
      record s {
        besti = if wins c best r then i else s.besti;
        number_records = if is_qualified q then s.number_records + 1 else s.number_records;
        had_result = if is_qualified q then s.had_result || is_nonzero_ℤ comp else s.had_result;
        discriminator_disqual = s.discriminator_disqual || is_by_discriminator q;
      }

  -- That loop over the records from index `i` on, where `best` is the record at `besti`.
  unfoldable pub compete :
      Context F → ℕ → ForeignMaster F.Time → List (ForeignMaster F.Time) → Search → Search
  unfolding wins round
  compete c i best [] s = s
  compete c i best (r ∷ rs) s =
      compete c (suc i) (if wins c best r then r else best) rs (round c i best r s)

  -- The loop "Find the first qualified record" of `bmc` from index `i` on, and the loop after it.
  unfoldable pub search_from : Context F → ℕ → List (ForeignMaster F.Time) → Bool → Search
  unfolding qualification compete
  search_from c i [] disqual = record {
    besti = i;
    number_records = 0;
    had_result = false;
    discriminator_disqual = disqual;
  }
  search_from c i (r ∷ rs) disqual =
      let q = qualification c r in
      let rest = search_from c (suc i) rs (disqual || is_by_discriminator q) in
      if is_qualified q
      then compete c (suc i) r rs (record {
        besti = i;
        number_records = 1;
        had_result = false;
        discriminator_disqual = disqual;
      })
      else rest

  -- The index that `bmc` makes the best one, if it does: there was a result or a single record.
  -- The list is that of the records in use.
  unfoldable pub best_record : Context F → List (ForeignMaster F.Time) → Option ℕ
  unfolding search_from
  best_record c records =
      let s = search_from c 0 records false in
      if s.had_result || (s.number_records == 1) then some s.besti else none

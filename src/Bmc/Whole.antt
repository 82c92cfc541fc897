-- ===== src/Bmc/Whole.antt =====
-- ptp/ptpd2/bmc.c: the whole of `bmc`, from the search for the best record to the decision.
use sfptpd.Prelude.{
  ℕ, Bool, true, false, ◌&&◌, ◌||◌, Option, some, take, get_elem?, ◌==◌, if◌then◌else◌, ◌>>=◌,
}
use sfptpd.Time.Defs.{Timespec}
use sfptpd.Foreign.Defs.{MsgHeader, MsgAnnounce, DataSet}
use sfptpd.Bmc.Defs.{TimeFloats, Context, search_from}
use sfptpd.Bmc.Delete.{delete_unselected}
use sfptpd.Bmc.Clock.{
  PortState, listening, master, is_slave, RunTimeOpts, Clock, m1, state_decision,
}

abbrev pub is_master : PortState → Bool
is_master master = true
is_master other = false

module _ (F : TimeFloats) where
  -- What the comparisons read of the port, where `getForeignMasterExpiryTime` sets `threshold`.
  abbrev pub context_of : F.Time → F.Time → RunTimeOpts → Clock → Timespec → Context F
  context_of offset discriminator_threshold opts c threshold = record {
    threshold = threshold;
    discriminator_offset = offset;
    discriminator_threshold = discriminator_threshold;
    prefer_utc_valid = opts.prefer_utc_valid;
    parent_clock_identity = c.parent_port_identity.clock_identity;
  }

  -- The end of `bmc` where there is a best record, at the index `besti`. `none` is a read past the
  -- array.
  unfoldable pub decide_best :
      Context F
      → RunTimeOpts
      → MsgHeader
      → MsgAnnounce
      → ℕ
      → DataSet F.Time
      → Clock
      → Option (PortState × DataSet F.Time × Clock)
  unfolding delete_unselected state_decision
  decide_best context opts h a besti ds c = do
    ds' ← delete_unselected F context (record ds { best_index = besti })
    best ← get_elem? ds'.records ds'.best_index
    let decision = state_decision best opts ds'.number_records h a c
    some (decision.0, ds', decision.1)

  -- `bmc`: the state, the data set and the clock afterwards. The two thresholds are what
  -- `getForeignMasterExpiryTime` answers in the search and in the deletion, and `h` and `a` what the
  -- stack holds in the place of the temporary header and announcement.
  unfoldable pub bmc :
      F.Time
      → F.Time
      → Timespec
      → Timespec
      → RunTimeOpts
      → MsgHeader
      → MsgAnnounce
      → DataSet F.Time
      → Clock
      → Option (PortState × DataSet F.Time × Clock)
  unfolding search_from decide_best m1
  bmc offset discriminator_threshold threshold later_threshold opts h a ds c =
      let search = context_of offset discriminator_threshold opts c threshold in
      let deletion = context_of offset discriminator_threshold opts c later_threshold in
      let s = search_from F search 0 (take ds.number_records ds.records) false in
      if (ds.number_records == 0) || c.master_only
      then some (c.port_state, ds, if is_master c.port_state then m1 opts c else c)
      else if s.had_result || (s.number_records == 1)
      then decide_best deletion opts h a s.besti ds c
      else some (
        if s.discriminator_disqual && is_slave c.port_state then listening else c.port_state,
        ds,
        c,
      )

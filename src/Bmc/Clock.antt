-- ===== src/Bmc/Clock.antt =====
-- ptp/ptpd2/bmc.c: what the best master clock algorithm writes to the data sets of a PTP clock, in
-- the functions m1, p1 and s1, and the state decision. The calls that only log are left out, and so
-- is the update of the kernel's TAI offset, which is compiled in for MOD_TAI only.
use sfptpd.Prelude.{
  ℕ, ◌+◌, ◌%◌, Bool, true, false, not, ◌&&◌, ◌||◌, ◌==◌, ltb, if◌then◌else◌, bit_and, List, ℤ, pos,
  negsuc, ltb_ℤ,
}
use sfptpd.Foreign.Defs.{
  PortIdentity, ClockQuality, MsgHeader, MsgAnnounce, ForeignMaster, same_port,
}
use sfptpd.Bmc.Defs.{data_set_comparison}

-- `ptpd_state_e`.
pub data PortState : Type 0 where
  uninitialized initializing faulty disabled listening pre_master : PortState
  master passive uncalibrated slave : PortState

-- `TimePropertiesDS`.
pub record TimeProperties : Type 0 where
  pub current_utc_offset : ℤ
  pub current_utc_offset_valid : Bool
  pub leap59 : Bool
  pub leap61 : Bool
  pub time_traceable : Bool
  pub frequency_traceable : Bool
  pub ptp_timescale : Bool
  pub time_source : ℕ

-- `RunTimeOpts`, as far as these functions read it; `is_clock` is `node_type == PTPD_NODE_CLOCK`.
pub record RunTimeOpts : Type 0 where
  pub steps_removed : ℕ
  pub is_clock : Bool
  pub prefer_utc_valid : Bool
  pub time_properties : TimeProperties
  pub override_utc_offset : Bool
  pub override_utc_offset_seconds : ℤ

-- `PtpClock`, as far as these functions read and write it; `servo_resets` counts the calls of
-- `servo_reset`.
pub record Clock : Type 0 where
  pub two_step_flag : Bool
  pub clock_identity : ℕ
  pub clock_quality : ClockQuality
  pub priority1 : ℕ
  pub priority2 : ℕ
  pub slave_only : Bool
  pub master_only : Bool
  pub boundary_grandmaster_defined : Bool
  pub boundary_grandmaster_identity : ℕ
  pub interface_address : List ℕ
  pub steps_removed : ℕ
  pub parent_port_identity : PortIdentity
  pub parent_stats : Bool
  pub observed_parent_variance : ℕ
  pub observed_parent_rate : ℤ
  pub grandmaster_identity : ℕ
  pub grandmaster_clock_quality : ClockQuality
  pub grandmaster_priority1 : ℕ
  pub grandmaster_priority2 : ℕ
  pub parent_address : List ℕ
  pub time_properties : TimeProperties
  pub leap_second_in_progress : Bool
  pub port_state : PortState
  pub log_announce_interval : ℤ
  pub unicast_delay_resp_failures : ℤ
  pub master_changes : ℕ
  pub protocol_errors : ℕ
  pub servo_resets : ℕ

-- The time properties that m1 and p1 take from the options; the leap flags stay.
abbrev pub own_time_properties : RunTimeOpts → TimeProperties → TimeProperties
own_time_properties opts t =
    let o = opts.time_properties in record o { leap59 = t.leap59; leap61 = t.leap61 }

-- `m1`.
unfoldable pub m1 : RunTimeOpts → Clock → Clock
m1 opts c = record c {
  two_step_flag = true;
  steps_removed = opts.steps_removed;
  servo_resets = if opts.is_clock then c.servo_resets + 1 else c.servo_resets;
  parent_port_identity = record { clock_identity = c.clock_identity; port_number = 0 };
  parent_stats = false;
  observed_parent_rate = pos 0;
  observed_parent_variance = 0;
  grandmaster_identity =
      if c.boundary_grandmaster_defined then c.boundary_grandmaster_identity else c.clock_identity;
  grandmaster_clock_quality = c.clock_quality;
  grandmaster_priority1 = c.priority1;
  grandmaster_priority2 = c.priority2;
  parent_address = c.interface_address;
  time_properties = own_time_properties opts c.time_properties;
}

-- The parent data set that p1 and s1 take from a master.
abbrev pub follow : {Time : Type 0} → ForeignMaster Time → Clock → Clock
follow m c = record c {
  parent_port_identity = m.header.source_port_identity;
  grandmaster_identity = m.announce.grandmaster_identity;
  grandmaster_clock_quality = m.announce.grandmaster_clock_quality;
  grandmaster_priority1 = m.announce.grandmaster_priority1;
  grandmaster_priority2 = m.announce.grandmaster_priority2;
  parent_address = m.address;
}

-- `p1`.
unfoldable pub p1 : {Time : Type 0} → ForeignMaster Time → Clock → RunTimeOpts → Clock
p1 m c opts =
    let f = follow m c in
    record f {
      two_step_flag = true;
      steps_removed = opts.steps_removed;
      time_properties = own_time_properties opts c.time_properties;
    }

-- The log interval of announcements within PTPD_ANNOUNCE_INTERVAL_MIN and _MAX.
unfoldable pub saturate_interval : ℤ → ℤ
saturate_interval i = if ltb_ℤ i (negsuc 3) then negsuc 3 else if ltb_ℤ (pos 4) i then pos 4 else i

-- The update of the announce interval in `s1`; 0x7f is PTPD_MESSAGE_INTERVAL_UNDEFINED.
unfoldable pub received_interval : ℤ → ℤ → ℤ
unfolding saturate_interval
received_interval interval current =
    if ltb_ℤ interval (pos 127) || ltb_ℤ (pos 127) interval
    then saturate_interval interval
    else current

-- `IS_SET(flagField1, …)`, for the value of one bit.
abbrev pub is_set : MsgHeader → ℕ → Bool
is_set header bit = bit_and header.flag_field1 bit == bit

abbrev pub is_slave : PortState → Bool
is_slave slave = true
is_slave other = false

-- `s1`.
unfoldable pub s1 : {Time : Type 0} → ForeignMaster Time → Clock → RunTimeOpts → Clock
unfolding received_interval
s1 m c opts =
    let h = m.header in
    let t = c.time_properties in
    let takes_leap = is_slave c.port_state && not c.leap_second_in_progress in
    let leap59 = if takes_leap then is_set h 2 else t.leap59 in
    let leap61 = if takes_leap then is_set h 1 else t.leap61 in
    let f = follow m c in
    record f {
      steps_removed = (m.announce.steps_removed + 1) % 65536;
      log_announce_interval = received_interval h.log_message_interval c.log_announce_interval;
      time_properties = record {
        current_utc_offset =
            if opts.override_utc_offset
            then opts.override_utc_offset_seconds
            else m.announce.current_utc_offset;
        current_utc_offset_valid = if opts.override_utc_offset then true else is_set h 4;
        leap59 = leap59;
        leap61 = leap61;
        time_traceable = is_set h 16;
        frequency_traceable = is_set h 32;
        ptp_timescale = is_set h 8;
        time_source = m.announce.time_source;
      };
      protocol_errors =
          if takes_leap && (leap59 && leap61) then c.protocol_errors + 1 else c.protocol_errors;
    }

abbrev pub bit : Bool → ℕ → ℕ
bit b value = if b then value else 0

-- `copyD0` on a header and an announcement that hold what the stack held.
unfoldable pub copy_d0 : Clock → MsgHeader → MsgAnnounce → MsgHeader × MsgAnnounce
copy_d0 c h a =
    let t = c.time_properties in
    let source = h.source_port_identity in
    (
      record h {
        source_port_identity = record source { clock_identity = c.clock_identity };
        flag_field1 =
            bit t.leap61 1
            + bit t.leap59 2
            + bit t.current_utc_offset_valid 4
            + bit t.ptp_timescale 8
            + bit t.time_traceable 16
            + bit t.frequency_traceable 32;
      },
      record a {
        grandmaster_priority1 = c.priority1;
        grandmaster_identity = c.clock_identity;
        grandmaster_clock_quality = c.clock_quality;
        grandmaster_priority2 = c.priority2;
        steps_removed = 0;
      },
    )

-- What `bmcStateDecision` does where there is a new best master; `is_new` is `newBM`.
abbrev pub note_master : Bool → Clock → Clock
note_master is_new c =
    if is_new
    then record c { master_changes = c.master_changes + 1; unicast_delay_resp_failures = pos 0 }
    else c

abbrev pub is_listening : PortState → Bool
is_listening listening = true
is_listening other = false

-- `bmcStateDecision`: the state and the clock afterwards. `h` and `a` are what the stack holds in
-- the place of the temporary header and announcement, and `number` is that of the foreign masters.
unfoldable pub state_decision :
    {Time : Type 0}
    → ForeignMaster Time
    → RunTimeOpts
    → ℕ
    → MsgHeader
    → MsgAnnounce
    → Clock
    → PortState × Clock
unfolding m1 p1 s1 copy_d0
state_decision best opts number h a c =
    let new_bm = not (same_port best.header.source_port_identity c.parent_port_identity) in
    let own = copy_d0 c h a in
    let comp =
      data_set_comparison opts.prefer_utc_valid c.parent_port_identity.clock_identity own.0 own.1
        best.header best.announce in
    if c.slave_only
    then (slave, note_master new_bm (s1 best c opts))
    else if (number == 0) && is_listening c.port_state
    then (listening, c)
    else if ltb_ℤ comp (pos 0)
    then (master, m1 opts c)
    else if ltb_ℤ (pos 0) comp
    then (if ltb c.clock_quality.clock_class 128
        then (passive, note_master new_bm (p1 best c opts))
        else (slave, note_master new_bm (s1 best c opts)))
    else (faulty, record c { protocol_errors = c.protocol_errors + 1 })

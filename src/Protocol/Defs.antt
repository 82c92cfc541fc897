-- ===== src/Protocol/Defs.antt =====
-- ptp/ptpd2/protocol.c: `toState`, `toStateAllPorts` and `handleSendFailure`. The type LongDouble
-- and its operations are a parameter. The calls that only log are left out.
use sfptpd.Prelude.{
  ℕ, ◌+◌, Bool, true, false, not, ◌&&◌, Option, some, List, [], ◌∷◌, get_elem?, take, if◌then◌else◌,
  bit_and, ℤ, pos, ◌>>=◌,
}
use sfptpd.Foreign.Defs.{CommCaps, ForeignMaster, DataSet}
use sfptpd.Bmc.Clock.{
  PortState, uninitialized, initializing, faulty, disabled, listening, pre_master, master, passive,
  slave, is_listening, Clock,
}
use sfptpd.Bmc.Interval.{update_announce_interval}
use sfptpd.Timer.Defs.{IntervalTimer, timer_stop, timer_start, timer_running}

-- Seconds in floating point: `seconds n e` is `n * powl(2, e)`, and `ticks` the number of ticks of
-- US_TIMER_INTERVAL that timerStart makes of a time, which it truncates.
pub record LongDouble : Type 1 where
  pub Seconds : Type 0
  pub seconds : ℕ → ℤ → Seconds
  pub ticks : Seconds → ℤ

-- The indices of the timers.
abbrev pub pdelayreq_interval_timer : ℕ
pdelayreq_interval_timer = 0

abbrev pub pdelayresp_receipt_timer : ℕ
pdelayresp_receipt_timer = 1

abbrev pub delayreq_interval_timer : ℕ
delayreq_interval_timer = 2

abbrev pub delayresp_receipt_timer : ℕ
delayresp_receipt_timer = 3

abbrev pub sync_receipt_timer : ℕ
sync_receipt_timer = 4

abbrev pub sync_interval_timer : ℕ
sync_interval_timer = 5

abbrev pub announce_receipt_timer : ℕ
announce_receipt_timer = 6

abbrev pub announce_interval_timer : ℕ
announce_interval_timer = 7

abbrev pub operator_messages_timer : ℕ
operator_messages_timer = 8

abbrev pub fault_restart_timer : ℕ
fault_restart_timer = 9

abbrev pub foreign_master_timer : ℕ
foreign_master_timer = 10

abbrev pub timestamp_check_timer : ℕ
timestamp_check_timer = 11

-- `RunTimeOpts`, as far as these functions read it.
pub record PortOpts : Type 0 where
  pub comm_caps : CommCaps
  pub min_delay_req_interval : ℤ
  pub sync_interval : ℤ
  pub announce_interval : ℤ
  pub missing_interface_tolerance : Bool

-- `PtpClock`, as far as these functions read and write it. `p2p` is `delayMechanism ==
-- PTPD_DELAY_MECHANISM_P2P`, and `servo_interval` the interval of the filter of the servo.
pub record PtpPort (F : LongDouble) (Time : Type 0) : Type 0 where
  pub clock : Clock
  pub itimer : List IntervalTimer
  pub foreign : DataSet Time
  pub p2p : Bool
  pub announce_receipt_timeout : ℕ
  pub sync_receipt_timeout : ℕ
  pub log_min_delay_req_interval : ℤ
  pub log_min_pdelay_req_interval : ℤ
  pub log_sync_interval : ℤ
  pub port_alarms : ℕ
  pub effective_comm_caps : CommCaps
  pub partner_comm_caps : CommCaps
  pub servo_interval : F.Seconds
  pub sync_missing_interval : F.Seconds
  pub sync_missing_next_warning : F.Seconds
  pub waiting_for_follow : Bool
  pub waiting_for_delay_resp : Bool
  pub waiting_for_first_sync : Bool
  pub waiting_for_first_delayresp : Bool
  pub reset_count : ℕ
  pub state_transitions : ℕ
  pub message_send_errors : ℕ

-- The calls of `timerStop` for a list of timers.
abbrev pub stop_timers : List ℕ → List IntervalTimer → List IntervalTimer
stop_timers [] itimer = itimer
stop_timers (i ∷ is) itimer = stop_timers is (timer_stop i itimer)

-- The timers that every change of state stops, and those that stop in the states without a peer.
abbrev pub protocol_timers : List ℕ
protocol_timers = 7 ∷ 6 ∷ 5 ∷ 4 ∷ 2 ∷ 3 ∷ 9 ∷ 10 ∷ []

abbrev pub peer_timers : List ℕ
peer_timers = 0 ∷ 1 ∷ 11 ∷ []

-- A state that `toState` knows.
unfoldable pub is_known : PortState → Bool
is_known uninitialized = false
is_known pre_master = false
is_known other = true

-- `timerStart` for `n * powl(2, e)` seconds.
abbrev pub start_timer : (F : LongDouble) → ℕ → ℕ → ℤ → List IntervalTimer → List IntervalTimer
start_timer F index n e itimer = timer_start index (F.ticks (F.seconds n e)) itimer

module _ (F : LongDouble) {Time : Type 0} where
  -- The start of the timer of peer delay requests, where it does not run.
  unfoldable pub start_pdelayreq : PtpPort F Time → List IntervalTimer → List IntervalTimer
  start_pdelayreq p itimer =
      if p.p2p && not (timer_running pdelayreq_interval_timer itimer)
      then start_timer F pdelayreq_interval_timer 1 p.log_min_pdelay_req_interval itimer
      else itimer

  -- The timers that await announcements, with the intervals of `p`.
  abbrev pub start_announce_receipt : PtpPort F Time → List IntervalTimer → List IntervalTimer
  start_announce_receipt p itimer =
      let e = p.clock.log_announce_interval in
      start_timer F foreign_master_timer 1 e
        (start_timer F announce_receipt_timer p.announce_receipt_timeout e itimer)

  -- The part of `toState` that is the same for all states.
  unfoldable pub leave : PortOpts → PtpPort F Time → PtpPort F Time
  leave opts p = record p {
    itimer = stop_timers protocol_timers p.itimer;
    port_alarms = 0;
    state_transitions = p.state_transitions + 1;
    effective_comm_caps = opts.comm_caps;
  }

  -- The case PTPD_LISTENING; `p` has the intervals and timers of before.
  unfoldable pub enter_listening : PortOpts → PtpPort F Time → PtpPort F Time
  unfolding start_pdelayreq update_announce_interval
  enter_listening opts p =
      let q : PtpPort F Time = record p {
        reset_count = if is_listening p.clock.port_state then p.reset_count else p.reset_count + 1;
        log_min_delay_req_interval = opts.min_delay_req_interval;
        log_sync_interval = opts.sync_interval;
        clock =
            update_announce_interval (take p.foreign.number_records p.foreign.records)
              opts.announce_interval p.clock;
        servo_interval = F.seconds 1 opts.sync_interval;
      } in
      record q {
        itimer =
            timer_stop timestamp_check_timer
              (start_pdelayreq q (start_announce_receipt q q.itimer));
      }

  -- The case PTPD_MASTER.
  unfoldable pub enter_master : PortOpts → PtpPort F Time → PtpPort F Time
  unfolding start_pdelayreq
  enter_master opts p =
      let c = p.clock in
      let q : PtpPort F Time = record p {
        log_min_delay_req_interval = opts.min_delay_req_interval;
        log_sync_interval = opts.sync_interval;
        clock = record c { log_announce_interval = opts.announce_interval };
        servo_interval = F.seconds 1 opts.sync_interval;
      } in
      let t = start_timer F sync_interval_timer 1 opts.sync_interval q.itimer in
      let t = start_timer F announce_interval_timer 1 opts.announce_interval t in
      let t = start_timer F foreign_master_timer 1 opts.announce_interval t in
      let t = start_timer F timestamp_check_timer 10 (pos 0) t in
      record q { itimer = start_pdelayreq q t }

  -- The case PTPD_PASSIVE.
  unfoldable pub enter_passive : PtpPort F Time → PtpPort F Time
  unfolding start_pdelayreq
  enter_passive p =
      let t = start_timer F timestamp_check_timer 10 (pos 0) (start_announce_receipt p p.itimer) in
      record p { itimer = start_pdelayreq p t }

  -- The case PTPD_SLAVE, with the record of the best master.
  unfoldable pub enter_slave : PortOpts → ForeignMaster Time → PtpPort F Time → PtpPort F Time
  unfolding start_pdelayreq
  enter_slave opts best p =
      let c = p.clock in
      let caps = best.comm_caps in
      let warning = F.seconds p.sync_receipt_timeout p.log_sync_interval in
      let t = start_timer F operator_messages_timer 300 (pos 0) p.itimer in
      let t = start_announce_receipt p t in
      let t = start_timer F timestamp_check_timer 10 (pos 0) t in
      let t = timer_start sync_receipt_timer (F.ticks warning) t in
      record p {
        waiting_for_follow = false;
        waiting_for_delay_resp = false;
        partner_comm_caps = caps;
        effective_comm_caps = record {
          sync_capabilities = bit_and caps.sync_capabilities opts.comm_caps.sync_capabilities;
          delay_resp_capabilities =
              bit_and caps.delay_resp_capabilities opts.comm_caps.delay_resp_capabilities;
        };
        clock = record c { unicast_delay_resp_failures = pos 0 };
        sync_missing_interval = F.seconds 0 (pos 0);
        sync_missing_next_warning = warning;
        itimer = start_pdelayreq p t;
        waiting_for_first_sync = true;
        waiting_for_first_delayresp = true;
      }

  -- The `switch` of `toState`. `none` is a read past the array of foreign masters.
  unfoldable pub enter : PortOpts → PortState → PtpPort F Time → Option (PtpPort F Time)
  unfolding enter_listening enter_master enter_passive enter_slave
  enter opts initializing p = some (record p { itimer = stop_timers peer_timers p.itimer })
  enter opts faulty p = some (record p {
    itimer = start_timer F fault_restart_timer 5 (pos 0) (stop_timers peer_timers p.itimer);
  })
  enter opts disabled p = some (record p { itimer = stop_timers peer_timers p.itimer })
  enter opts listening p = some (enter_listening opts p)
  enter opts master p = some (enter_master opts p)
  enter opts passive p = some (enter_passive p)
  enter opts slave p = do
    best ← get_elem? p.foreign.records p.foreign.best_index
    some (enter_slave opts best p)
  enter opts other p = some p

  -- The end of `toState`.
  abbrev pub settle : PortState → PtpPort F Time → PtpPort F Time
  settle state p =
      let c = p.clock in
      if is_known state then record p { clock = record c { port_state = state } } else p

  -- `toState`.
  unfoldable pub to_state : PortState → PortOpts → PtpPort F Time → Option (PtpPort F Time)
  unfolding leave enter is_known
  to_state state opts p = do p' ← enter opts state (leave opts p); some (settle state p')

  -- `toStateAllPorts`.
  unfoldable pub to_state_all_ports :
      PortState → List (PortOpts × PtpPort F Time) → Option (List (PortOpts × PtpPort F Time))
  unfolding to_state
  to_state_all_ports state [] = some []
  to_state_all_ports state ((opts, p) ∷ ports) = do
    p' ← to_state state opts p
    rest ← to_state_all_ports state ports
    some ((opts, p') ∷ rest)

  -- `handleSendFailure`.
  unfoldable pub handle_send_failure : PortOpts → PtpPort F Time → Option (PtpPort F Time)
  unfolding to_state
  handle_send_failure opts p =
      to_state (if opts.missing_interface_tolerance then listening else faulty) opts
        (record p { message_send_errors = p.message_send_errors + 1 })

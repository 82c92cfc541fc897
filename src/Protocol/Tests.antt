-- ===== src/Protocol/Tests.antt =====
-- A port that slaves to the master of its table, and the theorems on its timeouts at it.
use sfptpd.Prelude.{
  ℕ, ◌*◌, ◌/◌, ◌^◌, ◌≡◌, refl, arith, true, false, some, List, [], ◌∷◌, leb, replicate, ℤ, pos,
  negsuc,
}
use sfptpd.Foreign.Tests.{table, master, multicast}
use sfptpd.Bmc.Clock.{faulty, slave}
use sfptpd.Bmc.ClockTests.{clock}
use sfptpd.Timer.Defs.{IntervalTimer, timer_expired, Call, tick_all, ask, run, ticks_in}
use sfptpd.Timer.Expiry.{ticks_of}
use sfptpd.Protocol.Defs.{LongDouble, PortOpts, PtpPort, to_state}
use sfptpd.Protocol.Enter.{announce_timeout, fault_restart}

-- Seconds in units of 2^-4 s, the length of a tick, for logarithms of at least -4.
abbrev sixteenths : ℕ → ℤ → ℕ
sixteenths n (pos e) = n * 16 * 2 ^ e
sixteenths n (negsuc e) = n * 8 / 2 ^ e

abbrev long_double : LongDouble
long_double = record { Seconds = ℕ; seconds = sixteenths; ticks = pos }

abbrev opts : PortOpts
opts = record {
  comm_caps = multicast;
  min_delay_req_interval = pos 0;
  sync_interval = pos 0;
  announce_interval = pos 1;
  missing_interface_tolerance = false;
}

abbrev idle : IntervalTimer
idle = record { interval = pos 0; left = pos 0; expire = false }

abbrev port : PtpPort long_double ℕ
port = record {
  clock = clock;
  itimer = replicate 12 idle;
  foreign = table;
  p2p = true;
  announce_receipt_timeout = 6;
  sync_receipt_timeout = 6;
  log_min_delay_req_interval = pos 0;
  log_min_pdelay_req_interval = pos 0;
  log_sync_interval = pos 0;
  port_alarms = 1;
  effective_comm_caps = multicast;
  partner_comm_caps = multicast;
  servo_interval = 16;
  sync_missing_interval = 0;
  sync_missing_next_warning = 0;
  waiting_for_follow = true;
  waiting_for_delay_resp = true;
  waiting_for_first_sync = false;
  waiting_for_first_delayresp = false;
  reset_count = 0;
  state_transitions = 0;
  message_send_errors = 0;
}

-- A tick, and a question for another timer.
abbrev calls : List Call
calls = tick_all ∷ ask 4 ∷ []

announce_timeout_example :
    (p' : PtpPort long_double ℕ) × (to_state long_double slave opts port ≡ some p')
    × (p'.clock.port_state ≡ slave)
    × ((timer_expired 6 (run calls p'.itimer)).0
        ≡ leb
            (ticks_of (sixteenths p'.announce_receipt_timeout p'.clock.log_announce_interval))
            (ticks_in calls))
announce_timeout_example =
    announce_timeout long_double slave opts port (master 20 128) sixteenths calls refl refl refl
      (λ k e. refl) (tt, ((λ e. omega (arith, e)), tt))

fault_restart_example :
    (p' : PtpPort long_double ℕ) × (to_state long_double faulty opts port ≡ some p')
    × (p'.clock.port_state ≡ faulty)
    × ((timer_expired 9 (run calls p'.itimer)).0 ≡ false)
fault_restart_example =
    fault_restart long_double opts port sixteenths calls refl (λ k e. refl)
      (tt, ((λ e. omega (arith, e)), tt))

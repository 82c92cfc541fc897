-- ===== src/Bmc/ClockTests.antt =====
-- A PTP clock that listens, and the theorems on the state decision at it.
use sfptpd.Prelude.{◌≢◌, refl, false, true, [], pos, arith}
use sfptpd.Foreign.Tests.{header_of, announce_of, master}
use sfptpd.Bmc.Clock.{slave, listening, TimeProperties, RunTimeOpts, Clock, state_decision}
use sfptpd.Bmc.Decision.{state_decision-never_slave}

abbrev pub properties : TimeProperties
properties = record {
  current_utc_offset = pos 37;
  current_utc_offset_valid = true;
  leap59 = false;
  leap61 = false;
  time_traceable = true;
  frequency_traceable = true;
  ptp_timescale = true;
  time_source = 32;
}

abbrev pub opts : RunTimeOpts
opts = record {
  steps_removed = 0;
  is_clock = true;
  prefer_utc_valid = false;
  time_properties = properties;
  override_utc_offset = false;
  override_utc_offset_seconds = pos 0;
}

abbrev pub clock : Clock
clock = record {
  two_step_flag = true;
  clock_identity = 25;
  clock_quality = record {
    clock_class = 6;
    clock_accuracy = 33;
    offset_scaled_log_variance = 1000;
  };
  priority1 = 128;
  priority2 = 128;
  slave_only = false;
  master_only = false;
  boundary_grandmaster_defined = false;
  boundary_grandmaster_identity = 0;
  interface_address = [];
  steps_removed = 0;
  parent_port_identity = record { clock_identity = 25; port_number = 0 };
  parent_stats = false;
  observed_parent_variance = 0;
  observed_parent_rate = pos 0;
  grandmaster_identity = 25;
  grandmaster_clock_quality = record {
    clock_class = 6;
    clock_accuracy = 33;
    offset_scaled_log_variance = 1000;
  };
  grandmaster_priority1 = 128;
  grandmaster_priority2 = 128;
  parent_address = [];
  time_properties = properties;
  leap_second_in_progress = false;
  port_state = listening;
  log_announce_interval = pos 1;
  unicast_delay_resp_failures = pos 0;
  master_changes = 0;
  protocol_errors = 0;
  servo_resets = 0;
}

state_decision-never_slave_example :
    (state_decision (master 30 64) opts 2 (header_of 0) (announce_of 0 0) clock).0 ≢ slave
state_decision-never_slave_example =
    state_decision-never_slave (master 30 64) opts 2 (header_of 0) (announce_of 0 0) clock refl
      (omega arith)

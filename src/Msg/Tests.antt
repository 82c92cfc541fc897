-- ===== src/Msg/Tests.antt =====
-- A port that announces its clock, and the theorems on the messages at it.
use sfptpd.Prelude.{ℕ, ◌<◌, ◌≡◌, refl, arith, some, pos, ℤ, ◌-ℤ◌, ◌≤◌}
use sfptpd.Time.Defs.{Timespec}
use sfptpd.Foreign.Defs.{MsgAnnounce}
use sfptpd.Foreign.Tests.{master}
use sfptpd.Bmc.Clock.{Clock, slave, s1}
use sfptpd.Bmc.ClockTests.{clock, opts}
use sfptpd.Msg.Octets.{Octets}
use sfptpd.Msg.Header.{Port, Header, unpack_header}
use sfptpd.Msg.Event.{Timestamp, pack_sync, pack_delay_req, pack_pdelay_req}
use sfptpd.Msg.Announce.{pack_announce, unpack_announce}
use sfptpd.Msg.General.{
  pack_follow_up, pack_delay_resp, pack_pdelay_resp, pack_pdelay_resp_follow_up, unpack_follow_up,
  unpack_delay_resp,
}
use sfptpd.Msg.RoundTrip.{IsSized, Arrives, unpack-pack_announce}
use sfptpd.Msg.Follow.{received, Takes, s1-pack_announce}
use sfptpd.Msg.Stamps.{Fits, stamp_of, unpack-pack_follow_up, unpack-pack_delay_resp}
use sfptpd.Msg.Bounds.{
  IsPacked, pack_own-IsPacked, pack_stamped_messages-IsPacked, pack_pdelay_req-overruns,
}

abbrev port : Port
port = record {
  clock = clock;
  port_identity = record { clock_identity = 25; port_number = 1 };
  domain_number = 0;
  ptp_version_minor = 1;
  log_sync_interval = pos 0;
  log_min_delay_req_interval = pos 0;
  sent_sync_sequence_id = 11;
  sent_announce_sequence_id = 7;
  sent_delay_req_sequence_id = 0;
  sent_pdelay_req_sequence_id = 0;
}

port-IsSized : IsSized port
port-IsSized = omega arith

abbrev memory : Octets
memory = λ _. 170

unpack-pack_announce_example :
    (b' : Octets) × (pack_announce 1500 port memory ≡ some (some 64, b')) × Arrives 64 port b'
unpack-pack_announce_example = unpack-pack_announce 1500 port memory (omega arith) port-IsSized

abbrev follower : Clock
follower = record clock { port_state = slave }

follower-Takes : Takes follower opts
follower-Takes = record { is_slave_eq = refl; no_leap_second = refl; no_override = refl }

s1-pack_announce_example :
    (b' : Octets) × (h : Header) × (a : MsgAnnounce) × (pack_announce 64 port memory
      ≡ some (some 64, b'))
    × (unpack_header 64 b' ≡ some (some (34, h)))
    × (unpack_announce 64 b' ≡ some (some (30, record { seconds = 0; nanoseconds = 0 }, a)))
    × ((s1 (received (master 30 64) h.known a) follower opts).time_properties
        ≡ clock.time_properties)
    × ((s1 (received (master 30 64) h.known a) follower opts).grandmaster_identity ≡ 25)
    × ((s1 (received (master 30 64) h.known a) follower opts).steps_removed ≡ 1)
s1-pack_announce_example =
    s1-pack_announce (master 30 64) port follower opts memory port-IsSized follower-Takes

abbrev time : Timespec
time = record { sec = pos 1700000000; nsec = 5; nsec_frac = 65536 }

time-Fits : Fits 1700000000 time
time-Fits = record {
  sec = refl;
  seconds_lt = omega arith;
  nsec_lt = omega arith;
  frac_lt = omega arith;
}

abbrev stack : Timestamp × ℤ
stack = (record { seconds = 9; nanoseconds = 9 }, pos 9)

unpack-pack_follow_up_example :
    (b' : Octets) × (h : Header) × (pack_follow_up stack 1500 time port 11 memory
      ≡ some (some 44, b'))
    × (unpack_header 44 b' ≡ some (some (34, h)))
    × (unpack_follow_up 44 b' ≡ some (some (10, stamp_of 1700000000 time)))
    × (h.correction_field ≡ pos 1)
    × (h.known.sequence_id ≡ 11)
unpack-pack_follow_up_example =
    unpack-pack_follow_up stack 1500 1700000000 time port 11 memory (omega arith) time-Fits
      (omega arith)

-- The header of the Delay_Req that is answered.
abbrev request : Header
request = record {
  major_sdo_id = 0;
  message_type = 1;
  minor_version = 1;
  version = 2;
  message_length = 44;
  domain_number = 3;
  minor_sdo_id = 0;
  flag_field0 = 0;
  correction_field = pos 7;
  message_type_specific = 0;
  control_field = 1;
  known = record {
    source_port_identity = record { clock_identity = 40; port_number = 2 };
    flag_field1 = 0;
    sequence_id = 12;
    log_message_interval = pos 127;
  };
}

unpack-pack_delay_resp_example :
    (b' : Octets) × (h : Header) × (pack_delay_resp stack 1500 request time port memory
      ≡ some (some 54, b'))
    × (unpack_header 54 b' ≡ some (some (34, h)))
    × (unpack_delay_resp 54 b'
        ≡ some (some (20, stamp_of 1700000000 time, request.known.source_port_identity)))
    × (h.correction_field ≡ pos 7 -ℤ pos 1)
    × (h.known.sequence_id ≡ 12)
    × (h.domain_number ≡ 3)
unfolding ◌-ℤ◌
unpack-pack_delay_resp_example =
    unpack-pack_delay_resp stack 1500 1700000000 request time port memory (omega arith) time-Fits
      (omega arith) (omega arith) (omega arith) (omega arith) (omega arith)

pack_own-IsPacked_example :
    IsPacked 30 40 memory (pack_announce 40 port memory)
    × IsPacked 10 40 memory (pack_sync 40 port memory)
    × IsPacked 10 40 memory (pack_delay_req 40 port memory)
pack_own-IsPacked_example = pack_own-IsPacked 40 port memory

pack_stamped_messages-IsPacked_example :
    IsPacked 10 60 memory (pack_follow_up stack 60 time port 11 memory)
    × IsPacked 20 60 memory (pack_delay_resp stack 60 request time port memory)
    × IsPacked 20 60 memory (pack_pdelay_resp stack 60 request time port memory)
    × IsPacked 20 60 memory (pack_pdelay_resp_follow_up stack 60 request time port 11 memory)
pack_stamped_messages-IsPacked_example =
    pack_stamped_messages-IsPacked stack 60 request time port 11 memory (omega arith)

pack_pdelay_req-overruns_example :
    (b' : Octets) × (pack_pdelay_req 44 port memory ≡ some (some 44, b'))
    × ((j : ℕ) → 44 ≤ j → j < 54 → b' j ≡ 0)
pack_pdelay_req-overruns_example =
    pack_pdelay_req-overruns 44 port memory (omega arith) (omega arith)

-- ===== src/Msg/Header.antt =====
-- ptp/ptpd2/dep/msg.c: the header of a PTP message, with the types of ptp/ptpd2/datatypes.h. The
-- machine is little-endian, as the field messageTypeSpecific shows, which is not flipped. The calls
-- that only print are left out.
use sfptpd.Prelude.{
  ℕ, ◌+◌, ◌*◌, ◌/◌, ◌%◌, ◌&&◌, ◌||◌, Option, none, some, [], ◌∷◌, ◌==◌, ltb, replicate,
  if◌then◌else◌, bit_and, ℤ, ◌>>=◌,
}
use Prim.Native.Nat.{bit_or}
use sfptpd.Words.{s8, s64}
use sfptpd.Foreign.Defs.{PortIdentity, MsgHeader}
use sfptpd.Bmc.Clock.{Clock}
use sfptpd.Msg.Octets.{Octets, fill, be16, be64, u16_at, u64_at, check_length}

-- `PtpClock`, as far as the messages read it: the data sets of the clock, and the rest.
pub record Port : Type 0 where
  pub clock : Clock
  pub port_identity : PortIdentity
  pub domain_number : ℕ
  pub ptp_version_minor : ℕ
  pub log_sync_interval : ℤ
  pub log_min_delay_req_interval : ℤ
  pub sent_sync_sequence_id : ℕ
  pub sent_announce_sequence_id : ℕ
  pub sent_delay_req_sequence_id : ℕ
  pub sent_pdelay_req_sequence_id : ℕ

-- `MsgHeader`: `known` has the fields that the data set of foreign masters reads.
pub record Header : Type 0 where
  pub major_sdo_id : ℕ
  pub message_type : ℕ
  pub minor_version : ℕ
  pub version : ℕ
  pub message_length : ℕ
  pub domain_number : ℕ
  pub minor_sdo_id : ℕ
  pub flag_field0 : ℕ
  pub correction_field : ℤ
  pub message_type_specific : ℕ
  pub control_field : ℕ
  pub known : MsgHeader

-- PTPD_MSG_SYNC and so on, the values of `messageType`.
abbrev pub msg_sync : ℕ
msg_sync = 0

abbrev pub msg_delay_req : ℕ
msg_delay_req = 1

abbrev pub msg_pdelay_req : ℕ
msg_pdelay_req = 2

abbrev pub msg_pdelay_resp : ℕ
msg_pdelay_resp = 3

abbrev pub msg_follow_up : ℕ
msg_follow_up = 8

abbrev pub msg_delay_resp : ℕ
msg_delay_resp = 9

abbrev pub msg_pdelay_resp_follow_up : ℕ
msg_pdelay_resp_follow_up = 10

abbrev pub msg_announce : ℕ
msg_announce = 11

-- The fields that `msgUnpackHeader` reads.
unfoldable pub header_in : Octets → Header
header_in b = record {
  major_sdo_id = b 0 / 16;
  message_type = b 0 % 16;
  minor_version = b 1 / 16;
  version = b 1 % 16;
  message_length = u16_at 2 b;
  domain_number = b 4;
  minor_sdo_id = b 5;
  flag_field0 = b 6;
  correction_field = s64 (u64_at 8 b);
  message_type_specific = b 16 + 256 * b 17 + 65536 * b 18 + 16777216 * b 19;
  control_field = b 32;
  known = record {
    source_port_identity = record { clock_identity = u64_at 20 b; port_number = u16_at 28 b };
    flag_field1 = b 7;
    sequence_id = u16_at 30 b;
    log_message_interval = s8 (b 33);
  };
}

-- `msgUnpackHeader`.
unfoldable pub unpack_header : ℕ → Octets → Option (Option (ℕ × Header))
unfolding header_in
unpack_header length b = do
  result ← check_length 0 34 length (some 0)
  some (do n ← result; some (n, header_in b))

-- The octets that `msgPackHeader` writes.
unfoldable pub put_header : Port → ℕ → Octets → Octets
put_header p message_type b =
    let two_step =
      ((message_type == msg_sync) || (message_type == msg_pdelay_resp)) && p.clock.two_step_flag in
    let b = fill 0 (message_type % 256 ∷ (p.ptp_version_minor * 16 % 256 + 2) ∷ 0 ∷ 0 ∷ []) b in
    let b = fill 4 (p.domain_number ∷ 0 ∷ (if two_step then 2 else 0) ∷ 0 ∷ []) b in
    let b = fill 8 (replicate 12 0) b in
    let b = fill 20 (be64 p.port_identity.clock_identity) b in
    let b = fill 28 (be16 p.port_identity.port_number) b in fill 30 (0 ∷ 0 ∷ 0 ∷ 127 ∷ []) b

-- `msgPackHeader`: its result and the buffer.
unfoldable pub pack_header : ℕ → Port → ℕ → Octets → Option ℕ × Octets
unfolding put_header
pack_header space p message_type b =
    if ltb space 34 then (none, b) else (some 34, put_header p message_type b)

-- `msgUpdateHeaderSequenceId`.
unfoldable pub update_header_sequence_id : ℕ → Octets → Octets
update_header_sequence_id sequence_id b = fill 30 (be16 sequence_id) b

-- `msgUpdateHeaderFlags`.
unfoldable pub update_header_flags : ℕ → ℕ → Octets → Octets
update_header_flags mask value b = fill 6 (bit_or (bit_and (b 6) mask) value ∷ []) b

-- A message: the header, then `size` octets of a body at the offset 34 for which `put` writes what
-- is needed, the changes of the header among it.
unfoldable pub pack_body :
    ℕ → ℕ → ℕ → Port → (Octets → Octets) → Octets → Option (Option ℕ × Octets)
unfolding pack_header
pack_body message_type size space p put b =
    let (header, b') = pack_header space p message_type b in
    elim (check_length 34 size space header) [
      | none ↦ none
      | some none ↦ some (none, b')
      | some (some n) ↦ some (some n, put b')
    ]

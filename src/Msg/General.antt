-- ===== src/Msg/General.antt =====
-- ptp/ptpd2/dep/msg.c: the messages that carry a precise timestamp, Follow_Up, Delay_Resp,
-- PDelay_Resp and PDelay_Resp_Follow_Up, and `fromInternalTime` of ptp/ptpd2/arith.c.
use sfptpd.Prelude.{
  ℕ, ◌/◌, Bool, true, false, Option, none, some, [], ◌∷◌, replicate, ◌>>=◌, ltb, ltb_ℤ,
  if◌then◌else◌, ℤ, pos, ◌+ℤ◌, ◌-ℤ◌,
}
use sfptpd.Words.{u8, u64, int64}
use sfptpd.Time.Defs.{Timespec}
use sfptpd.Foreign.Defs.{PortIdentity}
use sfptpd.Msg.Octets.{Octets, fill, be16, be32, be48, be64, u16_at, u64_at, check_length}
use sfptpd.Msg.Header.{
  Port, Header, pack_header, msg_follow_up, msg_delay_resp, msg_pdelay_resp,
  msg_pdelay_resp_follow_up,
}
use sfptpd.Msg.Event.{Timestamp, unpack_timestamp}

-- `fromInternalTime`: the timestamp and the correction, or ERANGE.
unfoldable pub from_internal_time : Timespec → Option (Timestamp × ℤ)
from_internal_time t =
    if ltb_ℤ t.sec (pos 0)
    then none
    else some (record { seconds = u64 t.sec; nanoseconds = t.nsec }, pos (t.nsec_frac / 65536))

-- The correction of `msgSetPreciseTimestamp`, in int64_t.
abbrev pub total_correction : Bool → ℤ → ℤ → ℤ
total_correction subtract correction extra =
    int64 ((if subtract then int64 (pos 0 -ℤ correction) else correction) +ℤ extra)

-- What it writes.
abbrev pub put_timestamp : Timestamp → ℤ → Octets → Octets
put_timestamp t correction b =
    let b = fill 34 (be48 t.seconds) b in
    let b = fill 40 (be32 t.nanoseconds) b in fill 8 (be64 (u64 correction)) b

-- `msgSetPreciseTimestamp`: whether it succeeds, and the buffer. Where the time cannot be
-- converted, it writes what the stack held for the timestamp and the correction, `stack`.
unfoldable pub set_precise_timestamp :
    Timestamp × ℤ → ℕ → Timespec → Bool → ℤ → Octets → Bool × Octets
unfolding from_internal_time ◌+ℤ◌ ◌-ℤ◌ int64
set_precise_timestamp stack space time subtract extra b =
    if ltb space 44 then (false, b) else elim (from_internal_time time) [
      | none ↦ (false, put_timestamp stack.0 (total_correction subtract stack.1 extra) b)
      | some (t, correction) ↦
          (true, put_timestamp t (total_correction subtract correction extra) b)
    ]

-- What these messages write before the timestamp.
abbrev pub put_general : ℕ → ℕ → ℕ → ℕ → Octets → Octets
put_general message_length sequence_id control_field interval b =
    let b = fill 2 (be16 message_length) b in
    let b = fill 30 (be16 sequence_id) b in fill 32 (control_field ∷ interval ∷ []) b

-- The end of `msgPackFollowUp` and the others: the result is PACK_ERROR where the timestamp fails.
abbrev pub stamped : ℕ → (Octets → Octets) → Bool × Octets → Option ℕ × Octets
stamped n put (ok, b) = (if ok then some n else none, put b)

-- A message of `size` octets after the header, which `before` and `after` write but for the
-- timestamp and the correction.
unfoldable pub pack_stamped :
    ℕ
    → ℕ
    → ℕ
    → Port
    → (Octets → Octets)
    → (Octets → Bool × Octets)
    → (Octets → Octets)
    → Octets
    → Option (Option ℕ × Octets)
unfolding pack_header
pack_stamped message_type size space p before stamp after b =
    let (header, b') = pack_header space p message_type b in
    elim (check_length 34 size space header) [
      | none ↦ none
      | some none ↦ some (none, b')
      | some (some n) ↦ some (stamped n after (stamp (before b')))
    ]

-- `msgPackFollowUp`.
unfoldable pub pack_follow_up :
    Timestamp × ℤ → ℕ → Timespec → Port → ℕ → Octets → Option (Option ℕ × Octets)
unfolding pack_stamped set_precise_timestamp
pack_follow_up stack space time p sequence_id b =
    pack_stamped msg_follow_up 10 space p (put_general 44 sequence_id 2 (u8 p.log_sync_interval))
      (set_precise_timestamp stack space time false (pos 0)) (λ b. b) b

-- The identity of the port that asked.
abbrev pub put_requester : PortIdentity → Octets → Octets
put_requester port b = fill 52 (be16 port.port_number) (fill 44 (be64 port.clock_identity) b)

-- What the answers to a request with the header `h` write before the timestamp.
abbrev pub put_answer : ℕ → Header → ℕ → ℕ → Octets → Octets
put_answer message_length h control_field interval b =
    let b = fill 2 (be16 message_length) b in
    let b = fill 4 (h.domain_number ∷ []) b in
    let b = fill 8 (replicate 8 0) b in
    let b = fill 30 (be16 h.known.sequence_id) b in fill 32 (control_field ∷ interval ∷ []) b

-- `msgPackDelayResp`.
unfoldable pub pack_delay_resp :
    Timestamp × ℤ → ℕ → Header → Timespec → Port → Octets → Option (Option ℕ × Octets)
unfolding pack_stamped set_precise_timestamp
pack_delay_resp stack space h time p b =
    pack_stamped msg_delay_resp 20 space p (put_answer 54 h 3 (u8 p.log_min_delay_req_interval))
      (set_precise_timestamp stack space time true h.correction_field)
      (put_requester h.known.source_port_identity) b

-- `msgPackPDelayResp`.
unfoldable pub pack_pdelay_resp :
    Timestamp × ℤ → ℕ → Header → Timespec → Port → Octets → Option (Option ℕ × Octets)
unfolding pack_stamped set_precise_timestamp
pack_pdelay_resp stack space h time p b =
    pack_stamped msg_pdelay_resp 20 space p (put_answer 54 h 5 127)
      (set_precise_timestamp stack space time true (pos 0))
      (put_requester h.known.source_port_identity) b

-- `msgPackPDelayRespFollowUp`.
unfoldable pub pack_pdelay_resp_follow_up :
    Timestamp × ℤ → ℕ → Header → Timespec → Port → ℕ → Octets → Option (Option ℕ × Octets)
unfolding pack_stamped set_precise_timestamp
pack_pdelay_resp_follow_up stack space h time p sequence_id b =
    pack_stamped msg_pdelay_resp_follow_up 20 space p (put_general 54 sequence_id 5 127)
      (set_precise_timestamp stack space time false h.correction_field)
      (put_requester h.known.source_port_identity) b

-- `msgUnpackFollowUp`.
unfoldable pub unpack_follow_up : ℕ → Octets → Option (Option (ℕ × Timestamp))
unpack_follow_up length b = unpack_timestamp 10 length b

-- The timestamp and the identity of the port that asked.
abbrev pub unpack_answer : ℕ → Octets → Option (Option (ℕ × Timestamp × PortIdentity))
unpack_answer length b = do
  result ← unpack_timestamp 20 length b
  some (do
    answer ← result
    some (answer.0, answer.1, record { clock_identity = u64_at 44 b; port_number = u16_at 52 b }))

-- `msgUnpackDelayResp`, `msgUnpackPDelayResp` and `msgUnpackPDelayRespFollowUp`.
unfoldable pub unpack_delay_resp : ℕ → Octets → Option (Option (ℕ × Timestamp × PortIdentity))
unpack_delay_resp length b = unpack_answer length b

unfoldable pub unpack_pdelay_resp : ℕ → Octets → Option (Option (ℕ × Timestamp × PortIdentity))
unpack_pdelay_resp length b = unpack_answer length b

unfoldable pub unpack_pdelay_resp_follow_up :
    ℕ → Octets → Option (Option (ℕ × Timestamp × PortIdentity))
unpack_pdelay_resp_follow_up length b = unpack_answer length b

-- ===== src/Msg/Event.antt =====
-- ptp/ptpd2/dep/msg.c: the Sync, Delay_Req and PDelay_Req messages.
use sfptpd.Prelude.{ℕ, Option, some, [], ◌∷◌, replicate, ◌>>=◌}
use sfptpd.Words.{u8}
use sfptpd.Msg.Octets.{Octets, fill, be16, u32_at, u48_at, check_length}
use sfptpd.Msg.Header.{Port, pack_body, msg_sync, msg_delay_req, msg_pdelay_req}

-- `Timestamp`.
pub record Timestamp : Type 0 where
  pub seconds : ℕ
  pub nanoseconds : ℕ

-- What the three messages write: their length, sequence number, control field and interval, and a
-- zero for the timestamp and for the correction.
abbrev pub put_event : ℕ → ℕ → ℕ → ℕ → Octets → Octets
put_event message_length sequence_id control_field interval b =
    let b = fill 2 (be16 message_length) b in
    let b = fill 30 (be16 sequence_id) b in
    let b = fill 32 (control_field ∷ interval ∷ []) b in
    let b = fill 8 (replicate 8 0) b in fill 34 (replicate 10 0) b

-- `msgPackSync`.
unfoldable pub pack_sync : ℕ → Port → Octets → Option (Option ℕ × Octets)
unfolding pack_body
pack_sync space p b =
    pack_body msg_sync 10 space p (put_event 44 p.sent_sync_sequence_id 0 (u8 p.log_sync_interval))
      b

-- `msgPackDelayReq`.
unfoldable pub pack_delay_req : ℕ → Port → Octets → Option (Option ℕ × Octets)
unfolding pack_body
pack_delay_req space p b =
    pack_body msg_delay_req 10 space p (put_event 44 p.sent_delay_req_sequence_id 1 127) b

-- `msgPackPDelayReq`, which checks the space for ten octets of its body and writes twenty.
unfoldable pub pack_pdelay_req : ℕ → Port → Octets → Option (Option ℕ × Octets)
unfolding pack_body
pack_pdelay_req space p b =
    pack_body msg_pdelay_req 10 space p
      (λ b. fill 44 (replicate 10 0) (put_event 54 p.sent_pdelay_req_sequence_id 5 127 b)) b

-- The timestamp at the offset 34, after CHECK_INPUT_LENGTH for `size` octets.
abbrev pub unpack_timestamp : ℕ → ℕ → Octets → Option (Option (ℕ × Timestamp))
unpack_timestamp size length b = do
  result ← check_length 34 size length (some 0)
  some (do n ← result; some (n, record { seconds = u48_at 34 b; nanoseconds = u32_at 40 b }))

-- `msgUnpackSync`, `msgUnpackDelayReq` and `msgUnpackPDelayReq`.
unfoldable pub unpack_sync : ℕ → Octets → Option (Option (ℕ × Timestamp))
unpack_sync length b = unpack_timestamp 10 length b

unfoldable pub unpack_delay_req : ℕ → Octets → Option (Option (ℕ × Timestamp))
unpack_delay_req length b = unpack_timestamp 10 length b

unfoldable pub unpack_pdelay_req : ℕ → Octets → Option (Option (ℕ × Timestamp))
unpack_pdelay_req length b = unpack_timestamp 10 length b

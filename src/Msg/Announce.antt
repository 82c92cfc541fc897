-- ===== src/Msg/Announce.antt =====
-- ptp/ptpd2/dep/msg.c: the Announce message.
use sfptpd.Prelude.{ℕ, Bool, Option, some, [], ◌∷◌, replicate, ◌>>=◌, if◌then◌else◌}
use Prim.Native.Nat.{bit_or}
use sfptpd.Words.{u8, u16, s16}
use sfptpd.Foreign.Defs.{MsgAnnounce}
use sfptpd.Bmc.Clock.{TimeProperties}
use sfptpd.Msg.Octets.{Octets, fill, be16, be64, u16_at, u32_at, u48_at, u64_at, check_length}
use sfptpd.Msg.Header.{Port, pack_body, msg_announce}
use sfptpd.Msg.Event.{Timestamp}

abbrev pub or_flag : Bool → ℕ → ℕ → ℕ
or_flag b flag octet = if b then bit_or octet flag else octet

-- The flags that `msgPackAnnounce` sets in the octet 7, in its order.
abbrev pub announce_flags : TimeProperties → ℕ → ℕ
announce_flags t octet = or_flag t.frequency_traceable 32 (
    or_flag t.time_traceable 16 (
      or_flag t.ptp_timescale 8
        (or_flag t.current_utc_offset_valid 4 (or_flag t.leap61 1 (or_flag t.leap59 2 octet)))))

-- What `msgPackAnnounce` writes; the octet 46 stays.
unfoldable pub put_announce : Port → Octets → Octets
put_announce p b =
    let c = p.clock in
    let b = fill 2 (be16 64) b in
    let b = fill 30 (be16 p.sent_announce_sequence_id) b in
    let b = fill 32 (5 ∷ u8 c.log_announce_interval ∷ []) b in
    let b = fill 34 (replicate 10 0) b in
    let b = fill 44 (be16 (u16 c.time_properties.current_utc_offset)) b in
    let b =
      fill 47
        (c.grandmaster_priority1
          ∷ c.clock_quality.clock_class
          ∷ c.clock_quality.clock_accuracy
          ∷ be16 c.clock_quality.offset_scaled_log_variance)
        b in
    let b = fill 52 (c.grandmaster_priority2 ∷ be64 c.grandmaster_identity) b in
    let b = fill 61 (be16 c.steps_removed) b in
    let b = fill 63 (c.time_properties.time_source ∷ []) b in
    fill 7 (announce_flags c.time_properties (b 7) ∷ []) b

-- `msgPackAnnounce`.
unfoldable pub pack_announce : ℕ → Port → Octets → Option (Option ℕ × Octets)
unfolding pack_body put_announce
pack_announce space p b = pack_body msg_announce 30 space p (put_announce p) b

-- The fields that `msgUnpackAnnounce` reads, but for the timestamp.
unfoldable pub announce_in : Octets → MsgAnnounce
announce_in b = record {
  current_utc_offset = s16 (u16_at 44 b);
  grandmaster_priority1 = b 47;
  grandmaster_clock_quality = record {
    clock_class = b 48;
    clock_accuracy = b 49;
    offset_scaled_log_variance = u16_at 50 b;
  };
  grandmaster_priority2 = b 52;
  grandmaster_identity = u64_at 53 b;
  steps_removed = u16_at 61 b;
  time_source = b 63;
}

-- `msgUnpackAnnounce`: the timestamp and the rest.
unfoldable pub unpack_announce : ℕ → Octets → Option (Option (ℕ × Timestamp × MsgAnnounce))
unfolding announce_in
unpack_announce length b = do
  result ← check_length 34 30 length (some 0)
  some (do
    n ← result
    some (n, record { seconds = u48_at 34 b; nanoseconds = u32_at 40 b }, announce_in b))

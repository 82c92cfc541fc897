-- ===== src/Msg/RoundTrip.antt =====
-- What a receiver unpacks of the messages that ptp/ptpd2/dep/msg.c packs.
use sfptpd.Prelude.{ℕ, ◌+◌, ◌*◌, ◌/◌, ◌%◌, ◌≤◌, ◌<◌, ◌≡◌, refl, ap, ◌∙◌, arith, some, ℤ}
use sfptpd.Words.{IsInt8, IsInt16, s8-u8, s16-u16, two_64, s16, u16}
use sfptpd.Foreign.Defs.{MsgHeader, MsgAnnounce}
use sfptpd.Msg.Octets.{Octets, u16_at-be16, u64_at-be64, u48_at, u32_at}
use sfptpd.Msg.Header.{
  Port, Header, pack_header, put_header, pack_body, unpack_header, header_in, msg_announce,
}
use sfptpd.Msg.Announce.{announce_flags, put_announce, pack_announce, unpack_announce, announce_in}

-- The fields of a port lie in the ranges of their types.
pub record IsSized (p : Port) : Type 0 where
  pub sequence : p.sent_announce_sequence_id < 65536
  pub interval : IsInt8 p.clock.log_announce_interval
  pub identity : p.port_identity.clock_identity < two_64
  pub number : p.port_identity.port_number < 65536
  pub offset : IsInt16 p.clock.time_properties.current_utc_offset
  pub variance : p.clock.clock_quality.offset_scaled_log_variance < 65536
  pub grandmaster : p.clock.grandmaster_identity < two_64
  pub steps : p.clock.steps_removed < 65536

-- The announcement of a port, from its data sets.
abbrev pub announce_of : Port → MsgAnnounce
announce_of p =
    let c = p.clock in
    record {
      current_utc_offset = c.time_properties.current_utc_offset;
      grandmaster_priority1 = c.grandmaster_priority1;
      grandmaster_clock_quality = c.clock_quality;
      grandmaster_priority2 = c.grandmaster_priority2;
      grandmaster_identity = c.grandmaster_identity;
      steps_removed = c.steps_removed;
      time_source = c.time_properties.time_source;
    }

abbrev pub known_of : Port → MsgHeader
known_of p = record {
  source_port_identity = p.port_identity;
  flag_field1 = announce_flags p.clock.time_properties 0;
  sequence_id = p.sent_announce_sequence_id;
  log_message_interval = p.clock.log_announce_interval;
}

-- The buffer of an Announce message.
abbrev announced : Port → Octets → Octets
announced p b = put_announce p (put_header p 11 b)

s16_of : (z : ℤ) → IsInt16 z → s16 (u16 z / 256 % 256 * 256 + u16 z % 256) ≡ z
s16_of z h = ap s16 (u16_at-be16 (u16 z) (s16-u16 z h).1) ∙ (s16-u16 z h).0

pack_announce-some :
    (space : ℕ) (p : Port) (b : Octets)
    → 64 ≤ space
    → pack_announce space p b ≡ some (some 64, announced p b)
unfolding pack_announce pack_body pack_header
pack_announce-some space p b h = ground arith

announce_in-announced :
    (p : Port) (b : Octets) → IsSized p → announce_in (announced p b) ≡ announce_of p
unfolding announce_in put_announce
announce_in-announced p b s i = record {
  current_utc_offset = s16_of p.clock.time_properties.current_utc_offset s.offset i;
  grandmaster_priority1 = p.clock.grandmaster_priority1;
  grandmaster_clock_quality = record {
    clock_class = p.clock.clock_quality.clock_class;
    clock_accuracy = p.clock.clock_quality.clock_accuracy;
    offset_scaled_log_variance =
        u16_at-be16 p.clock.clock_quality.offset_scaled_log_variance s.variance i;
  };
  grandmaster_priority2 = p.clock.grandmaster_priority2;
  grandmaster_identity = u64_at-be64 p.clock.grandmaster_identity s.grandmaster i;
  steps_removed = u16_at-be16 p.clock.steps_removed s.steps i;
  time_source = p.clock.time_properties.time_source;
}

known_in-announced :
    (p : Port) (b : Octets) → IsSized p → (header_in (announced p b)).known ≡ known_of p
unfolding header_in put_announce put_header
known_in-announced p b s i = record {
  source_port_identity = record {
    clock_identity = u64_at-be64 p.port_identity.clock_identity s.identity i;
    port_number = u16_at-be16 p.port_identity.port_number s.number i;
  };
  flag_field1 = announce_flags p.clock.time_properties 0;
  sequence_id = u16_at-be16 p.sent_announce_sequence_id s.sequence i;
  log_message_interval = s8-u8 p.clock.log_announce_interval s.interval i;
}

unpack_announce-some :
    (length : ℕ) (b : Octets)
    → 64 ≤ length
    → u48_at 34 b ≡ 0
    → u32_at 40 b ≡ 0
    → unpack_announce length b
      ≡ some (some (30, record { seconds = 0; nanoseconds = 0 }, announce_in b))
unfolding unpack_announce
unpack_announce-some length b h e e' = ground (arith, e, e')

unpack_header-some :
    (length : ℕ) (b : Octets) → 34 ≤ length → unpack_header length b ≡ some (some (34, header_in b))
unfolding unpack_header
unpack_header-some length b h = ground arith

-- What a receiver unpacks of a message of `length` octets.
pub record Arrives (length : ℕ) (p : Port) (b : Octets) : Type 0 where
  pub header : Header
  pub unpack_header_eq : unpack_header length b ≡ some (some (34, header))
  pub is_announce : header.message_type ≡ msg_announce
  pub known : header.known ≡ known_of p
  pub length_eq : header.message_length ≡ length
  pub domain : header.domain_number ≡ p.domain_number
  pub body :
      unpack_announce length b
      ≡ some (some (30, record { seconds = 0; nanoseconds = 0 }, announce_of p))

-- With 64 octets of space, an Announce message of a port with fields in the ranges of their types
-- unpacks, from a buffer of its length, to the announcement of the data sets of the port with a
-- zero timestamp, and its header to that message type, the length of the message, the domain, the
-- identity of the port, the sequence number, the flags of the time properties and the announce
-- interval.
pub unpack-pack_announce :
    (space : ℕ) (p : Port) (b : Octets)
    → 64 ≤ space
    → IsSized p
    → (b' : Octets) × (pack_announce space p b ≡ some (some 64, b')) × Arrives 64 p b'
unfolding header_in put_announce put_header
unpack-pack_announce space p b h s = (
  announced p b,
  pack_announce-some space p b h,
  record {
    header = header_in (announced p b);
    unpack_header_eq = unpack_header-some 64 (announced p b) (omega arith);
    is_announce = refl;
    known = known_in-announced p b s;
    length_eq = refl;
    domain = refl;
    body =
        unpack_announce-some 64 (announced p b) (omega arith) refl refl
        ∙ ap (λ a. some (some (30, record { seconds = 0; nanoseconds = 0 }, a)))
            (announce_in-announced p b s);
  },
)

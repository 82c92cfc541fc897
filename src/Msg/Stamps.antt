-- ===== src/Msg/Stamps.antt =====
-- What a receiver unpacks of the precise timestamps that ptp/ptpd2/dep/msg.c packs.
use sfptpd.Prelude.{
  ℕ, ◌+◌, ◌*◌, ◌/◌, ◌%◌, ◌≤◌, ◌<◌, ◌≡◌, refl, ap, ◌∙◌, arith, true, false, some, ℤ, pos, ◌-ℤ◌, ◌+ℤ◌,
  int_laws, eq_of_parts,
}
use sfptpd.Words.{two_32, two_64, u64, s64, int64, int64_id, s64-u64, IsInt64, u8}
use sfptpd.Time.Defs.{Timespec}
use sfptpd.Msg.Octets.{
  Octets, u16_at-be16, u32_at-be32, u48_at-be48, u64_at-be64, be64, fill, u64_at,
}
use sfptpd.Msg.Header.{Port, Header, put_header, pack_header, unpack_header, header_in}
use sfptpd.Msg.Event.{Timestamp}
use sfptpd.Msg.General.{
  from_internal_time, set_precise_timestamp, total_correction, put_timestamp, put_general,
  put_answer, put_requester, pack_stamped, pack_follow_up, pack_delay_resp, unpack_follow_up,
  unpack_delay_resp,
}

-- A time that the timestamp of a message can hold, of `seconds` seconds.
pub record Fits (seconds : ℕ) (t : Timespec) : Type 0 where
  pub sec : t.sec ≡ pos seconds
  pub seconds_lt : seconds < 281474976710656
  pub nsec_lt : t.nsec < two_32
  pub frac_lt : t.nsec_frac < two_32

abbrev pub stamp_of : ℕ → Timespec → Timestamp
stamp_of seconds t = record { seconds = seconds; nanoseconds = t.nsec }

abbrev pub fraction_of : Timespec → ℤ
fraction_of t = pos (t.nsec_frac / 65536)

-- The buffer of a Follow_Up message.
abbrev followed : ℕ → Timespec → Port → ℕ → Octets → Octets
followed seconds t p n b =
    put_timestamp (stamp_of seconds t) (fraction_of t)
      (put_general 44 n 2 (u8 p.log_sync_interval) (put_header p 8 b))

from_internal_time-some :
    (seconds : ℕ) (t : Timespec)
    → Fits seconds t
    → from_internal_time t ≡ some (stamp_of seconds t, fraction_of t)
unfolding from_internal_time u64
from_internal_time-some seconds t f = ground arith

total_plain :
    (t : Timespec)
    → t.nsec_frac < two_32
    → total_correction false (fraction_of t) (pos 0) ≡ fraction_of t
unfolding ◌+ℤ◌
total_plain t h = int64_id (fraction_of t +ℤ pos 0) (ground arith) ∙ (ground arith)

pack_follow_up-some :
    (stack : Timestamp × ℤ) (space seconds : ℕ) (t : Timespec) (p : Port) (n : ℕ) (b : Octets)
    → 44 ≤ space
    → Fits seconds t
    → pack_follow_up stack space t p n b ≡ some (some 44, followed seconds t p n b)
unfolding pack_follow_up pack_stamped pack_header set_precise_timestamp
pack_follow_up-some stack space seconds t p n b h f =
    ground (arith, from_internal_time-some seconds t f, total_plain t f.frac_lt)

stamp_at :
    (seconds : ℕ) (t : Timespec)
    → Fits seconds t
    → ◌≡◌ {A = Timestamp}
        (record {
          seconds =
              (seconds / 1099511627776 % 256 * 256 + seconds / 4294967296 % 256) * 4294967296
              + ((seconds / 16777216 % 256 * 256 + seconds / 65536 % 256) * 65536
                  + (seconds / 256 % 256 * 256 + seconds % 256));
          nanoseconds =
              (t.nsec / 16777216 % 256 * 256 + t.nsec / 65536 % 256) * 65536
              + (t.nsec / 256 % 256 * 256 + t.nsec % 256);
        })
        (stamp_of seconds t)
stamp_at seconds t f i = record {
  seconds = u48_at-be48 seconds f.seconds_lt i;
  nanoseconds = u32_at-be32 t.nsec f.nsec_lt i;
}

correction_at : (z : ℤ) → IsInt64 z → s64 (u64_at 8 (fill 8 (be64 (u64 z)) (λ _. 0))) ≡ z
correction_at z h = ap s64 (u64_at-be64 (u64 z) (s64-u64 z h).1) ∙ (s64-u64 z h).0

-- With 44 octets of space and a time that the timestamp can hold, a Follow_Up unpacks to that time
-- in nanoseconds, with the fraction of the nanosecond in units of 2^-16 ns as the correction of its
-- header, and with the sequence number that was given.
pub unpack-pack_follow_up :
    (stack : Timestamp × ℤ) (space seconds : ℕ) (t : Timespec) (p : Port) (n : ℕ) (b : Octets)
    → 44 ≤ space
    → Fits seconds t
    → n < 65536
    → (b' : Octets) × (h : Header) × (pack_follow_up stack space t p n b ≡ some (some 44, b'))
      × (unpack_header 44 b' ≡ some (some (34, h)))
      × (unpack_follow_up 44 b' ≡ some (some (10, stamp_of seconds t)))
      × (h.correction_field ≡ fraction_of t)
      × (h.known.sequence_id ≡ n)
unfolding unpack_header unpack_follow_up header_in put_header
unpack-pack_follow_up stack space seconds t p n b h f l = (
  followed seconds t p n b,
  header_in (followed seconds t p n b),
  pack_follow_up-some stack space seconds t p n b h f,
  refl,
  ap (λ u. some (some (10, u))) (stamp_at seconds t f),
  correction_at (fraction_of t) (ground (arith, f.frac_lt)),
  u16_at-be16 n l,
)

minus_fraction :
    (t : Timespec) → t.nsec_frac < two_32 → int64 (pos 0 -ℤ fraction_of t) ≡ pos 0 -ℤ fraction_of t
unfolding ◌-ℤ◌
minus_fraction t h = int64_id (pos 0 -ℤ fraction_of t) (ground arith)

total_minus :
    (z : ℤ) (t : Timespec)
    → t.nsec_frac < two_32
    → IsInt64 (z -ℤ fraction_of t)
    → total_correction true (fraction_of t) z ≡ z -ℤ fraction_of t
total_minus z t h d =
    ap (λ m. int64 (m +ℤ z)) (minus_fraction t h)
    ∙ ap int64 (eq_of_parts ((pos 0 -ℤ fraction_of t) +ℤ z) (z -ℤ fraction_of t) (omega int_laws))
    ∙ int64_id (z -ℤ fraction_of t) d

-- The buffer of a Delay_Resp message.
abbrev answered : ℕ → Header → Timespec → Port → Octets → Octets
answered seconds q t p b = put_requester q.known.source_port_identity (
    put_timestamp (stamp_of seconds t) (q.correction_field -ℤ fraction_of t)
      (put_answer 54 q 3 (u8 p.log_min_delay_req_interval) (put_header p 9 b)))

pack_delay_resp-some :
    (stack : Timestamp × ℤ) (space seconds : ℕ) (q : Header) (t : Timespec) (p : Port) (b : Octets)
    → 54 ≤ space
    → Fits seconds t
    → IsInt64 (q.correction_field -ℤ fraction_of t)
    → pack_delay_resp stack space q t p b ≡ some (some 54, answered seconds q t p b)
unfolding pack_delay_resp pack_stamped pack_header set_precise_timestamp
pack_delay_resp-some stack space seconds q t p b h f d =
    ground
      (arith, from_internal_time-some seconds t f, total_minus q.correction_field t f.frac_lt d)

-- With 54 octets of space and a time that the timestamp can hold, a Delay_Resp that answers a
-- Delay_Req with header fields in the ranges of their types unpacks to that time in nanoseconds,
-- the identity of the port that asked, and a header with its sequence number and domain and with
-- its correction less the fraction of the nanosecond in units of 2^-16 ns, where that difference is
-- an int64_t.
pub unpack-pack_delay_resp :
    (stack : Timestamp × ℤ) (space seconds : ℕ) (q : Header) (t : Timespec) (p : Port) (b : Octets)
    → 54 ≤ space
    → Fits seconds t
    → IsInt64 q.correction_field
    → IsInt64 (q.correction_field -ℤ fraction_of t)
    → q.known.sequence_id < 65536
    → q.known.source_port_identity.clock_identity < two_64
    → q.known.source_port_identity.port_number < 65536
    → (b' : Octets) × (h : Header) × (pack_delay_resp stack space q t p b ≡ some (some 54, b'))
      × (unpack_header 54 b' ≡ some (some (34, h)))
      × (unpack_delay_resp 54 b'
          ≡ some (some (20, stamp_of seconds t, q.known.source_port_identity)))
      × (h.correction_field ≡ q.correction_field -ℤ fraction_of t)
      × (h.known.sequence_id ≡ q.known.sequence_id)
      × (h.domain_number ≡ q.domain_number)
unfolding unpack_header unpack_delay_resp header_in put_header
unpack-pack_delay_resp stack space seconds q t p b h f c d l m o = (
  answered seconds q t p b,
  header_in (answered seconds q t p b),
  pack_delay_resp-some stack space seconds q t p b h f d,
  refl,
  λ i. some (
      some (
        20,
        stamp_at seconds t f i,
        record {
          clock_identity = u64_at-be64 q.known.source_port_identity.clock_identity m i;
          port_number = u16_at-be16 q.known.source_port_identity.port_number o i;
        },
      )),
  correction_at (q.correction_field -ℤ fraction_of t) d,
  u16_at-be16 q.known.sequence_id l,
  refl,
)

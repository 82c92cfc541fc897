-- ===== src/Msg/Bounds.antt =====
-- What the packing functions of ptp/ptpd2/dep/msg.c answer for each size of the buffer, and which
-- octets they leave alone.
use sfptpd.Prelude.{
  ℕ, ◌+◌, ◌/◌, ◌≤◌, ◌<◌, ◌≡◌, refl, ◌∙◌, arith, Bool, true, false, Option, none, some, List, [],
  ◌∷◌, replicate, length, if◌then◌else◌, ◌≤ℤ◌, ℤ, pos, ◌==◌,
}
use sfptpd.Words.{u8, u64}
use sfptpd.Time.Defs.{Timespec}
use sfptpd.Foreign.Defs.{PortIdentity}
use sfptpd.Msg.Octets.{Octets, fill}
use sfptpd.Msg.Header.{Port, Header, put_header, pack_header, pack_body}
use sfptpd.Msg.Event.{Timestamp, put_event, pack_sync, pack_delay_req, pack_pdelay_req}
use sfptpd.Msg.Announce.{put_announce, pack_announce}
use sfptpd.Msg.General.{
  from_internal_time, set_precise_timestamp, total_correction, put_timestamp, put_general,
  put_answer, put_requester, pack_stamped, pack_follow_up, pack_delay_resp, pack_pdelay_resp,
  pack_pdelay_resp_follow_up,
}

-- The octets from `n` on are those of before.
abbrev pub KeepsFrom : ℕ → Octets → Octets → Type 0
KeepsFrom n b b' = (j : ℕ) → n ≤ j → b' j ≡ b j

fill_out : (i : ℕ) (vs : List ℕ) (b : Octets) → KeepsFrom (i + length vs) b (fill i vs b)
fill_out i [] b j h = refl
fill_out i (v ∷ vs) b j h =
    fill_out (i + 1) vs (λ j. if j == i then v else b j) j (omega arith) ∙ (ground arith)

put_header-KeepsFrom : (p : Port) (m : ℕ) (b : Octets) → KeepsFrom 34 b (put_header p m b)
unfolding put_header
put_header-KeepsFrom p m b j h = ground arith

put_announce-KeepsFrom : (p : Port) (b : Octets) → KeepsFrom 64 b (put_announce p b)
unfolding put_announce
put_announce-KeepsFrom p b j h = ground arith

put_event-KeepsFrom : (m n c i : ℕ) (b : Octets) → KeepsFrom 44 b (put_event m n c i b)
put_event-KeepsFrom m n c i b j h = ground arith

-- The octets that a call leaves in the buffer.
abbrev buffer : Octets → Option (Option ℕ × Octets) → Octets
buffer b none = b
buffer b (some (r, b')) = b'

-- The outcome of packing a message with `size` octets after the header into a buffer of `space`:
-- an assertion fails where the header does not fit, the result is PACK_ERROR where the rest does
-- not, and else the length, and the buffer is as before from `space` on.
pub record IsPacked (size space : ℕ) (b : Octets) (o : Option (Option ℕ × Octets)) : Type 0 where
  pub asserts : space < 34 → o ≡ none
  pub lacks : 34 ≤ space → space < 34 + size → (b' : Octets) × (o ≡ some (none, b'))
  pub fits : 34 + size ≤ space → (b' : Octets) × (o ≡ some (some (34 + size), b'))
  pub within : KeepsFrom space b (buffer b o)

pack_body-IsPacked :
    (m size space : ℕ) (p : Port) (put : Octets → Octets) (b : Octets)
    → ((b' : Octets) → KeepsFrom (34 + size) b' (put b'))
    → IsPacked size space b (pack_body m size space p put b)
unfolding pack_body pack_header
pack_body-IsPacked m size space p put b k = record {
  asserts = λ h. ground arith;
  lacks = λ h h'. (put_header p m b, ground arith);
  fits = λ h. (put (put_header p m b), ground arith);
  within = λ j h. ground (arith, k (put_header p m b) j, put_header-KeepsFrom p m b j);
}

pack_stamped-IsPacked :
    (m size space : ℕ) (p : Port) (before after : Octets → Octets) (stamp : Octets → Bool × Octets)
    (b : Octets)
    → ((b' : Octets) → 34 + size ≤ space → (stamp b').0 ≡ true)
    → ((b' : Octets) → KeepsFrom (34 + size) b' (before b'))
    → ((b' : Octets) → KeepsFrom (34 + size) b' (after b'))
    → ((b' : Octets) → KeepsFrom (34 + size) b' (stamp b').1)
    → IsPacked size space b (pack_stamped m size space p before stamp after b)
unfolding pack_stamped pack_header
pack_stamped-IsPacked m size space p before after stamp b ok k k' k'' = record {
  asserts = λ h. ground arith;
  lacks = λ h h'. (put_header p m b, ground arith);
  fits = λ h.
      (after (stamp (before (put_header p m b))).1, ground (arith, ok (before (put_header p m b))));
  within = λ j h. ground (
    arith,
    ok (before (put_header p m b)),
    put_header-KeepsFrom p m b j,
    k (put_header p m b) j,
    k'' (before (put_header p m b)) j,
    k' (stamp (before (put_header p m b))).1 j,
  );
}

stamp-ok :
    (stack : Timestamp × ℤ) (space : ℕ) (t : Timespec) (subtract : Bool) (extra : ℤ) (b : Octets)
    → pos 0 ≤ℤ t.sec
    → 44 ≤ space
    → (set_precise_timestamp stack space t subtract extra b).0 ≡ true
unfolding set_precise_timestamp from_internal_time
stamp-ok stack space t subtract extra b h h' = ground arith

put_timestamp-KeepsFrom :
    (t : Timestamp) (c : ℤ) (b : Octets) → KeepsFrom 44 b (put_timestamp t c b)
put_timestamp-KeepsFrom t c b j h = ground arith

stamp-KeepsFrom :
    (stack : Timestamp × ℤ) (space : ℕ) (t : Timespec) (subtract : Bool) (extra : ℤ) (b : Octets)
    → KeepsFrom 44 b (set_precise_timestamp stack space t subtract extra b).1
unfolding set_precise_timestamp from_internal_time
stamp-KeepsFrom stack space t subtract extra b j h =
    let ts : Timestamp = record { seconds = u64 t.sec; nanoseconds = t.nsec } in
    ground (
      arith,
      put_timestamp-KeepsFrom stack.0 (total_correction subtract stack.1 extra) b j,
      put_timestamp-KeepsFrom ts (total_correction subtract (pos (t.nsec_frac / 65536)) extra) b j,
    )

put_general-KeepsFrom : (m n c i : ℕ) (b : Octets) → KeepsFrom 44 b (put_general m n c i b)
put_general-KeepsFrom m n c i b j h = ground arith

put_answer-KeepsFrom :
    (m : ℕ) (h : Header) (c i : ℕ) (b : Octets) → KeepsFrom 44 b (put_answer m h c i b)
put_answer-KeepsFrom m h c i b j l = ground arith

put_general-upto : (m n c i : ℕ) (b : Octets) → KeepsFrom 54 b (put_general m n c i b)
put_general-upto m n c i b j l = put_general-KeepsFrom m n c i b j (omega arith)

put_answer-upto :
    (m : ℕ) (h : Header) (c i : ℕ) (b : Octets) → KeepsFrom 54 b (put_answer m h c i b)
put_answer-upto m h c i b j l = put_answer-KeepsFrom m h c i b j (omega arith)

put_requester-KeepsFrom : (port : PortIdentity) (b : Octets) → KeepsFrom 54 b (put_requester port b)
put_requester-KeepsFrom port b j h = ground arith

-- Packing an Announce, a Sync or a Delay_Req fails an assertion where the buffer has no space for
-- the header, returns PACK_ERROR where it has none for the rest, and else returns the length of the
-- message; no octet past the space is changed.
pub pack_own-IsPacked :
    (space : ℕ) (p : Port) (b : Octets)
    → IsPacked 30 space b (pack_announce space p b)
      × IsPacked 10 space b (pack_sync space p b)
      × IsPacked 10 space b (pack_delay_req space p b)
unfolding pack_announce pack_sync pack_delay_req
pack_own-IsPacked space p b = (
  pack_body-IsPacked 11 30 space p (put_announce p) b (put_announce-KeepsFrom p),
  pack_body-IsPacked 0 10 space p _ b
      (put_event-KeepsFrom 44 p.sent_sync_sequence_id 0 (u8 p.log_sync_interval)),
  pack_body-IsPacked 1 10 space p _ b (put_event-KeepsFrom 44 p.sent_delay_req_sequence_id 1 127),
)

-- For a time that is not negative, packing a Follow_Up, a Delay_Resp, a PDelay_Resp or a
-- PDelay_Resp_Follow_Up fails an assertion where the buffer has no space for the header, returns
-- PACK_ERROR where it has none for the rest, and else returns the length of the message; no octet
-- past the space is changed.
pub pack_stamped_messages-IsPacked :
    (stack : Timestamp × ℤ) (space : ℕ) (h : Header) (t : Timespec) (p : Port) (n : ℕ) (b : Octets)
    → pos 0 ≤ℤ t.sec
    → IsPacked 10 space b (pack_follow_up stack space t p n b)
      × IsPacked 20 space b (pack_delay_resp stack space h t p b)
      × IsPacked 20 space b (pack_pdelay_resp stack space h t p b)
      × IsPacked 20 space b (pack_pdelay_resp_follow_up stack space h t p n b)
unfolding pack_follow_up pack_delay_resp pack_pdelay_resp pack_pdelay_resp_follow_up
pack_stamped_messages-IsPacked stack space h t p n b s = (
  pack_stamped-IsPacked 8 10 space p _ _ _ b (λ b' l. stamp-ok stack space t false (pos 0) b' s l)
      (put_general-KeepsFrom 44 n 2 (u8 p.log_sync_interval)) (λ b' j l. refl)
      (stamp-KeepsFrom stack space t false (pos 0)),
  pack_stamped-IsPacked 9 20 space p _ _ _ b
      (λ b' l. stamp-ok stack space t true h.correction_field b' s (omega arith))
      (put_answer-upto 54 h 3 (u8 p.log_min_delay_req_interval))
      (put_requester-KeepsFrom h.known.source_port_identity)
      (λ b' j l. stamp-KeepsFrom stack space t true h.correction_field b' j (omega arith)),
  pack_stamped-IsPacked 3 20 space p _ _ _ b
      (λ b' l. stamp-ok stack space t true (pos 0) b' s (omega arith)) (put_answer-upto 54 h 5 127)
      (put_requester-KeepsFrom h.known.source_port_identity)
      (λ b' j l. stamp-KeepsFrom stack space t true (pos 0) b' j (omega arith)),
  pack_stamped-IsPacked 10 20 space p _ _ _ b
      (λ b' l. stamp-ok stack space t false h.correction_field b' s (omega arith))
      (put_general-upto 54 n 5 127) (put_requester-KeepsFrom h.known.source_port_identity)
      (λ b' j l. stamp-KeepsFrom stack space t false h.correction_field b' j (omega arith)),
)

-- In a buffer with space for 44 octets and not for 54, msgPackPDelayReq returns 44 and sets the
-- octets from the end of the space to the fifty-fourth to 0.
pub pack_pdelay_req-overruns :
    (space : ℕ) (p : Port) (b : Octets)
    → 44 ≤ space
    → space < 54
    → (b' : Octets) × (pack_pdelay_req space p b ≡ some (some 44, b'))
      × ((j : ℕ) → space ≤ j → j < 54 → b' j ≡ 0)
unfolding pack_pdelay_req pack_body pack_header
pack_pdelay_req-overruns space p b h h' = (
  fill 44 (replicate 10 0) (put_event 54 p.sent_pdelay_req_sequence_id 5 127 (put_header p 2 b)),
  ground arith,
  λ j l l'. ground arith,
)

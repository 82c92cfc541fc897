-- ===== src/Msg/Follow.antt =====
-- The way of the time properties from a master through its Announce message to a slave.
use Prim.Native.Nat.{bit_and}
use sfptpd.Prelude.{
  ℕ, ◌≡◌, refl, ap, sym, ◌∙◌, arith, Bool, true, false, ◌&&◌, not, some, ◌==◌, if◌then◌else◌, ◌%◌,
  ◌+◌,
}
use sfptpd.Foreign.Defs.{ForeignMaster, MsgHeader, MsgAnnounce}
use sfptpd.Bmc.Clock.{Clock, TimeProperties, RunTimeOpts, slave, is_slave, s1}
use sfptpd.Msg.Octets.{Octets}
use sfptpd.Msg.Header.{Port, Header, unpack_header}
use sfptpd.Msg.Announce.{announce_flags, or_flag, pack_announce, unpack_announce}
use sfptpd.Msg.RoundTrip.{IsSized, known_of, announce_of, unpack-pack_announce}

abbrev same : Bool → Bool → Bool
same true b = b
same false b = not b

same-eq : (a b : Bool) → same a b ≡ true → a ≡ b
same-eq true b h = sym h
same-eq false true h = cc
same-eq false false h = refl

abbrev both : (Bool → Bool) → Bool
both f = f true && f false

both_lem : (f : Bool → Bool) (b : Bool) → both f ≡ true → f b ≡ true
both_lem f true h = ground arith
both_lem f false h = ground arith

-- The flags of six Booleans, in the order of `announce_flags`.
abbrev flags : Bool → Bool → Bool → Bool → Bool → Bool → ℕ
flags a b c d e f =
    or_flag a 32 (or_flag b 16 (or_flag c 8 (or_flag d 4 (or_flag e 1 (or_flag f 2 0)))))

abbrev has : ℕ → ℕ → Bool
has v flag = bit_and v flag == flag

abbrev row : Bool → Bool → Bool → Bool → Bool → Bool → Bool
row a b c d e f =
    let v = flags a b c d e f in
    same (has v 32) a
    && (same (has v 16) b
        && (same (has v 8) c && (same (has v 4) d && (same (has v 1) e && same (has v 2) f))))

row_table :
    both (λ a. both (λ b. both (λ c. both (λ d. both (λ e. both (λ f. row a b c d e f)))))) ≡ true
row_table = refl

row_lem : (a b c d e f : Bool) → row a b c d e f ≡ true
row_lem a b c d e f =
    both_lem (λ f. row a b c d e f) f
      (both_lem (λ e. both (λ f. row a b c d e f)) e
        (both_lem (λ d. both (λ e. both (λ f. row a b c d e f))) d
          (both_lem (λ c. both (λ d. both (λ e. both (λ f. row a b c d e f)))) c
            (both_lem (λ b. both (λ c. both (λ d. both (λ e. both (λ f. row a b c d e f))))) b
              (both_lem
                (λ a. both (λ b. both (λ c. both (λ d. both (λ e. both (λ f. row a b c d e f)))))) a
                row_table)))))

-- The flags that are read are those that were set.
record Reads (t : TimeProperties) (v : ℕ) : Type 0 where
  frequency : has v 32 ≡ t.frequency_traceable
  time : has v 16 ≡ t.time_traceable
  timescale : has v 8 ≡ t.ptp_timescale
  utc_valid : has v 4 ≡ t.current_utc_offset_valid
  leap61 : has v 1 ≡ t.leap61
  leap59 : has v 2 ≡ t.leap59

&&-left : (a b : Bool) → (a && b) ≡ true → a ≡ true
&&-left true b h = refl
&&-left false b h = h

&&-right : (a b : Bool) → (a && b) ≡ true → b ≡ true
&&-right true b h = h
&&-right false b h = cc

announce_flags-Reads : (t : TimeProperties) → Reads t (announce_flags t 0)
announce_flags-Reads t =
    let v : ℕ = announce_flags t 0 in
    let r1 =
      row_lem t.frequency_traceable t.time_traceable t.ptp_timescale t.current_utc_offset_valid
        t.leap61 t.leap59 in
    let r2 = &&-right (same (has v 32) t.frequency_traceable) _ r1 in
    let r3 = &&-right (same (has v 16) t.time_traceable) _ r2 in
    let r4 = &&-right (same (has v 8) t.ptp_timescale) _ r3 in
    let r5 = &&-right (same (has v 4) t.current_utc_offset_valid) _ r4 in
    record {
      frequency = same-eq _ _ (&&-left (same (has v 32) t.frequency_traceable) _ r1);
      time = same-eq _ _ (&&-left (same (has v 16) t.time_traceable) _ r2);
      timescale = same-eq _ _ (&&-left (same (has v 8) t.ptp_timescale) _ r3);
      utc_valid = same-eq _ _ (&&-left (same (has v 4) t.current_utc_offset_valid) _ r4);
      leap61 = same-eq _ _ (&&-left (same (has v 1) t.leap61) _ r5);
      leap59 = same-eq _ _ (&&-right (same (has v 1) t.leap61) _ r5);
    }

-- The record of a foreign master with the header and the announcement that were received.
abbrev pub received :
    {Time : Type 0} → ForeignMaster Time → MsgHeader → MsgAnnounce → ForeignMaster Time
received m h a = record m { header = h; announce = a }

-- A slave that takes over what its master announces.
pub record Takes (c : Clock) (opts : RunTimeOpts) : Type 0 where
  pub is_slave_eq : c.port_state ≡ slave
  pub no_leap_second : c.leap_second_in_progress ≡ false
  pub no_override : opts.override_utc_offset ≡ false

Takes-leap :
    (c : Clock) (opts : RunTimeOpts)
    → Takes c opts
    → (is_slave c.port_state && not c.leap_second_in_progress) ≡ true
Takes-leap c opts k =
    ap (λ q. is_slave q && not c.leap_second_in_progress) k.is_slave_eq ∙ ap not k.no_leap_second

if_true {ℓ} : {A : Type ℓ} (b : Bool) (x y : A) → b ≡ true → (if b then x else y) ≡ x
if_true b x y h = ap (λ c. if c then x else y) h

if_false {ℓ} : {A : Type ℓ} (b : Bool) (x y : A) → b ≡ false → (if b then x else y) ≡ y
if_false b x y h = ap (λ c. if c then x else y) h

s1-received :
    {Time : Type 0} (m : ForeignMaster Time) (p : Port) (c : Clock) (opts : RunTimeOpts)
    → Takes c opts
    → (s1 (received m (known_of p) (announce_of p)) c opts).time_properties
      ≡ p.clock.time_properties
unfolding s1
s1-received m p c opts k =
    let r = announce_flags-Reads p.clock.time_properties in
    let v : ℕ = announce_flags p.clock.time_properties 0 in
    let takes = Takes-leap c opts k in
    λ i. record {
      current_utc_offset =
          if_false opts.override_utc_offset opts.override_utc_offset_seconds
            p.clock.time_properties.current_utc_offset k.no_override i;
      current_utc_offset_valid =
          (if_false opts.override_utc_offset true (has v 4) k.no_override ∙ r.utc_valid) i;
      leap59 =
          (if_true (is_slave c.port_state && not c.leap_second_in_progress) (has v 2)
                c.time_properties.leap59 takes
              ∙ r.leap59)
            i;
      leap61 =
          (if_true (is_slave c.port_state && not c.leap_second_in_progress) (has v 1)
                c.time_properties.leap61 takes
              ∙ r.leap61)
            i;
      time_traceable = r.time i;
      frequency_traceable = r.frequency i;
      ptp_timescale = r.timescale i;
      time_source = p.clock.time_properties.time_source;
    }

-- An Announce message that a port with fields in the ranges of their types packs unpacks, and a
-- slave that takes it as the announcement of its master by s1 has the time properties and the
-- grandmaster identity of that port and one step more, modulo 2^16, where no leap second is in
-- progress at the slave and it does not override the UTC offset.
pub s1-pack_announce :
    {Time : Type 0} (m : ForeignMaster Time) (p : Port) (c : Clock) (opts : RunTimeOpts)
    (b : Octets)
    → IsSized p
    → Takes c opts
    → (b' : Octets) × (h : Header) × (a : MsgAnnounce) × (pack_announce 64 p b ≡ some (some 64, b'))
      × (unpack_header 64 b' ≡ some (some (34, h)))
      × (unpack_announce 64 b' ≡ some (some (30, record { seconds = 0; nanoseconds = 0 }, a)))
      × ((s1 (received m h.known a) c opts).time_properties ≡ p.clock.time_properties)
      × ((s1 (received m h.known a) c opts).grandmaster_identity ≡ p.clock.grandmaster_identity)
      × ((s1 (received m h.known a) c opts).steps_removed ≡ (p.clock.steps_removed + 1) % 65536)
unfolding s1
s1-pack_announce m p c opts b s k =
    let (b', e, r) = unpack-pack_announce 64 p b (omega arith) s in
    (
      b',
      r.header,
      announce_of p,
      e,
      r.unpack_header_eq,
      r.body,
      ap (λ h. (s1 (received m h (announce_of p)) c opts).time_properties) r.known
          ∙ s1-received m p c opts k,
      refl,
      refl,
    )

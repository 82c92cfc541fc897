-- ===== src/Bmc/Compare.antt =====
-- What the comparison of two foreign masters promises when it is asked the other way round, and the
-- order that it puts on masters of different grandmasters.
use sfptpd.Prelude.{ℕ, ◌+◌, ◌≡◌, ◌≢◌, ◌⊎◌, refl, Bool, true, false, arith, ℤ, pos, ◌-ℤ◌}
use sfptpd.Foreign.Defs.{MsgHeader, MsgAnnounce}
use sfptpd.Bmc.Defs.{
  compare_then, utc_valid, compare_topology, compare_grandmasters, data_set_comparison,
}

-- The numbers of steps to one grandmaster do not differ by one.
abbrev pub NotAdjacent : MsgAnnounce → MsgAnnounce → Type 0
NotAdjacent a b =
    (a.grandmaster_identity ≢ b.grandmaster_identity)
    ⊎ ((a.steps_removed ≢ b.steps_removed + 1) × (b.steps_removed ≢ a.steps_removed + 1))

compare_then_opp :
    (a b : ℕ) (x y : ℤ) → x ≡ pos 0 -ℤ y → compare_then a b x ≡ pos 0 -ℤ compare_then b a y
unfolding ◌-ℤ◌ compare_then
compare_then_opp a b x y h = ground arith

topology_opp :
    (parent : ℕ) (ha : MsgHeader) (a : MsgAnnounce) (hb : MsgHeader) (b : MsgAnnounce)
    → a.steps_removed ≢ b.steps_removed + 1
    → b.steps_removed ≢ a.steps_removed + 1
    → compare_topology parent ha a hb b ≡ pos 0 -ℤ compare_topology parent hb b ha a
unfolding compare_topology compare_then ◌-ℤ◌
topology_opp parent ha a hb b m n = ground arith

-- The comparison of the clock qualities, priority 2 and the identities.
abbrev quality : MsgAnnounce → MsgAnnounce → ℤ
quality a b =
    let q = a.grandmaster_clock_quality in
    let r = b.grandmaster_clock_quality in
    compare_then q.clock_class r.clock_class (
      compare_then q.clock_accuracy r.clock_accuracy (
        compare_then q.offset_scaled_log_variance r.offset_scaled_log_variance (
          compare_then a.grandmaster_priority2 b.grandmaster_priority2
            (compare_then a.grandmaster_identity b.grandmaster_identity (pos 0)))))

zero_opp : pos 0 ≡ pos 0 -ℤ pos 0
unfolding ◌-ℤ◌
zero_opp = refl

quality_opp : (a b : MsgAnnounce) → quality a b ≡ pos 0 -ℤ quality b a
quality_opp a b =
    let q = a.grandmaster_clock_quality in
    let r = b.grandmaster_clock_quality in
    compare_then_opp q.clock_class r.clock_class _ _ (
      compare_then_opp q.clock_accuracy r.clock_accuracy _ _ (
        compare_then_opp q.offset_scaled_log_variance r.offset_scaled_log_variance _ _ (
          compare_then_opp a.grandmaster_priority2 b.grandmaster_priority2 _ _
            (compare_then_opp a.grandmaster_identity b.grandmaster_identity _ _ zero_opp))))

grandmasters_opp :
    (prefer : Bool) (ha : MsgHeader) (a : MsgAnnounce) (hb : MsgHeader) (b : MsgAnnounce)
    → compare_grandmasters prefer ha a hb b ≡ pos 0 -ℤ compare_grandmasters prefer hb b ha a
unfolding compare_grandmasters
grandmasters_opp true ha a hb b =
    compare_then_opp a.grandmaster_priority1 b.grandmaster_priority1 _ _
      (compare_then_opp (utc_valid hb) (utc_valid ha) _ _ (quality_opp a b))
grandmasters_opp false ha a hb b =
    compare_then_opp a.grandmaster_priority1 b.grandmaster_priority1 _ _ (quality_opp a b)

-- Asked the other way round, the comparison gives the opposite answer, where the masters are of
-- different grandmasters or their numbers of steps do not differ by one.
pub comparison_opp :
    (prefer : Bool) (parent : ℕ) (ha : MsgHeader) (a : MsgAnnounce) (hb : MsgHeader)
    (b : MsgAnnounce)
    → NotAdjacent a b
    → data_set_comparison prefer parent ha a hb b
      ≡ pos 0 -ℤ data_set_comparison prefer parent hb b ha a
unfolding data_set_comparison
comparison_opp prefer parent ha a hb b h =
    ground (arith, topology_opp parent ha a hb b, grandmasters_opp prefer ha a hb b)

-- Where the masters are of one grandmaster and the first is one step further away, the comparison
-- gives the same answer both ways round: how the clock identity of the sender that is further away
-- compares with that of the parent.
pub comparison_same :
    (prefer : Bool) (parent : ℕ) (ha : MsgHeader) (a : MsgAnnounce) (hb : MsgHeader)
    (b : MsgAnnounce)
    → a.grandmaster_identity ≡ b.grandmaster_identity
    → a.steps_removed ≡ b.steps_removed + 1
    → (data_set_comparison prefer parent ha a hb b
        ≡ compare_then ha.source_port_identity.clock_identity parent (pos 0))
      × (data_set_comparison prefer parent hb b ha a
          ≡ compare_then ha.source_port_identity.clock_identity parent (pos 0))
unfolding data_set_comparison compare_topology compare_then
comparison_same prefer parent ha a hb b e s = ground arith

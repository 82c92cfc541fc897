-- ===== src/Bmc/Order.antt =====
-- The order that `bmcDataSetComparison` puts on the masters of different grandmasters, and the test
-- by which `bmc` prefers one.
use sfptpd.Prelude.{
  ℕ, ◌≡◌, ◌≢◌, refl, ap, ◌∙◌, Bool, true, false, ltb, if◌then◌else◌, arith, ℤ, pos, ltb_ℤ,
}
use sfptpd.Orders.{IsStrictWeak, ltb_order, by_key, converse, lex, lex_order}
use sfptpd.Foreign.Defs.{ClockQuality, ForeignMaster}
use sfptpd.Bmc.Defs.{
  TimeFloats, Context, compare_then, utc_valid, compare_grandmasters, data_set_comparison,
  compare_records, is_nonzero_ℤ,
}

compare_then-lt :
    (a b : ℕ) (x : ℤ) (t : Bool)
    → ltb_ℤ x (pos 0) ≡ t
    → ltb_ℤ (compare_then a b x) (pos 0) ≡ (if ltb a b then true else if ltb b a then false else t)
unfolding compare_then
compare_then-lt a b x t h = ground arith

compare_then-ne : (a b : ℕ) (x : ℤ) → x ≢ pos 0 → compare_then a b x ≢ pos 0
unfolding compare_then
compare_then-ne a b x h = ground arith

identity_lt : (a b : ℕ) → ltb_ℤ (compare_then a b (pos 0)) (pos 0) ≡ ltb a b
unfolding compare_then
identity_lt a b = ground arith

identity_ne : (a b : ℕ) → a ≢ b → compare_then a b (pos 0) ≢ pos 0
unfolding compare_then
identity_ne a b h = ground arith

module _ {Time : Type 0} where
  abbrev quality_of : ForeignMaster Time → ClockQuality
  quality_of r = r.announce.grandmaster_clock_quality

  -- A valid UTC offset comes first, where that is asked for.
  unfoldable utc_beats : Bool → ForeignMaster Time → ForeignMaster Time → Bool
  utc_beats true r s = ltb (utc_valid s.header) (utc_valid r.header)
  utc_beats false r s = false

  utc_order : (prefer : Bool) → IsStrictWeak (utc_beats prefer)
  unfolding utc_beats
  utc_order true = converse (by_key (λ r. utc_valid r.header) ltb_order)
  utc_order false = record { asym = λ a b h. refl; compare = λ a b c h k. h }

  -- The order of the qualities, of priority 2 and of the identities.
  abbrev quality_beats : ForeignMaster Time → ForeignMaster Time → Bool
  quality_beats =
      lex (λ r s. ltb (quality_of r).clock_class (quality_of s).clock_class)
        (lex (λ r s. ltb (quality_of r).clock_accuracy (quality_of s).clock_accuracy)
          (lex
            (λ r s.
              ltb (quality_of r).offset_scaled_log_variance
                (quality_of s).offset_scaled_log_variance)
            (lex (λ r s. ltb r.announce.grandmaster_priority2 s.announce.grandmaster_priority2)
              (λ r s. ltb r.announce.grandmaster_identity s.announce.grandmaster_identity))))

  -- The order of Figure 27 of the standard, with the preference for a valid UTC offset, if it is
  -- asked for, after priority 1.
  unfoldable pub gm_beats : Bool → ForeignMaster Time → ForeignMaster Time → Bool
  unfolding utc_beats
  gm_beats prefer =
      lex (λ r s. ltb r.announce.grandmaster_priority1 s.announce.grandmaster_priority1)
        (lex (utc_beats prefer) quality_beats)

  pub gm_order : (prefer : Bool) → IsStrictWeak (gm_beats prefer)
  unfolding gm_beats
  gm_order prefer = lex_order (by_key (λ r. r.announce.grandmaster_priority1) ltb_order) (
      lex_order (utc_order prefer) (
        lex_order (by_key (λ r. (quality_of r).clock_class) ltb_order) (
          lex_order (by_key (λ r. (quality_of r).clock_accuracy) ltb_order) (
            lex_order (by_key (λ r. (quality_of r).offset_scaled_log_variance) ltb_order) (
              lex_order (by_key (λ r. r.announce.grandmaster_priority2) ltb_order)
                (by_key (λ r. r.announce.grandmaster_identity) ltb_order))))))

  abbrev quality_comparison : ForeignMaster Time → ForeignMaster Time → ℤ
  quality_comparison r s = compare_then (quality_of r).clock_class (quality_of s).clock_class (
      compare_then (quality_of r).clock_accuracy (quality_of s).clock_accuracy (
        compare_then (quality_of r).offset_scaled_log_variance
          (quality_of s).offset_scaled_log_variance
          (compare_then r.announce.grandmaster_priority2 s.announce.grandmaster_priority2 (
            compare_then r.announce.grandmaster_identity s.announce.grandmaster_identity (pos 0)))))

  quality_comparison_lt :
      (r s : ForeignMaster Time) → ltb_ℤ (quality_comparison r s) (pos 0) ≡ quality_beats r s
  quality_comparison_lt r s = compare_then-lt _ _ _ _ (
      compare_then-lt _ _ _ _ (compare_then-lt _ _ _ _ (compare_then-lt _ _ _ _ (identity_lt _ _))))

  quality_comparison_ne :
      (r s : ForeignMaster Time)
      → r.announce.grandmaster_identity ≢ s.announce.grandmaster_identity
      → quality_comparison r s ≢ pos 0
  quality_comparison_ne r s h =
      compare_then-ne _ _ _
        (compare_then-ne _ _ _ (compare_then-ne _ _ _ (compare_then-ne _ _ _ (identity_ne _ _ h))))

  grandmasters_lt :
      (prefer : Bool) (r s : ForeignMaster Time)
      → ltb_ℤ (compare_grandmasters prefer r.header r.announce s.header s.announce) (pos 0)
        ≡ gm_beats prefer r s
  unfolding compare_grandmasters gm_beats utc_beats
  grandmasters_lt true r s =
      compare_then-lt r.announce.grandmaster_priority1 s.announce.grandmaster_priority1 _ _
        (compare_then-lt (utc_valid s.header) (utc_valid r.header) _ _ (quality_comparison_lt r s))
  grandmasters_lt false r s =
      compare_then-lt r.announce.grandmaster_priority1 s.announce.grandmaster_priority1 _ _
        (quality_comparison_lt r s)

  grandmasters_ne :
      (prefer : Bool) (r s : ForeignMaster Time)
      → r.announce.grandmaster_identity ≢ s.announce.grandmaster_identity
      → compare_grandmasters prefer r.header r.announce s.header s.announce ≢ pos 0
  unfolding compare_grandmasters
  grandmasters_ne true r s h =
      compare_then-ne r.announce.grandmaster_priority1 s.announce.grandmaster_priority1 _
        (compare_then-ne (utc_valid s.header) (utc_valid r.header) _ (quality_comparison_ne r s h))
  grandmasters_ne false r s h =
      compare_then-ne r.announce.grandmaster_priority1 s.announce.grandmaster_priority1 _
        (quality_comparison_ne r s h)

module _ (F : TimeFloats) (c : Context F) where
  comparison_eq :
      (r s : ForeignMaster F.Time)
      → r.announce.grandmaster_identity ≢ s.announce.grandmaster_identity
      → compare_records F c r s
        ≡ compare_grandmasters c.prefer_utc_valid r.header r.announce s.header s.announce
  unfolding compare_records data_set_comparison
  comparison_eq r s h = ground arith

  -- The comparison of masters of different grandmasters prefers the one that the order puts first,
  -- and it prefers one.
  pub compare_records_lt :
      (r s : ForeignMaster F.Time)
      → r.announce.grandmaster_identity ≢ s.announce.grandmaster_identity
      → ltb_ℤ (compare_records F c r s) (pos 0) ≡ gm_beats c.prefer_utc_valid r s
  compare_records_lt r s h =
      ap (λ z. ltb_ℤ z (pos 0)) (comparison_eq r s h) ∙ grandmasters_lt c.prefer_utc_valid r s

  pub compare_records_ne :
      (r s : ForeignMaster F.Time)
      → r.announce.grandmaster_identity ≢ s.announce.grandmaster_identity
      → is_nonzero_ℤ (compare_records F c r s) ≡ true
  compare_records_ne r s h =
      rw (comparison_eq r s h) (nonzero _ (grandmasters_ne c.prefer_utc_valid r s h))
    where
      nonzero : (z : ℤ) → z ≢ pos 0 → is_nonzero_ℤ z ≡ true
      nonzero z ne = ground arith

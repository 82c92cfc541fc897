-- ===== src/Time/Nanos.antt =====
-- `sfptpd_time_from_ns`, and where its range ends.
use sfptpd.Prelude.{
  ℕ, suc, ◌+◌, ◌-◌, ◌*◌, ◌/◌, ◌%◌, ◌≤◌, ◌<◌, ◌≡◌, ◌∙◌, ap, arith, false, ltb_ℤ, ℤ, pos, negsuc,
  pos_part, neg_part, ◌-ℤ◌, ◌<ℤ◌, int_laws, -ℤ_bounds, -ℤ_parts,
}
use sfptpd.Words.{quot, two_31, two_32, u32, int64_id, scale, scale_parts}
use sfptpd.Time.Defs.{Timespec, one_billion, normalise, time_negate, time_from_ns}
use sfptpd.Time.Value.{value, IsNormal, s32_neg, normalise_pos}
use sfptpd.Time.Difference.{time_negate-value, value_parts}
use sfptpd.Time.Convert.{zero_plus, absolute, negative, not_negative}

-- The time of a number of nanoseconds.
abbrev of_ns : ℕ → Timespec
of_ns n = record { sec = pos (n / one_billion); nsec = n % one_billion; nsec_frac = 0 }

of_ns-value : (n : ℕ) → value (of_ns n) ≡ pos (two_32 * n)
of_ns-value n = omega (int_laws, value_parts (of_ns n))

u32_pos : (v : ℕ) → v < two_32 → u32 (pos v) ≡ v
unfolding u32
u32_pos v h = omega arith

abbrev raw : ℕ → Timespec
raw n = record { sec = pos 0; nsec = n; nsec_frac = 0 }

normalise-raw : (n : ℕ) → n < two_31 → normalise (raw n) ≡ of_ns n
normalise-raw n h = normalise_pos (raw n) h (omega arith) ∙ rw (zero_plus (pos (n / one_billion)))

time_from_ns_pos : (n : ℕ) → n < two_31 → time_from_ns (pos n) ≡ of_ns n
unfolding time_from_ns
time_from_ns_pos n h =
    rw (not_negative n, u32_pos n (omega arith), normalise-raw n h) (ground arith)

time_from_ns_neg :
    (n : ℕ) → suc n < one_billion → time_from_ns (negsuc n) ≡ time_negate (of_ns (suc n))
unfolding time_from_ns
time_from_ns_neg n h =
    rw (negative n, absolute n (omega arith), u32_pos (suc n) (omega arith))
      (ap time_negate (ground arith))

-- A number of nanoseconds makes a normal time of that value, if it is from minus a second,
-- exclusive, to 2^31, exclusive.
pub time_from_ns-value :
    (z : ℤ)
    → pos_part z < two_31
    → neg_part z < one_billion
    → (value (time_from_ns z) ≡ scale two_32 z) × IsNormal (time_from_ns z)
time_from_ns-value (pos n) h k =
    rw (time_from_ns_pos n h)
      (of_ns-value n ∙ (omega (int_laws, scale_parts two_32 (pos n))), omega arith)
time_from_ns-value (negsuc n) h k =
    let t = of_ns (suc n) in
    let (e, m) = time_negate-value t (omega arith) (omega (arith, -ℤ_bounds (pos 0) t.sec)) in
    rw (time_from_ns_neg n k) (
      e
          ∙ ap (λ x. pos 0 -ℤ x) (of_ns-value (suc n))
          ∙ (omega (int_laws, scale_parts two_32 (negsuc n))),
      m,
    )

quot_neg :
    (m : ℕ)
    → 0 < m
    → (pos_part (quot (negsuc (m - 1)) one_billion) ≡ 0)
      × (neg_part (quot (negsuc (m - 1)) one_billion) ≡ m / one_billion)
unfolding quot
quot_neg m h = ground arith

-- Normalising nanoseconds that read as a negative int32_t makes the seconds negative.
normalise-raw_neg :
    (n m : ℕ) → n + m ≡ two_32 → 0 < m → m ≤ two_31 → (normalise (raw n)).sec <ℤ pos 0
unfolding normalise
normalise-raw_neg n m e h k =
    let q = quot (negsuc (m - 1)) one_billion in
    let in_q = quot_neg m h in
    rw
      (
        s32_neg n m e h k,
        zero_plus q,
        int64_id q (omega arith),
        int64_id (q -ℤ pos 1) (omega (arith, -ℤ_bounds q (pos 1))),
      )
      (ground (
        arith,
        in_q,
        -ℤ_parts q (pos 1),
        scale_parts one_billion q,
        -ℤ_parts (negsuc (m - 1)) (scale one_billion q),
      ))

-- From 2^31 nanoseconds on the number is read as a negative one: the time made of 2^31 to 2^32 - 1
-- nanoseconds has negative seconds.
pub time_from_ns_wraps : (n : ℕ) → two_31 ≤ n → n < two_32 → (time_from_ns (pos n)).sec <ℤ pos 0
unfolding time_from_ns
time_from_ns_wraps n h k =
    rw (not_negative n, u32_pos n (omega arith), large n h)
      (normalise-raw_neg n (two_32 - n) (omega arith) (omega arith) (omega arith))
  where
    large : (n : ℕ) → two_31 ≤ n → ltb_ℤ (pos n) (pos one_billion) ≡ false
    large n h = ground arith

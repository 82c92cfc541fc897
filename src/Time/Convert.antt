-- ===== src/Time/Convert.antt =====
-- The conversions `sfptpd_time_from_ns16` and `sfptpd_time_to_ns16`.
use sfptpd.Prelude.{
  ℕ, suc, ◌-◌, ◌*◌, ◌/◌, ◌%◌, ◌≤◌, ◌<◌, ◌≡◌, ◌∙◌, ap, arith, true, false, leb, ltb_ℤ, ℤ, pos,
  negsuc, pos_part, neg_part, ◌+ℤ◌, ◌-ℤ◌, ◌<ℤ◌, int_laws, -ℤ_bounds, one_part, eq_of_parts,
}
use sfptpd.Words.{two_63, two_64, u64, s64, int64, int64_id, scale, scale_parts}
use sfptpd.Time.Defs.{
  Timespec, one_billion, time_negate, split_ns16, time_from_ns16, join_ns16, saturate_ns16,
  time_to_ns16, ns16_limit,
}
use sfptpd.Time.Value.{value, IsNormal, HasRoom}
use sfptpd.Time.Difference.{time_negate-value, value_parts}

-- The time of a number of units of 2^-16 ns.
abbrev of_ns16 : ℕ → Timespec
of_ns16 v = record {
  sec = pos (v / 65536 / one_billion);
  nsec = v / 65536 % one_billion;
  nsec_frac = v % 65536 * 65536;
}

of_ns16-IsNormal : (v : ℕ) → v < two_64 → IsNormal (of_ns16 v)
of_ns16-IsNormal v h = omega arith

of_ns16-value : (v : ℕ) → value (of_ns16 v) ≡ pos (65536 * v)
of_ns16-value v = omega (int_laws, value_parts (of_ns16 v))

split_ns16_eq : (v : ℕ) → v < two_64 → split_ns16 v ≡ of_ns16 v
unfolding split_ns16
split_ns16_eq v h = ground arith

u64_pos : (v : ℕ) → v < two_64 → u64 (pos v) ≡ v
unfolding u64
u64_pos v h = omega arith

pub negative : (n : ℕ) → ltb_ℤ (negsuc n) (pos 0) ≡ true
negative n = ground arith

pub not_negative : (n : ℕ) → ltb_ℤ (pos n) (pos 0) ≡ false
not_negative n = ground arith

time_from_ns16_pos : (v : ℕ) → v < two_63 → time_from_ns16 (pos v) ≡ of_ns16 v
unfolding time_from_ns16
time_from_ns16_pos v h =
    rw (not_negative v, u64_pos v (omega arith)) (split_ns16_eq v (omega arith))

pub zero_plus : (z : ℤ) → pos 0 +ℤ z ≡ z
zero_plus z = omega int_laws

minus : (n : ℕ) → pos 0 -ℤ negsuc n ≡ pos (suc n)
minus n = omega int_laws

-- The absolute value of a negative number other than the least int64_t.
pub absolute : (n : ℕ) → suc n < two_63 → int64 (pos 0 -ℤ negsuc n) ≡ pos (suc n)
absolute n h = rw (minus n) (int64_id (pos (suc n)) (omega arith))

time_from_ns16_neg :
    (n : ℕ) → suc n < two_63 → time_from_ns16 (negsuc n) ≡ time_negate (of_ns16 (suc n))
unfolding time_from_ns16
time_from_ns16_neg n h =
    rw (negative n, absolute n h, u64_pos (suc n) (omega arith))
      (ap time_negate (split_ns16_eq (suc n) (omega arith)))

-- A time made of 16-bit fixed-point nanoseconds is normal and has the value of the number, which is
-- any int64_t but the least.
pub time_from_ns16-value :
    (z : ℤ)
    → pos_part z < two_63
    → neg_part z < two_63
    → (value (time_from_ns16 z) ≡ scale 65536 z) × IsNormal (time_from_ns16 z)
time_from_ns16-value (pos v) h k = rw (time_from_ns16_pos v h) (
  of_ns16-value v ∙ omega (int_laws, scale_parts 65536 (pos v)),
  of_ns16-IsNormal v (omega arith),
)
time_from_ns16-value (negsuc n) h k =
    let t = of_ns16 (suc n) in
    let normal = of_ns16-IsNormal (suc n) (omega arith) in
    let (e, m) = time_negate-value t normal (room n k) in
    rw (time_from_ns16_neg n k) (
      e
          ∙ ap (λ x. pos 0 -ℤ x) (of_ns16-value (suc n))
          ∙ (omega (int_laws, scale_parts 65536 (negsuc n))),
      m,
    )
  where
    room : (n : ℕ) → suc n < two_63 → HasRoom (pos 0 -ℤ pos (suc n / 65536 / one_billion))
    room n h = omega (arith, -ℤ_bounds (pos 0) (pos (suc n / 65536 / one_billion)))

module _ (t : Timespec) (v : ℕ) (n : IsNormal t) (h : v < two_63)
    (e : value t ≡ pos (65536 * v)) where
  sec_pos : t.sec ≡ pos (pos_part t.sec)
  sec_pos =
      let p = ap pos_part e in
      let m = ap neg_part e in
      eq_of_parts t.sec (pos (pos_part t.sec)) (omega (arith, value_parts t, one_part t.sec))

  sec_small : pos_part t.sec < 140738
  sec_small =
      let p = ap pos_part e in let m = ap neg_part e in omega (arith, value_parts t, one_part t.sec)

  join_ns16_eq : join_ns16 t ≡ v
  unfolding join_ns16
  join_ns16_eq =
      let p = ap pos_part e in
      let m = ap neg_part e in
      rw (sec_pos, u64_pos (pos_part t.sec) (omega (arith, sec_small)))
        (omega (arith, value_parts t, one_part t.sec, sec_small))

  sec_in : leb ns16_limit (u64 t.sec) ≡ false
  sec_in =
      rw (sec_pos, u64_pos (pos_part t.sec) (omega (arith, sec_small))) (ground (arith, sec_small))

  saturate_pos : saturate_ns16 false t ≡ pos v
  unfolding saturate_ns16 s64
  saturate_pos = rw (sec_in, join_ns16_eq) (ground arith)

  saturate_neg : 0 < v → saturate_ns16 true t ≡ negsuc (v - 1)
  unfolding saturate_ns16 s64
  saturate_neg l = rw (sec_in, join_ns16_eq) (ground arith)

  is_not_negative : ltb_ℤ t.sec (pos 0) ≡ false
  is_not_negative = rw sec_pos (not_negative (pos_part t.sec))

module _ (t : Timespec) (m : ℕ) (n : IsNormal t) (h : suc m < two_63)
    (e : value t ≡ scale 65536 (negsuc m)) where
  sec_neg : (pos_part t.sec ≡ 0) × (0 < neg_part t.sec) × (neg_part t.sec < 140739)
  sec_neg =
      let p = ap pos_part e in
      let q = ap neg_part e in
      omega (arith, value_parts t, one_part t.sec, scale_parts 65536 (negsuc m))

  is_negative : ltb_ℤ t.sec (pos 0) ≡ true
  is_negative = ground (arith, sec_neg)

  negated : (value (time_negate t) ≡ pos (65536 * suc m)) × IsNormal (time_negate t)
  negated =
      let (f, k) = time_negate-value t n (omega (arith, sec_neg, -ℤ_bounds (pos 0) t.sec)) in
      (f ∙ ap (λ x. pos 0 -ℤ x) e ∙ (omega (int_laws, scale_parts 65536 (negsuc m))), k)

-- The conversion of a normal time to 16-bit fixed-point nanoseconds gives the number whose value the
-- time has, any int64_t but the least.
pub time_to_ns16-value :
    (t : Timespec) (z : ℤ)
    → IsNormal t
    → pos_part z < two_63
    → neg_part z < two_63
    → value t ≡ scale 65536 z
    → time_to_ns16 t ≡ z
unfolding time_to_ns16
time_to_ns16-value t (pos v) n h k e =
    let f : value t ≡ pos (65536 * v) = e ∙ (omega (int_laws, scale_parts 65536 (pos v))) in
    rw (is_not_negative t v n h f) (saturate_pos t v n h f)
time_to_ns16-value t (negsuc m) n h k e =
    let (f, normal) = negated t m n k e in
    rw (is_negative t m n k e)
      (saturate_neg (time_negate t) (suc m) normal k f (omega arith) ∙ ap negsuc (omega arith))

-- What `sfptpd_time_from_ns16` makes of a number `sfptpd_time_to_ns16` turns back into it, for every
-- int64_t but the least.
pub to_ns16-from_ns16 :
    (z : ℤ) → pos_part z < two_63 → neg_part z < two_63 → time_to_ns16 (time_from_ns16 z) ≡ z
to_ns16-from_ns16 z h k =
    let (e, n) = time_from_ns16-value z h k in time_to_ns16-value (time_from_ns16 z) z n h k e

-- A time of 140738 to 281473 seconds is too long for 48.16-bit nanoseconds, yet it is not saturated:
-- the conversion of a normal time of that length is a negative number.
pub time_to_ns16_wraps :
    (t : Timespec) (s : ℕ)
    → IsNormal t
    → t.sec ≡ pos s
    → 140738 ≤ s
    → s < 281474
    → time_to_ns16 t <ℤ pos 0
unfolding time_to_ns16 saturate_ns16 join_ns16 s64
time_to_ns16_wraps t s n e h k = rw (e, not_negative s, u64_pos s (omega arith)) (ground arith)

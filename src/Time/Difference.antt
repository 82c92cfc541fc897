-- ===== src/Time/Difference.antt =====
-- `sfptpd_time_subtract`, and what is built on it.
use sfptpd.Prelude.{
  ℕ, ◌+◌, ◌-◌, ◌*◌, ◌/◌, ◌%◌, ◌≤◌, ◌<◌, ◌≡◌, ◌↔◌, ◌∙◌, ap, arith, true, not, leb, ltb_ℤ, ℤ, pos,
  negsuc, pos_part, Bool-cases, inl, inr, neg_part, ◌+ℤ◌, ◌-ℤ◌, ◌≤ℤ◌, ◌<ℤ◌, int_laws, -ℤ_bounds,
  leb→le, eq_of_parts, -ℤ_parts,
}
use sfptpd.Words.{two_32, two_63, u32, s64, int64, int64_id, scale_parts, asr_32}
use sfptpd.Time.Defs.{
  Timespec, one_billion, null_time, nsec_fp32, time_add, time_subtract, time_negate, time_cmp,
  time_is_greater_or_equal,
}
use sfptpd.Time.Value.{
  value, second, IsNormal, HasRoom, normalise_pos, normalise_neg, time_add-value, plus_zero,
}

-- The nanoseconds of a time in units of 2^-32 ns.
abbrev pub units : Timespec → ℕ
units t = t.nsec * two_32 + t.nsec_frac

nsec_fp32_eq : (t : Timespec) → IsNormal t → nsec_fp32 t ≡ pos (units t)
unfolding s64
nsec_fp32_eq t h = ground arith

int64_difference : (m n : ℕ) → m < two_63 → n < two_63 → int64 (pos m -ℤ pos n) ≡ pos m -ℤ pos n
int64_difference m n h k = int64_id (pos m -ℤ pos n) (omega (arith, -ℤ_bounds (pos m) (pos n)))

-- A difference that is not negative, and one that is.
difference_pos : (m n : ℕ) → n ≤ m → pos m -ℤ pos n ≡ pos (m - n)
unfolding ◌-ℤ◌
difference_pos m n h = ground arith

difference_neg : (m n : ℕ) → m < n → pos m -ℤ pos n ≡ negsuc (n - m - 1)
unfolding ◌-ℤ◌
difference_neg m n h = ground arith

units_lt : (t : Timespec) → IsNormal t → units t < two_63
units_lt t h = omega arith

small_difference :
    (a b : Timespec)
    → IsNormal a
    → IsNormal b
    → ((units a - units b) / two_32 % two_32 / one_billion ≡ 0)
      × ((units a - units b) / two_32 % two_32 % one_billion ≡ (units a - units b) / two_32)
small_difference a b ha hb = omega arith

time_subtract_pos :
    (a b : Timespec)
    → IsNormal a
    → IsNormal b
    → HasRoom (a.sec -ℤ b.sec)
    → units b ≤ units a
    → time_subtract a b ≡ record {
      sec = a.sec -ℤ b.sec;
      nsec = (units a - units b) / two_32;
      nsec_frac = (units a - units b) % two_32;
    }
unfolding time_subtract u32 asr_32
time_subtract_pos a b ha hb room le =
    let small = small_difference a b ha hb in
    rw
      (
        nsec_fp32_eq a ha,
        nsec_fp32_eq b hb,
        int64_difference (units a) (units b) (units_lt a ha) (units_lt b hb),
        difference_pos (units a) (units b) le,
        int64_id (a.sec -ℤ b.sec) (omega arith),
      )
      (normalise_pos _ (omega arith) room ∙ rw (small.0, small.1, plus_zero (a.sec -ℤ b.sec)))

time_subtract_neg :
    (a b : Timespec)
    → IsNormal a
    → IsNormal b
    → HasRoom (a.sec -ℤ b.sec)
    → units a < units b
    → time_subtract a b ≡ record {
      sec = a.sec -ℤ b.sec -ℤ pos 1;
      nsec = one_billion - ((units b - units a - 1) / two_32 + 1);
      nsec_frac = two_32 - 1 - (units b - units a - 1) % two_32;
    }
unfolding time_subtract u32 asr_32
time_subtract_neg a b ha hb room lt =
    rw
      (
        nsec_fp32_eq a ha,
        nsec_fp32_eq b hb,
        int64_difference (units a) (units b) (units_lt a ha) (units_lt b hb),
        difference_neg (units a) (units b) lt,
        int64_id (a.sec -ℤ b.sec) (omega arith),
      )
      (normalise_neg _ ((units b - units a - 1) / two_32 + 1) (omega arith) (omega arith)
        (omega arith) room)

-- Subtracting times subtracts their values and leaves a normal time. The arguments are normal, and
-- the difference of the seconds leaves room for a borrow.
pub time_subtract-value :
    (a b : Timespec)
    → IsNormal a
    → IsNormal b
    → HasRoom (a.sec -ℤ b.sec)
    → (value (time_subtract a b) ≡ value a -ℤ value b) × IsNormal (time_subtract a b)
unfolding value
time_subtract-value a b ha hb room = elim (Bool-cases (leb (units b) (units a))) [
  | inl h ↦
      let le : units b ≤ units a = leb→le _ _ h in
      rw (time_subtract_pos a b ha hb room le) (
        omega (
          int_laws,
          scale_parts second (a.sec -ℤ b.sec),
          scale_parts second a.sec,
          scale_parts second b.sec,
        ),
        omega arith,
      )
  | inr h ↦
      let lt : units a < units b = ground (arith, h) in
      rw (time_subtract_neg a b ha hb room lt) (
        omega (
          int_laws,
          scale_parts second (a.sec -ℤ b.sec -ℤ pos 1),
          scale_parts second a.sec,
          scale_parts second b.sec,
        ),
        omega arith,
      )
]

pub value_parts :
    (t : Timespec)
    → (pos_part (value t) + second * neg_part t.sec
        ≡ neg_part (value t) + second * pos_part t.sec + units t)
unfolding value
value_parts t = omega (int_laws, scale_parts second t.sec)

-- A normal time is determined by its value.
pub value_injective : (a b : Timespec) → IsNormal a → IsNormal b → value a ≡ value b → a ≡ b
value_injective a b ha hb e =
    let p = ap pos_part e in
    let n = ap neg_part e in
    let es = eq_of_parts a.sec b.sec (omega (arith, value_parts a, value_parts b)) in
    let en : a.nsec ≡ b.nsec = omega (arith, value_parts a, value_parts b) in
    let ef : a.nsec_frac ≡ b.nsec_frac = omega (arith, value_parts a, value_parts b) in
    λ i. record { sec = es i; nsec = en i; nsec_frac = ef i }

module _ (a b : Timespec) (ha : IsNormal a) (hb : IsNormal b) where
  cmp_lt : (time_cmp a b ≡ negsuc 0) ↔ (value a <ℤ value b)
  unfolding time_cmp
  cmp_lt = (
    λ h. ground (arith, value_parts a, value_parts b),
    λ h. ground (arith, value_parts a, value_parts b),
  )

  cmp_gt : (time_cmp a b ≡ pos 1) ↔ (value b <ℤ value a)
  unfolding time_cmp
  cmp_gt = (
    λ h. ground (arith, value_parts a, value_parts b),
    λ h. ground (arith, value_parts a, value_parts b),
  )

  cmp_eq : time_cmp a b ≡ pos 0 → a ≡ b
  unfolding time_cmp
  cmp_eq h =
      value_injective a b ha hb
        (eq_of_parts (value a) (value b) (ground (arith, value_parts a, value_parts b)))

  cmp_self : time_cmp b b ≡ pos 0
  unfolding time_cmp
  cmp_self = ground arith

-- The comparison of two normal times is that of their values: negative, positive or 0.
pub time_cmp-value :
    (a b : Timespec)
    → IsNormal a
    → IsNormal b
    → ((time_cmp a b ≡ negsuc 0) ↔ (value a <ℤ value b))
      × ((time_cmp a b ≡ pos 1) ↔ (value b <ℤ value a))
      × ((time_cmp a b ≡ pos 0) ↔ (a ≡ b))
time_cmp-value a b ha hb =
    (cmp_lt a b ha hb, cmp_gt a b ha hb, (cmp_eq a b ha hb, λ e. rw e (cmp_self a b ha hb)))

nonneg_iff : (z x y : ℤ) → (z <ℤ pos 0) ↔ (x <ℤ y) → (not (ltb_ℤ z (pos 0)) ≡ true) ↔ (y ≤ℤ x)
nonneg_iff z x y v = (λ h. ground (arith, v.1), λ h. ground (arith, v.0))

-- The test of two normal times is that of their values. The difference of the seconds leaves room
-- for a borrow.
pub time_is_greater_or_equal-value :
    (a b : Timespec)
    → IsNormal a
    → IsNormal b
    → HasRoom (a.sec -ℤ b.sec)
    → (time_is_greater_or_equal a b ≡ true) ↔ (value b ≤ℤ value a)
unfolding time_is_greater_or_equal
time_is_greater_or_equal-value a b ha hb room =
    let c = time_subtract a b in
    let (e, n) = time_subtract-value a b ha hb room in
    let p = ap pos_part e in
    let m = ap neg_part e in
    let v : (c.sec <ℤ pos 0) ↔ (value a <ℤ value b) = (
      λ h. omega (arith, value_parts c, -ℤ_parts (value a) (value b)),
      λ h. omega (arith, value_parts c, -ℤ_parts (value a) (value b)),
    ) in
    nonneg_iff c.sec (value a) (value b) v

-- Adding what was subtracted gives the time back. The times are normal, and their seconds leave
-- room for the borrow and the carry.
pub add-subtract :
    (a b : Timespec)
    → IsNormal a
    → IsNormal b
    → HasRoom (a.sec -ℤ b.sec)
    → HasRoom ((time_subtract a b).sec +ℤ b.sec)
    → time_add (time_subtract a b) b ≡ a
add-subtract a b ha hb room room' =
    let c = time_subtract a b in
    let (e, n) = time_subtract-value a b ha hb room in
    let (f, m) = time_add-value c b n hb room' in
    let x = ap pos_part e in
    let y = ap neg_part e in value_injective (time_add c b) a m ha (f ∙ omega int_laws)

-- The negative of a normal time has the negative value, and is normal.
pub time_negate-value :
    (t : Timespec)
    → IsNormal t
    → HasRoom (pos 0 -ℤ t.sec)
    → (value (time_negate t) ≡ pos 0 -ℤ value t) × IsNormal (time_negate t)
unfolding time_negate
time_negate-value t h room =
    let (e, n) = time_subtract-value null_time t (omega arith) h room in
    (e ∙ ap (λ z. z -ℤ value t) null-value, n)
  where
    null-value : value null_time ≡ pos 0
    null-value = omega (int_laws, value_parts null_time)

-- ===== src/Time/Value.antt =====
-- A time as a number of units of 2^-32 ns, and what the sum, the difference and the comparisons of
-- `sfptpd_time.c` do to it.
use sfptpd.Prelude.{
  ℕ, ◌+◌, ◌-◌, ◌*◌, ◌/◌, ◌%◌, ◌≤◌, ◌<◌, ◌≡◌, arith, true, ℤ, pos, negsuc, pos_part, ◌==◌,
  Bool-cases, inl, inr, neg_part, ◌+ℤ◌, ◌-ℤ◌, int_laws, +ℤ_bounds, -ℤ_bounds,
}
use sfptpd.Words.{
  two_31, two_32, two_63, two_64, u32, s32, int64, int64_id, scale, scale_parts, quot,
}
use sfptpd.Time.Defs.{Timespec, one_billion, normalise, time_add}

-- The units of 2^-32 ns in a second.
abbrev pub second : ℕ
second = 4294967296000000000

unfoldable pub value : Timespec → ℤ
value t = scale second t.sec +ℤ pos (t.nsec * two_32 + t.nsec_frac)

-- The nanoseconds are less than a second, and the fraction is a uint32_t.
pub record IsNormal (t : Timespec) : Type 0 where
  pub nsec_lt : t.nsec < one_billion
  pub frac_lt : t.nsec_frac < two_32

-- A number of seconds with room for a carry on both sides.
abbrev pub HasRoom : ℤ → Type 0
HasRoom z = (pos_part z + 2 < two_63) × (neg_part z + 2 ≤ two_63)

s32_pos : (n : ℕ) → n < two_31 → s32 n ≡ pos n
unfolding s32
s32_pos n h = ground arith

remainder_pos :
    (n : ℕ) → pos n -ℤ scale one_billion (quot (pos n) one_billion) ≡ pos (n % one_billion)
unfolding ◌-ℤ◌ scale quot
remainder_pos n = ground arith

int64_carry : (z : ℤ) (n : ℕ) → n ≤ 2 → HasRoom z → int64 (z +ℤ pos n) ≡ z +ℤ pos n
int64_carry z n h room = int64_id (z +ℤ pos n) (omega (arith, +ℤ_bounds z (pos n)))

-- Normalising where the nanoseconds read as a non-negative int32_t.
pub normalise_pos :
    (t : Timespec)
    → t.nsec < two_31
    → HasRoom t.sec
    → normalise t
      ≡ record t { sec = t.sec +ℤ pos (t.nsec / one_billion); nsec = t.nsec % one_billion }
unfolding normalise quot u32
normalise_pos t h room =
    rw
      (
        s32_pos t.nsec h,
        remainder_pos t.nsec,
        int64_carry t.sec (t.nsec / one_billion) (omega arith) room,
      )
      (ground arith)

pub s32_neg : (n m : ℕ) → n + m ≡ two_32 → 0 < m → m ≤ two_31 → s32 n ≡ negsuc (m - 1)
unfolding s32
s32_neg n m e h k = ground arith

int64_borrow : (z : ℤ) → HasRoom z → int64 (z -ℤ pos 1) ≡ z -ℤ pos 1
int64_borrow z room = int64_id (z -ℤ pos 1) (omega (arith, -ℤ_bounds z (pos 1)))

minus_one : (z : ℤ) → z +ℤ negsuc 0 ≡ z -ℤ pos 1
unfolding ◌+ℤ◌ ◌-ℤ◌
minus_one z = ground arith

pub plus_zero : (z : ℤ) → z +ℤ pos 0 ≡ z
plus_zero z = omega int_laws

self_sub : (z : ℤ) → z -ℤ z ≡ pos 0
self_sub z = omega int_laws

quot_part : (m : ℕ) → 0 < m → m < one_billion → quot (negsuc (m - 1)) one_billion ≡ pos 0
unfolding quot
quot_part m h k = ground arith

remainder_part :
    (m : ℕ)
    → 0 < m
    → m < one_billion
    → (negsuc (m - 1) -ℤ scale one_billion (pos 0) ≡ negsuc (m - 1))
      × (negsuc (m - 1) +ℤ pos one_billion ≡ pos (one_billion - m))
unfolding ◌-ℤ◌ ◌+ℤ◌ scale
remainder_part m h k = (ground arith, ground arith)

-- Normalising where the nanoseconds read as an int32_t from minus a second up to -1.
pub normalise_neg :
    (t : Timespec) (m : ℕ)
    → t.nsec + m ≡ two_32
    → 0 < m
    → m ≤ one_billion
    → HasRoom t.sec
    → normalise t ≡ record t { sec = t.sec -ℤ pos 1; nsec = one_billion - m }
unfolding normalise u32 scale quot
normalise_neg t m e h k room = elim (Bool-cases (m == one_billion)) [
  | inl all ↦
      rw
        (
          s32_neg t.nsec m e h (omega arith),
          ground_all all,
          minus_one t.sec,
          int64_borrow t.sec room,
          self_sub (negsuc 999999999),
        )
        (ground (arith, all))
  | inr part ↦
      let lt : m < one_billion = ground (arith, part) in
      let (p, q) = remainder_part m h lt in
      rw
        (
          s32_neg t.nsec m e h (omega arith),
          quot_part m h lt,
          p,
          q,
          plus_zero t.sec,
          int64_id t.sec (omega arith),
          int64_borrow t.sec room,
        )
        (ground arith)
]
  where
    ground_all : m == one_billion ≡ true → m ≡ one_billion
    ground_all h = ground arith

-- The nanoseconds of a sum before it is normalised.
abbrev pub sum_nsec : Timespec → Timespec → ℕ
sum_nsec a b = a.nsec + b.nsec + (a.nsec_frac + b.nsec_frac) / two_32

sum_parts :
    (a b : Timespec)
    → IsNormal a
    → IsNormal b
    → ((a.nsec * two_32 + b.nsec * two_32 + a.nsec_frac + b.nsec_frac) % two_64 / two_32 % two_32
        ≡ sum_nsec a b)
      × ((a.nsec * two_32 + b.nsec * two_32 + a.nsec_frac + b.nsec_frac) % two_64 % two_32
          ≡ (a.nsec_frac + b.nsec_frac) % two_32)
sum_parts a b ha hb = omega arith

-- The sum of two times, digit by digit.
pub time_add-eq :
    (a b : Timespec)
    → IsNormal a
    → IsNormal b
    → HasRoom (a.sec +ℤ b.sec)
    → time_add a b ≡ record {
      sec = a.sec +ℤ b.sec +ℤ pos (sum_nsec a b / one_billion);
      nsec = sum_nsec a b % one_billion;
      nsec_frac = (a.nsec_frac + b.nsec_frac) % two_32;
    }
unfolding time_add
time_add-eq a b ha hb room =
    let (e, f) = sum_parts a b ha hb in
    rw (e, f, int64_id (a.sec +ℤ b.sec) (omega arith)) (normalise_pos _ (omega arith) room)

-- Adding times adds their values and leaves a normal time. The arguments are normal, and the sum of
-- the seconds leaves room for a carry.
pub time_add-value :
    (a b : Timespec)
    → IsNormal a
    → IsNormal b
    → HasRoom (a.sec +ℤ b.sec)
    → (value (time_add a b) ≡ value a +ℤ value b) × IsNormal (time_add a b)
unfolding value
time_add-value a b ha hb room = rw (time_add-eq a b ha hb room) (
  omega (
    int_laws,
    scale_parts second (a.sec +ℤ b.sec +ℤ pos (sum_nsec a b / one_billion)),
    scale_parts second a.sec,
    scale_parts second b.sec,
  ),
  omega arith,
)

-- ===== src/Time/Defs.antt =====
-- sfptpd_time.c and sfptpd_time.h: `struct sfptpd_timespec` and its integer operations.
-- C leaves the overflow of a signed sum undefined; here the seconds wrap, as on the machine, and
-- each theorem bounds them.
use sfptpd.Prelude.{
  ℕ, ◌+◌, ◌-◌, ◌*◌, ◌/◌, ◌%◌, Bool, true, false, not, ltb, leb, if◌then◌else◌, ℤ, pos, negsuc, ◌+ℤ◌,
  ◌-ℤ◌, ltb_ℤ,
}
use sfptpd.Words.{two_31, two_32, two_64, u32, u64, s32, s64, int64, scale, quot, asr_32}

abbrev pub one_billion : ℕ
one_billion = 1000000000

-- `struct sfptpd_timespec`: `sec` is an int64_t, the others are uint32_t.
pub record Timespec : Type 0 where
  pub sec : ℤ
  pub nsec : ℕ
  pub nsec_frac : ℕ

-- SFPTPD_NULL_TIME, `sfptpd_time_null` and `sfptpd_time_zero`.
abbrev pub null_time : Timespec
null_time = record { sec = pos 0; nsec = 0; nsec_frac = 0 }

-- `sfptpd_time_normalise`, which reads `nsec` as an int32_t.
unfoldable pub normalise : Timespec → Timespec
normalise t =
    let n = s32 t.nsec in
    let q = quot n one_billion in
    let sec = int64 (t.sec +ℤ q) in
    let r = n -ℤ scale one_billion q in
    if ltb_ℤ r (pos 0)
    then record t { sec = int64 (sec -ℤ pos 1); nsec = u32 (r +ℤ pos one_billion) }
    else record t { sec = sec; nsec = u32 r }

-- `sfptpd_time_add`.
unfoldable pub time_add : Timespec → Timespec → Timespec
time_add a b =
    let nsec_fp32 = (a.nsec * two_32 + b.nsec * two_32 + a.nsec_frac + b.nsec_frac) % two_64 in
    normalise (record {
      sec = int64 (a.sec +ℤ b.sec);
      nsec = nsec_fp32 / two_32 % two_32;
      nsec_frac = nsec_fp32 % two_32;
    })

-- The 32.32 fixed-point nanoseconds of a time; the two parts share no bit, so `|` is a sum.
abbrev pub nsec_fp32 : Timespec → ℤ
nsec_fp32 t = s64 (t.nsec * two_32 + t.nsec_frac)

-- `sfptpd_time_subtract`.
unfoldable pub time_subtract : Timespec → Timespec → Timespec
time_subtract a b =
    let c = int64 (nsec_fp32 a -ℤ nsec_fp32 b) in
    normalise (record { sec = int64 (a.sec -ℤ b.sec); nsec = u32 (asr_32 c); nsec_frac = u32 c })

-- `sfptpd_time_cmp`.
unfoldable pub time_cmp : Timespec → Timespec → ℤ
time_cmp a b =
    if ltb_ℤ a.sec b.sec
    then negsuc 0
    else if ltb_ℤ b.sec a.sec
    then pos 1
    else if ltb a.nsec b.nsec
    then negsuc 0
    else if ltb b.nsec a.nsec
    then pos 1
    else if ltb a.nsec_frac b.nsec_frac
    then negsuc 0
    else if ltb b.nsec_frac a.nsec_frac
    then pos 1
    else pos 0

-- `sfptpd_time_negate`: the negative of its second argument.
unfoldable pub time_negate : Timespec → Timespec
time_negate b = time_subtract null_time b

-- `sfptpd_time_is_greater_or_equal`.
unfoldable pub time_is_greater_or_equal : Timespec → Timespec → Bool
time_is_greater_or_equal a b = let c = time_subtract a b in not (ltb_ℤ c.sec (pos 0))

-- `sfptpd_time_from_ns`.
unfoldable pub time_from_ns : ℤ → Timespec
time_from_ns ns =
    let is_neg = ltb_ℤ ns (pos 0) in
    let ts = record null_time { nsec = u32 (if is_neg then int64 (pos 0 -ℤ ns) else ns) } in
    let ts' = if ltb_ℤ ns (pos one_billion) then ts else normalise ts in
    if is_neg then time_negate ts' else ts'

-- The part of `sfptpd_time_from_ns16` that fills the time from the magnitude, a uint64_t.
unfoldable pub split_ns16 : ℕ → Timespec
split_ns16 nsec_fp16u =
    let nsec = nsec_fp16u / 65536 in
    let nsec_frac = nsec_fp16u * 65536 % two_64 % two_32 in
    if leb one_billion nsec
    then record {
      sec = pos (nsec / one_billion);
      nsec = (nsec - nsec / one_billion * one_billion) % two_32;
      nsec_frac = nsec_frac;
    }
    else record { sec = pos 0; nsec = nsec % two_32; nsec_frac = nsec_frac }

-- `sfptpd_time_from_ns16`.
unfoldable pub time_from_ns16 : ℤ → Timespec
time_from_ns16 nsec_fp16 =
    if ltb_ℤ nsec_fp16 (pos 0)
    then time_negate (split_ns16 (u64 (int64 (pos 0 -ℤ nsec_fp16))))
    else split_ns16 (u64 nsec_fp16)

-- INT64_MIN and INT64_MAX.
abbrev pub int64_min : ℤ
int64_min = negsuc 9223372036854775807

abbrev pub int64_max : ℤ
int64_max = pos 9223372036854775807

-- The number that `sfptpd_time_to_ns16` compares with: 0x1000000000000ULL / 1000000000. A negative
-- number of seconds would compare as an unsigned one.
abbrev pub ns16_limit : ℕ
ns16_limit = 281474

-- The magnitude that `sfptpd_time_to_ns16` computes, a uint64_t.
unfoldable pub join_ns16 : Timespec → ℕ
join_ns16 t = (t.nsec_frac / 65536 + (u64 t.sec * one_billion + t.nsec) * 65536) % two_64

-- The part of `sfptpd_time_to_ns16` after a negative time has been negated.
unfoldable pub saturate_ns16 : Bool → Timespec → ℤ
saturate_ns16 is_neg t =
    if leb ns16_limit (u64 t.sec)
    then (if is_neg then int64_min else int64_max)
    else s64 (if is_neg then (two_64 - join_ns16 t) % two_64 else join_ns16 t)

-- `sfptpd_time_to_ns16`.
unfoldable pub time_to_ns16 : Timespec → ℤ
time_to_ns16 ts =
    if ltb_ℤ ts.sec (pos 0) then saturate_ns16 true (time_negate ts) else saturate_ns16 false ts

-- `struct timespec`; its members are those of a 64-bit system.
pub record StdTimespec : Type 0 where
  pub tv_sec : ℤ
  pub tv_nsec : ℕ

-- `sfptpd_time_to_std_nearest` and `sfptpd_time_from_std_nearest`.
unfoldable pub time_to_std_nearest : Timespec → StdTimespec
time_to_std_nearest t = record {
  tv_sec = t.sec;
  tv_nsec = if leb two_31 t.nsec_frac then t.nsec + 1 else t.nsec;
}

unfoldable pub time_from_std_nearest : StdTimespec → Timespec
time_from_std_nearest t = record {
  sec = t.tv_sec;
  nsec = t.tv_nsec % two_32;
  nsec_frac = 2147483647;
}

-- `sfptpd_time_to_std_floor` and `sfptpd_time_from_std_floor`.
unfoldable pub time_to_std_floor : Timespec → StdTimespec
time_to_std_floor t = record { tv_sec = t.sec; tv_nsec = t.nsec }

unfoldable pub time_from_std_floor : StdTimespec → Timespec
time_from_std_floor t = record { sec = t.tv_sec; nsec = t.tv_nsec % two_32; nsec_frac = 0 }

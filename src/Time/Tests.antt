-- ===== src/Time/Tests.antt =====
-- Times at concrete values, and the theorems at them.
use sfptpd.Prelude.{◌≡◌, refl, arith, pos, negsuc, ◌+ℤ◌, ◌-ℤ◌}
use sfptpd.Words.{u32, u64, s32, s64, int64, scale, quot, asr_32}
use sfptpd.Time.Defs.{
  Timespec, normalise, time_add, time_subtract, time_from_ns, time_from_ns16, time_to_ns16,
}
use sfptpd.Time.Value.{value, IsNormal, time_add-value}
use sfptpd.Time.Difference.{time_subtract-value}
use sfptpd.Time.Convert.{to_ns16-from_ns16}

-- 1.75 s and 2.5 s, and half a nanosecond more.
abbrev early : Timespec
early = record { sec = pos 1; nsec = 750000000; nsec_frac = 2147483648 }

abbrev late : Timespec
late = record { sec = pos 2; nsec = 500000000; nsec_frac = 2147483648 }

-- 1.75 s - 2.5 s is a quarter of a second more than -1 s.
subtract_early :
    time_subtract early late ≡ record { sec = negsuc 0; nsec = 250000000; nsec_frac = 0 }
unfolding time_subtract normalise s32 s64 u32 u64 int64 scale quot asr_32 ◌+ℤ◌ ◌-ℤ◌
subtract_early = refl

-- 3 s given in nanoseconds makes a time before zero.
from_three_seconds :
    time_from_ns (pos 3000000000) ≡ record { sec = negsuc 1; nsec = 705032704; nsec_frac = 0 }
unfolding time_from_ns normalise s32 s64 u32 u64 int64 scale quot ◌+ℤ◌ ◌-ℤ◌
from_three_seconds = refl

time_add-value_example :
    (value (time_add early late) ≡ value early +ℤ value late) × IsNormal (time_add early late)
unfolding ◌+ℤ◌
time_add-value_example = time_add-value early late (omega arith) (omega arith) (omega arith)

time_subtract-value_example :
    (value (time_subtract early late) ≡ value early -ℤ value late)
    × IsNormal (time_subtract early late)
unfolding ◌-ℤ◌
time_subtract-value_example =
    time_subtract-value early late (omega arith) (omega arith) (omega arith)

-- -1.5 ns, there and back.
to_ns16-from_ns16_example : time_to_ns16 (time_from_ns16 (negsuc 98303)) ≡ negsuc 98303
to_ns16-from_ns16_example = to_ns16-from_ns16 (negsuc 98303) (omega arith) (omega arith)

abbrev two_days : Timespec
two_days = record { sec = pos 172800; nsec = 0; nsec_frac = 0 }

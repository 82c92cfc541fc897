-- ===== src/Words.antt =====
-- Fixed-width integers: the conversions of C between the signed and the unsigned types of 32 and
-- 64 bits, and the operations on integers that the program's time arithmetic uses.
use sfptpd.Prelude.{
  ℕ, suc, ◌-◌, ◌*◌, ◌/◌, ◌%◌, ◌≤◌, ◌<◌, ◌≡◌, refl, ◌∙◌, arith, ltb, if◌then◌else◌, ℤ, pos, negsuc,
  pos_part, neg_part, sub_ℕ,
}

abbrev pub two_31 : ℕ
two_31 = 2147483648

abbrev pub two_32 : ℕ
two_32 = 4294967296

abbrev pub two_63 : ℕ
two_63 = 9223372036854775808

abbrev pub two_64 : ℕ
two_64 = 18446744073709551616

-- -n.
abbrev pub neg : ℕ → ℤ
neg n = sub_ℕ 0 n

-- The conversion of an integer to `uint32_t` and to `uint64_t`.
unfoldable pub u32 : ℤ → ℕ
u32 (pos n) = n % two_32
u32 (negsuc n) = two_32 - 1 - n % two_32

unfoldable pub u64 : ℤ → ℕ
u64 (pos n) = n % two_64
u64 (negsuc n) = two_64 - 1 - n % two_64

-- The conversion of a `uint32_t` to `int32_t`, and of a `uint64_t` to `int64_t`.
unfoldable pub s32 : ℕ → ℤ
s32 n = if ltb n two_31 then pos n else negsuc (two_32 - 1 - n)

unfoldable pub s64 : ℕ → ℤ
s64 n = if ltb n two_63 then pos n else negsuc (two_64 - 1 - n)

-- The same for 16 and 8 bits.
unfoldable pub u16 : ℤ → ℕ
u16 (pos n) = n % 65536
u16 (negsuc n) = 65535 - n % 65536

unfoldable pub s16 : ℕ → ℤ
s16 n = if ltb n 32768 then pos n else negsuc (65535 - n)

unfoldable pub u8 : ℤ → ℕ
u8 (pos n) = n % 256
u8 (negsuc n) = 255 - n % 256

unfoldable pub s8 : ℕ → ℤ
s8 n = if ltb n 128 then pos n else negsuc (255 - n)

-- The value that an `int64_t` variable takes.
unfoldable pub int64 : ℤ → ℤ
unfolding s64 u64
int64 z = s64 (u64 z)

abbrev pub IsInt64 : ℤ → Type 0
IsInt64 z = (pos_part z < two_63) × (neg_part z ≤ two_63)

-- Multiplication by a number.
unfoldable pub scale : ℕ → ℤ → ℤ
scale k (pos n) = pos (k * n)
scale k (negsuc n) = neg (k * suc n)

-- `/` of C, which truncates, by a positive number.
unfoldable pub quot : ℤ → ℕ → ℤ
quot (pos n) k = pos (n / k)
quot (negsuc n) k = neg (suc n / k)

-- `>> 32` on `int64_t`, which keeps the sign.
unfoldable pub asr_32 : ℤ → ℤ
asr_32 (pos n) = pos (n / two_32)
asr_32 (negsuc n) = negsuc (n / two_32)

pub int64_id : (z : ℤ) → IsInt64 z → int64 z ≡ z
unfolding int64
int64_id (pos n) h = ground arith
int64_id (negsuc n) h = ground arith

neg_parts : (n : ℕ) → (pos_part (neg n) ≡ 0) × (neg_part (neg n) ≡ n)
neg_parts n = ground arith

pub scale_parts :
    (k : ℕ) (z : ℤ)
    → (pos_part (scale k z) ≡ k * pos_part z) × (neg_part (scale k z) ≡ k * neg_part z)
unfolding scale
scale_parts k (pos n) = (refl, omega arith)
scale_parts k (negsuc n) = ((neg_parts (k * suc n)).0 ∙ (omega arith), (neg_parts (k * suc n)).1)

abbrev pub IsInt16 : ℤ → Type 0
IsInt16 z = (pos_part z < 32768) × (neg_part z ≤ 32768)

abbrev pub IsInt8 : ℤ → Type 0
IsInt8 z = (pos_part z < 128) × (neg_part z ≤ 128)

pub s16-u16 : (z : ℤ) → IsInt16 z → (s16 (u16 z) ≡ z) × (u16 z < 65536)
unfolding s16 u16
s16-u16 (pos n) h = (ground arith, omega arith)
s16-u16 (negsuc n) h = (ground arith, omega arith)

pub s8-u8 : (z : ℤ) → IsInt8 z → s8 (u8 z) ≡ z
unfolding s8 u8
s8-u8 (pos n) h = ground arith
s8-u8 (negsuc n) h = ground arith

pub s64-u64 : (z : ℤ) → IsInt64 z → (s64 (u64 z) ≡ z) × (u64 z < two_64)
unfolding s64 u64
s64-u64 (pos n) h = (ground arith, omega arith)
s64-u64 (negsuc n) h = (ground arith, omega arith)

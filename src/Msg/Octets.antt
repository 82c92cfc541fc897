-- ===== src/Msg/Octets.antt =====
-- The buffers of ptp/ptpd2/dep/msg.c: memory from the address `buf` on, and the integers that
-- it holds in network order, the first octet the highest. A clock identity is the number that its
-- eight octets spell.
use sfptpd.Prelude.{
  ℕ, ◌+◌, ◌*◌, ◌/◌, ◌%◌, ◌<◌, ◌≡◌, arith, Option, none, some, List, [], ◌∷◌, ltb, ◌==◌,
  if◌then◌else◌,
}

-- The octet at each offset.
abbrev pub Octets : Type 0
Octets = ℕ → ℕ

-- Writes at `i` and on.
abbrev pub fill : ℕ → List ℕ → Octets → Octets
fill i [] b = b
fill i (v ∷ vs) b = fill (i + 1) vs (λ j. if j == i then v else b j)

-- The octets that `flip16`, `flip32` and `flip64` store, and those of `packUInteger48`.
abbrev pub be16 : ℕ → List ℕ
be16 v = v / 256 % 256 ∷ v % 256 ∷ []

abbrev pub be32 : ℕ → List ℕ
be32 v = v / 16777216 % 256 ∷ v / 65536 % 256 ∷ v / 256 % 256 ∷ v % 256 ∷ []

abbrev pub be48 : ℕ → List ℕ
be48 v =
    v / 1099511627776 % 256
    ∷ v / 4294967296 % 256
    ∷ v / 16777216 % 256
    ∷ v / 65536 % 256
    ∷ v / 256 % 256
    ∷ v % 256
    ∷ []

abbrev pub be64 : ℕ → List ℕ
be64 v = v / 72057594037927936 % 256 ∷ v / 281474976710656 % 256 ∷ be48 v

abbrev pub u16_at : ℕ → Octets → ℕ
u16_at i b = b i * 256 + b (i + 1)

abbrev pub u32_at : ℕ → Octets → ℕ
u32_at i b = u16_at i b * 65536 + u16_at (i + 2) b

-- `unpackUInteger48`.
abbrev pub u48_at : ℕ → Octets → ℕ
u48_at i b = u16_at i b * 4294967296 + u32_at (i + 2) b

abbrev pub u64_at : ℕ → Octets → ℕ
u64_at i b = u32_at i b * 4294967296 + u32_at (i + 4) b

-- CHECK_OUTPUT_LENGTH and CHECK_INPUT_LENGTH on what has been packed or unpacked so far: the inner
-- `none` is PACK_ERROR or UNPACK_ERROR, and the outer one an assertion that fails.
abbrev pub check_length : ℕ → ℕ → ℕ → Option ℕ → Option (Option ℕ)
check_length offset size length none = none
check_length offset size length (some result) =
    if ltb length (offset + size) then some none else some (some (result + size))

pub u16_at-be16 : (v : ℕ) → v < 65536 → v / 256 % 256 * 256 + v % 256 ≡ v
u16_at-be16 v h = omega arith

pub u32_at-be32 :
    (v : ℕ)
    → v < 4294967296
    → (v / 16777216 % 256 * 256 + v / 65536 % 256) * 65536 + (v / 256 % 256 * 256 + v % 256) ≡ v
u32_at-be32 v h = omega arith

pub u48_at-be48 :
    (v : ℕ)
    → v < 281474976710656
    → (v / 1099511627776 % 256 * 256 + v / 4294967296 % 256) * 4294967296
        + ((v / 16777216 % 256 * 256 + v / 65536 % 256) * 65536 + (v / 256 % 256 * 256 + v % 256))
      ≡ v
u48_at-be48 v h = omega arith

pub u64_at-be64 :
    (v : ℕ)
    → v < 18446744073709551616
    → ((v / 72057594037927936 % 256 * 256 + v / 281474976710656 % 256) * 65536
            + (v / 1099511627776 % 256 * 256 + v / 4294967296 % 256))
          * 4294967296
        + ((v / 16777216 % 256 * 256 + v / 65536 % 256) * 65536 + (v / 256 % 256 * 256 + v % 256))
      ≡ v
u64_at-be64 v h = omega arith

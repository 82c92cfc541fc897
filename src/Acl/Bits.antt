-- ===== src/Acl/Bits.antt =====
-- The mask of the first bits of an address, and its `&`.
use Prim.Native.Nat.{min, digits, bit_and-bitwise}
use sfptpd.Prelude.{
  ℕ, zero, suc, ◌+◌, ◌*◌, ◌/◌, ◌%◌, ◌≤◌, ◌<◌, ◌≡◌, refl, ap, sym, ◌∙◌, arith, bit_and,
}

-- `m << k`, `n` ones, and `a >> k`.
abbrev pub double : ℕ → ℕ → ℕ
double zero m = m
double (suc k) m = 2 * double k m

abbrev pub ones : ℕ → ℕ
ones zero = 0
ones (suc n) = 2 * ones n + 1

abbrev pub halve : ℕ → ℕ → ℕ
halve zero a = a
halve (suc k) a = halve k (a / 2)

-- The definition behind the native operation, for `fuel` digits at most.
common : ℕ → ℕ → ℕ → ℕ
common fuel x y = digits (λ _. 0) min fuel x y

common-zero : (y fuel : ℕ) → common fuel 0 y ≡ 0
unfolding common
common-zero y zero = refl
common-zero y (suc fuel) = refl

-- Fuel past the number of digits changes nothing.
common_same : (x y fuel more : ℕ) → x ≤ more → x ≤ fuel → common more x y ≡ common fuel x y
unfolding common
common_same zero y fuel more _ _ = common-zero y more ∙ sym (common-zero y fuel)
common_same (suc x) y zero more _ p = absurd (omega (arith, p))
common_same (suc x) y (suc fuel) zero p _ = absurd (omega (arith, p))
common_same (suc x) y (suc fuel) (suc more) p q =
    omega (common_same (suc x / 2) (y / 2) fuel more (omega arith) (omega arith), arith)

bit_and-common : (x y : ℕ) → bit_and x y ≡ common x x y
unfolding common
bit_and-common x y = bit_and-bitwise x y

bit_and-none : (y : ℕ) → bit_and 0 y ≡ 0
bit_and-none y = bit_and-common 0 y ∙ common-zero y 0

-- The lowest digit apart from the rest.
bit_and-lowest : (x y : ℕ) → 2 * bit_and (x / 2) (y / 2) + min (x % 2) (y % 2) ≡ bit_and x y
unfolding common
bit_and-lowest zero y = omega (bit_and-none y, bit_and-none (y / 2), arith)
bit_and-lowest (suc x) y =
    let inner = bit_and-common (suc x / 2) (y / 2) in
    let outer = bit_and-common (suc x) y in
    let fewer = common_same (suc x / 2) (y / 2) x (suc x / 2) (omega arith) (omega arith) in
    omega (outer, inner, fewer, arith)

pub bit_and-double : (k m a : ℕ) → bit_and (double k m) a ≡ double k (bit_and m (halve k a))
bit_and-double zero m a = refl
bit_and-double (suc k) m a =
    let half : 2 * double k m / 2 ≡ double k m = omega arith in
    omega (
      arith,
      bit_and-lowest (2 * double k m) a,
      bit_and-double k m (a / 2),
      ap (λ h. bit_and h (a / 2)) half,
    )

pub bit_and-ones : (n a : ℕ) → a < double n 1 → bit_and (ones n) a ≡ a
bit_and-ones zero a h = omega (arith, bit_and-none a)
bit_and-ones (suc n) a h =
    let half : (2 * ones n + 1) / 2 ≡ ones n = omega arith in
    omega (
      arith,
      bit_and-lowest (2 * ones n + 1) a,
      bit_and-ones n (a / 2) (omega arith),
      ap (λ h. bit_and h (a / 2)) half,
    )

pub halve-lt : (k n a : ℕ) → a < double k (double n 1) → halve k a < double n 1
halve-lt zero n a h = h
halve-lt (suc k) n a h = halve-lt k n (a / 2) (omega arith)

pub double-inj : (k a b : ℕ) → double k a ≡ double k b → a ≡ b
double-inj zero a b h = h
double-inj (suc k) a b h = double-inj k a b (omega arith)

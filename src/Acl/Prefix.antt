-- ===== src/Acl/Prefix.antt =====
-- The entries that `parseAclEntry` of ptp/ptpd2/dep/ipv4_acl.c makes of a network and a prefix
-- length, and the loop for the length of a netmask.
use sfptpd.Prelude.{
  ℕ, zero, suc, ◌+◌, ◌-◌, ◌*◌, ◌%◌, ◌≤◌, ◌<◌, ◌≡◌, ◌↔◌, refl, ap, sym, ◌∙◌, arith, true, none, some,
  ltb, ◌==◌, ==_iff, if◌then◌else◌, Bool-cases, if_cases, inl, inr, bit_and,
}
use sfptpd.Acl.Defs.{entry_matches}
use sfptpd.Acl.Bits.{double, ones, halve, bit_and-double, bit_and-ones, halve-lt, double-inj}
use sfptpd.Acl.Parse.{mask_loop, mask_length, prefix_mask, entry_of}

double-add : (c x y : ℕ) → double c (x + y) ≡ double c x + double c y
double-add zero x y = refl
double-add (suc c) x y = omega (arith, double-add c x y)

double_mono : (c x y : ℕ) → x < y → double c x < double c y
double_mono zero x y h = h
double_mono (suc c) x y h = omega (arith, double_mono c x y h)

double-double : (c l n : ℕ) → c + l ≡ n → double c (double l 1) ≡ double n 1
double-double zero l n e = ap (λ k. double k 1) (omega arith)
double-double (suc c) l zero e = absurd (omega arith)
double-double (suc c) l (suc n) e = omega (arith, double-double c l n (omega arith))

-- The bits that one more round of the loop leaves.
abbrev rest_of : ℕ → ℕ → ℕ
rest_of left w = if ltb w (double left 1) then w else w - double left 1

round_less :
    (left c w : ℕ)
    → suc left + c ≡ 32
    → w < double left 1
    → double c w * 2 % 4294967296 ≡ double (suc c) w
round_less left c w e h =
    omega
      (arith, double_mono (suc c) w (double left 1) h, double-double (suc c) left 32 (omega arith))

round_more :
    (left c w d : ℕ)
    → suc left + c ≡ 32
    → d < double left 1
    → w ≡ d + double left 1
    → double c w * 2 % 4294967296 ≡ double (suc c) d
round_more left c w d e h f = omega (
  arith,
  double_mono (suc c) d (double left 1) h,
  double-double (suc c) left 32 (omega arith),
  ap (double (suc c)) f,
  double-add (suc c) d (double left 1),
)

round_lem :
    (left c w : ℕ)
    → suc left + c ≡ 32
    → w < double (suc left) 1
    → (double c w * 2 % 4294967296 ≡ double (suc c) (rest_of left w))
      × (rest_of left w < double left 1)
round_lem left c w e h = elim (Bool-cases (ltb w (double left 1))) [
  | inl less ↦ ground (arith, round_less left c w e)
  | inr more ↦ ground (arith, round_more left c w (w - double left 1) e)
]

double_pos : (c w : ℕ) → 0 < w → 0 < double c w
double_pos zero w h = h
double_pos (suc c) w h = omega (arith, double_pos c w h)

loop_next :
    (left c w : ℕ)
    → suc left + c ≡ 32
    → w < double (suc left) 1
    → mask_loop left (c + 1) (double c w * 2 % 4294967296)
      ≡ mask_loop left (suc c) (double (suc c) (rest_of left w))
loop_next left c w e h =
    ap (λ n. mask_loop left n (double c w * 2 % 4294967296)) (omega arith)
    ∙ ap (mask_loop left (suc c)) (round_lem left c w e h).0

-- The lowest bit stays the lowest, as long as there is room to the left of it.
rest_of_even : (left w : ℕ) → 0 < left → rest_of left w % 2 ≡ w % 2
rest_of_even zero w h = absurd (omega arith)
rest_of_even (suc left) w h = ground arith

double-zero : (c w : ℕ) → w ≡ 0 → double c w ≡ 0
double-zero zero w h = h
double-zero (suc c) w h = omega (arith, double-zero c w h)

mask_loop-odd :
    (left c w : ℕ)
    → left + c ≡ 32
    → w < double left 1
    → w % 2 ≡ 1
    → mask_loop left c (double c w) ≡ none
unfolding mask_loop
mask_loop-odd zero c w e h o = refl
mask_loop-odd (suc zero) c w e h o = ground (arith, double_pos c w)
mask_loop-odd (suc (suc left)) c w e h o =
    let step =
      loop_next (suc left) c w e h
      ∙ mask_loop-odd (suc left) (suc c) (rest_of (suc left) w) (omega arith)
          (round_lem (suc left) c w e h).1 (rest_of_even (suc left) w (omega arith) ∙ o) in
    if_cases (λ r. r ≡ none) (double c w == 0) _ _ (λ z. absurd (ground (arith, double_pos c w)))
      (λ _. step)

mask_loop-even :
    (left c w : ℕ)
    → suc left + c ≡ 32
    → w < double (suc left) 1
    → w % 2 ≡ 0
    → (n : ℕ) × (mask_loop (suc left) c (double c w) ≡ some n)
unfolding mask_loop
mask_loop-even zero c w e h o = (c, ground (arith, double-zero c w))
mask_loop-even (suc left) c w e h o =
    let (n, step) =
      mask_loop-even left (suc c) (rest_of (suc left) w) (omega arith)
        (round_lem (suc left) c w e h).1 (rest_of_even (suc left) w (omega arith) ∙ o) in
    if_cases (λ r. (n : ℕ) × (r ≡ some n)) (double c w == 0) _ _ (λ _. (c, refl))
      (λ _. (n, loop_next (suc left) c w e h ∙ step))

-- The loop that counts the bits of a netmask in parseAclEntry ends on an even mask and shifts by
-- 32, which is undefined, on an odd one.
pub mask_length-cases :
    (bitmask : ℕ)
    → bitmask < 4294967296
    → (bitmask % 2 ≡ 0 → (n : ℕ) × (mask_length bitmask ≡ some n))
      × (bitmask % 2 ≡ 1 → mask_length bitmask ≡ none)
unfolding mask_length
mask_length-cases bitmask h =
    (mask_loop-even 31 0 bitmask refl h, mask_loop-odd 32 0 bitmask refl h)

prefix_mask_lem : (n : ℕ) → prefix_mask n ≡ double (32 - n) (ones n)
unfolding prefix_mask
prefix_mask_lem zero = refl
prefix_mask_lem (suc n) = ground arith

bit_and-prefix_mask :
    (n addr : ℕ)
    → n ≤ 32
    → addr < 4294967296
    → bit_and (prefix_mask n) addr ≡ double (32 - n) (halve (32 - n) addr)
bit_and-prefix_mask n addr h l =
    ap (λ m. bit_and m addr) (prefix_mask_lem n)
    ∙ bit_and-double (32 - n) (ones n) addr
    ∙ ap (double (32 - n)) (
        bit_and-ones n (halve (32 - n) addr)
          (halve-lt (32 - n) n addr (omega (arith, double-double (32 - n) n 32 (omega arith)))))

-- An entry
pub entry_matches-prefix :
    (n network addr : ℕ)
    → n ≤ 32
    → network < 4294967296
    → addr < 4294967296
    → (entry_matches addr (entry_of network (prefix_mask n, n)) ≡ true)
      ↔ (halve (32 - n) addr ≡ halve (32 - n) network)
entry_matches-prefix n network addr h k l =
    let a = bit_and-prefix_mask n addr h l in
    let b = bit_and-prefix_mask n network h k in
    let test = ==_iff (bit_and (prefix_mask n) addr) (bit_and (prefix_mask n) network) in
    (
      (λ e. double-inj (32 - n) _ _ (sym a ∙ test.0 e ∙ b)),
      (λ e. test.1 (a ∙ ap (double (32 - n)) e ∙ sym b)),
    )

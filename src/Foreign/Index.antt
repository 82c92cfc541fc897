-- ===== src/Foreign/Index.antt =====
-- The indices that go round the table of foreign masters, `(j + 1) % number_records` and
-- `(write_index + 1) % max_records`.
use sfptpd.Prelude.{
  ℕ, suc, ◌+◌, ◌-◌, ◌%◌, ◌<◌, ◌≡◌, true, ◌==◌, ◌∙◌, ap, Bool-cases, inl, inr, ltb, arith,
  if◌then◌else◌,
}
use native.Mathlib.Nat.{mod_self, mod-eq_of_lt}

-- The next index is the sum, or 0 after the last one.
pub mod_next : (j n : ℕ) → j < n → (j + 1) % n ≡ (if j + 1 == n then 0 else j + 1)
mod_next j n h = elim (Bool-cases (j + 1 == n)) [
  | inl e ↦ ap (λ m. m % n) (eq_of e) ∙ mod_self n ∙ ground (arith, e)
  | inr e ↦ mod-eq_of_lt (ground (arith, e)) ∙ ground (arith, e)
]
  where
    eq_of : (j + 1 == n) ≡ true → j + 1 ≡ n
    eq_of e = ground arith

pub mod_next_lt : (j n : ℕ) → j < n → (j + 1) % n < n
mod_next_lt j n h = rw (mod_next j n h) (ground arith)

-- The place `d` steps on from `j` in a ring of `n` places.
abbrev pub around : ℕ → ℕ → ℕ → ℕ
around n j d = if ltb (j + d) n then j + d else j + d - n

pub around-here : (n j : ℕ) → j < n → around n j 0 ≡ j
around-here n j h = ground arith

pub around-next :
    (n j d : ℕ) → j < n → d + 1 < n + 1 → around n ((j + 1) % n) d ≡ around n j (suc d)
around-next n j d h k = rw (mod_next j n h) (ground arith)

-- Every place is less than `n` steps on from any other.
pub around_onto : (n j i : ℕ) → j < n → i < n → (d : ℕ) × (d < n) × (around n j d ≡ i)
around_onto n j i h k = (if ltb i j then i + n - j else i - j, ground arith, ground arith)

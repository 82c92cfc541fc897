-- ===== src/Acl/Memory.antt =====
-- What `checkACL` of ptp/ptpd2/protocol.c remembers of a message, and the verdicts of the lists.
use sfptpd.Prelude.{
  ℕ, zero, suc, ◌≡◌, refl, sym, ap, ◌∙◌, arith, Bool, true, false, not, ◌&&◌, ◌||◌, Option, none,
  some, List, [], ◌∷◌, set, length, length-set, ◌==◌, ltb, Bool-cases, inl, inr, ◌⊎◌,
}
use sfptpd.Acl.Defs.{AccessList}
use sfptpd.Acl.Matching.{permits}
use sfptpd.Acl.Check.{
  AccessLists, AclOpts, Checks, get_bit, is_disabled, list_of, put_list, note_result,
}

-- Whether the list of a type lets an address pass: where it is enabled and there is one, it decides.
abbrev pub verdict : AclOpts → AccessLists → ℕ → ℕ → Bool
verdict opts lists addr i =
    is_disabled opts i || elim (list_of lists i) [ none ↦ false | some acl ↦ permits acl addr ]

-- Every list of the mask, from the bit `i` on, lets the address pass.
abbrev pub all_pass : AclOpts → AccessLists → ℕ → ℕ → List Bool → Bool
all_pass opts lists addr i [] = true
all_pass opts lists addr i (b ∷ mask) =
    (not b || verdict opts lists addr i) && all_pass opts lists addr (suc i) mask

-- The bitmaps have as many bits, and those of the lists that passed are those of the lists that
-- were checked and let the address pass, by the verdicts `v`.
pub record Remembers (v : ℕ → Bool) (s : Checks) : Type 0 where
  pub lengths : length s.passed ≡ length s.checked
  pub passed_eq : (i : ℕ) → get_bit s.passed i ≡ (get_bit s.checked i && v i)

get_bit-set :
    (bits : List Bool) (i j : ℕ)
    → get_bit (set bits i true) j ≡ (get_bit bits j || ((i == j) && ltb i (length bits)))
get_bit-set [] i j = ground arith
get_bit-set (b ∷ bits) zero zero = ground arith
get_bit-set (b ∷ bits) zero (suc j) = ground arith
get_bit-set (b ∷ bits) (suc i) zero = ground arith
get_bit-set (b ∷ bits) (suc i) (suc j) = get_bit-set bits i j ∙ ground arith

module _ (v : ℕ → Bool) where
  pub note_result-Remembers :
      (i : ℕ) (s : Checks) → Remembers v s → Remembers v (note_result i (v i) s).1
  note_result-Remembers i s m = elim (Bool-cases (v i)) [
    | inl e ↦ record {
      lengths =
          ground (arith, e, m.lengths, length-set s.checked i true, length-set s.passed i true);
      passed_eq = λ j. noted e j;
    }
    | inr e ↦ record {
      lengths = ground (arith, e, m.lengths, length-set s.checked i true);
      passed_eq = λ j. refused e j;
    }
  ]
    where
      noted :
          v i ≡ true
          → (j : ℕ)
          → get_bit (note_result i (v i) s).1.passed j
            ≡ (get_bit (note_result i (v i) s).1.checked j && v j)
      noted e j =
          ground (
            arith,
            e,
            m.lengths,
            m.passed_eq j,
            get_bit-set s.passed i j,
            get_bit-set s.checked i j,
          )

      refused :
          v i ≡ false
          → (j : ℕ)
          → get_bit (note_result i (v i) s).1.passed j
            ≡ (get_bit (note_result i (v i) s).1.checked j && v j)
      refused e j = ground (arith, e, m.lengths, m.passed_eq j, get_bit-set s.checked i j)

-- A list that is replaced is the one of its type, and no other.
list_of-put_list :
    (lists : AccessLists) (acl' : AccessList) (i j : ℕ)
    → (list_of (put_list lists i acl') j ≡ list_of lists j)
      ⊎ ((list_of (put_list lists i acl') j ≡ some acl') × (list_of lists j ≡ list_of lists i))
list_of-put_list lists acl' zero zero = inr (refl, refl)
list_of-put_list lists acl' zero (suc zero) = inl refl
list_of-put_list lists acl' zero (suc (suc zero)) = inl refl
list_of-put_list lists acl' zero (suc (suc (suc j))) = inl refl
list_of-put_list lists acl' (suc zero) zero = inl refl
list_of-put_list lists acl' (suc zero) (suc zero) = inr (refl, refl)
list_of-put_list lists acl' (suc zero) (suc (suc j)) = inl (later j)
  where
    later : (j : ℕ) → list_of (put_list lists 1 acl') (suc (suc j)) ≡ list_of lists (suc (suc j))
    later zero = refl
    later (suc j) = refl
list_of-put_list lists acl' (suc (suc zero)) zero = inl refl
list_of-put_list lists acl' (suc (suc zero)) (suc zero) = inl refl
list_of-put_list lists acl' (suc (suc zero)) (suc (suc zero)) = inr (refl, refl)
list_of-put_list lists acl' (suc (suc zero)) (suc (suc (suc j))) = inl refl
list_of-put_list lists acl' (suc (suc (suc i))) j = inl refl

abbrev pub lets_pass : ℕ → Option AccessList → Bool
lets_pass addr o = elim o [ none ↦ false | some acl ↦ permits acl addr ]

pub put_list-verdict :
    (opts : AclOpts) (lists : AccessLists) (acl acl' : AccessList) (addr i : ℕ)
    → list_of lists i ≡ some acl
    → permits acl' addr ≡ permits acl addr
    → (j : ℕ) → verdict opts (put_list lists i acl') addr j ≡ verdict opts lists addr j
put_list-verdict opts lists acl acl' addr i e p j =
    ap (◌||◌ (is_disabled opts j)) (elim (list_of-put_list lists acl' i j) [
      | inl same ↦ ap (lets_pass addr) same
      | inr at ↦ ap (lets_pass addr) at.0 ∙ p ∙ sym (ap (lets_pass addr) (at.1 ∙ e))
    ])

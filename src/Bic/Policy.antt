-- ===== src/Bic/Policy.antt =====
-- What the selection policy means for the choice: the comparison orders the instances whichever
-- way round it is asked, a manual selection wins, then the external constraints do.
use mathlib.Core.Option
use mathlib.Core.Option.{some-injective}
use sfptpd.Prelude.{
  ℕ, ◌<◌, ◌≡◌, ◌≢◌, ◌∙◌, inl, inr, true, false, some, List, [], ◌∷◌, arith, get_elem?, length,
  if◌then◌else◌, ◌==◌, Bool-cases, ap, sym, ◌≤ℤ◌,
}
use sfptpd.Sorting.{Sorting, IsSorting}
use sfptpd.Bic.Defs.{
  Floats, Rule, Instance, Ref, select, manual, ext_constraints, ext_constraint_priority,
}
use sfptpd.Bic.Order.{NoNan, has_tie_break, beats, beats_order, beats_total}
use sfptpd.Bic.Compare.{NotBoth, select-beats}
use sfptpd.Bic.Choose.{choose}
use sfptpd.Bic.Best.{AtMostOne, ref, choose-IsBest}

module _ (F : Floats) where
  -- The comparison prefers one instance, by some rule.
  abbrev pub Chooses : List Rule → Ref F → Ref F → Ref F → Type 0
  Chooses rules a b c = (i : ℕ) × (select F rules a b ≡ some (c, i))

  -- The comparison of two instances at different places prefers the same one whichever way round it
  -- is asked. At most one of the two is selected by hand, and the values compared are no NaN.
  pub select_comm :
      NoNan F
      → (rules : List Rule) → has_tie_break rules ≡ true
      → (a b : Ref F) → a.index ≢ b.index
      → NotBoth F a b
      → (c : Ref F) × Chooses rules a b c × Chooses rules b a c
  select_comm nan rules tie a b ne h =
      let ab = select-beats F rules a b tie h in
      let ba = select-beats F rules b a tie (ground (arith, h)) in
      elim (Bool-cases (beats F rules a b)) [
        | inl w ↦
            (a, (ab.0, rw w at ab.1), (ba.0, rw ((beats_order F nan rules).asym a b w) at ba.1))
        | inr l ↦ (b, (ab.0, rw l at ab.1), (ba.0, rw (beats_total F rules tie a b ne l) at ba.1))
      ]

  beats-of_Chooses :
      (rules : List Rule)
      → has_tie_break rules ≡ true
      → (a b : Ref F) → a.index ≢ b.index
      → NotBoth F a b
      → Chooses rules a b a
      → beats F rules a b ≡ true
  beats-of_Chooses rules tie a b ne h (i, p) =
      let (j, e, _) = select-beats F rules a b tie h in
      ground (arith, not_other (ap (Option.map (λ (t : Ref F × ℕ). t.0.index)) (sym p ∙ e)))
    where
      not_other :
          some a.index ≡ some (if beats F rules a b then a else b).index → beats F rules a b ≡ true
      not_other e = ground arith

  Chooses-of_beats :
      (rules : List Rule)
      → has_tie_break rules ≡ true
      → (a b : Ref F) → NotBoth F a b
      → beats F rules a b ≡ true
      → Chooses rules a b a
  Chooses-of_beats rules tie a b h w =
      let (i, e, _) = select-beats F rules a b tie h in (i, rw w at e)

  -- The comparison is transitive: what is preferred to the preferred one of two is preferred to both.
  -- No two of the three are both selected by hand, they stand at different places, and the values
  -- compared are no NaN.
  pub select_trans :
      NoNan F
      → (rules : List Rule) → has_tie_break rules ≡ true
      → (a b c : Ref F) → NotBoth F a b
      → NotBoth F b c
      → NotBoth F a c
      → (a.index ≢ b.index) × (b.index ≢ c.index) × (a.index ≢ c.index)
      → Chooses rules a b a
      → Chooses rules b c b
      → Chooses rules a c a
  select_trans nan rules tie a b c hab hbc hac (nab, nbc, nac) p q =
      let o = beats_order F nan rules in
      let ab = beats-of_Chooses rules tie a b nab hab p in
      let bc = beats-of_Chooses rules tie b c nbc hbc q in
      Chooses-of_beats rules tie a c hac (o.compare a b c ab (o.asym b c bc))

  in_range :
      (records : List (Instance F)) (i : ℕ) {r : Instance F}
      → get_elem? records i ≡ some r
      → 0 < length records
  in_range [] i e = cc
  in_range (r ∷ records) i e = omega arith

  loses :
      (rules : List Rule) (i : ℕ) (r : Instance F) (j : ℕ) (s : Instance F)
      → r.selected ≡ false
      → s.selected ≡ true
      → ¬ (beats F (manual ∷ rules) (ref F i r) (ref F j s) ≡ true)
  unfolding beats
  loses rules i r j s hr hs w = ground arith

  least :
      (rules : List Rule) (i : ℕ) (r : Instance F) (j : ℕ) (s : Instance F)
      → r.selected ≡ false
      → s.selected ≡ false
      → beats F (manual ∷ ext_constraints ∷ rules) (ref F i r) (ref F j s) ≡ true
      → ext_constraint_priority r.status.constraints ≤ℤ ext_constraint_priority s.status.constraints
  unfolding beats
  least rules i r j s hr hs w = ground arith

  same_priority :
      (q r : Instance F)
      → q ≡ r
      → ext_constraint_priority q.status.constraints ≤ℤ ext_constraint_priority r.status.constraints
  same_priority q r e = rw e (omega arith)

  abbrev pub NoneSelected : List (Instance F) → Type 0
  NoneSelected records =
      (i : ℕ) (r : Instance F) → get_elem? records i ≡ some r → r.selected ≡ false

  -- An instance that is selected by hand wins, where the policy looks at that first. At most one
  -- instance is selected so, the values compared are no NaN, and `qsort_r` sorts.
  pub choose-manual :
      NoNan F
      → (S : Sorting) → IsSorting S
      → (rules : List Rule) → has_tie_break rules ≡ true
      → (records : List (Instance F)) → AtMostOne F records
      → (i : ℕ) (r : Instance F) → get_elem? records i ≡ some r
      → r.selected ≡ true
      → (out : List (Instance F)) × (choose F S (manual ∷ rules) records ≡ some (some i, out))
  choose-manual nan S sorting rules tie records one i r e h =
      let (best, q, out, c, g, wins) =
        choose-IsBest F nan S sorting (manual ∷ rules) tie records one (in_range records i e) in
      elim (Bool-cases (best == i)) [
        | inl same ↦ (out, c ∙ ap (λ n. some (some n, out)) (ground (arith, same)))
        | inr other ↦ absurd (
            loses rules best q i r (ground (arith, other, one best i q r g e)) h
              (wins i r e (ground (arith, other))))
      ]

  -- With no manual selection, and a policy that looks at the external constraints next,
  -- sfptpd_bic_choose returns an instance of the least constraint priority in the array, where the
  -- rules after these have the tie break, no value compared is a NaN and qsort_r sorts.
  pub choose-constraints :
      NoNan F
      → (S : Sorting) → IsSorting S
      → (rules : List Rule) → has_tie_break rules ≡ true
      → (records : List (Instance F)) → NoneSelected records
      → (i : ℕ) (r : Instance F) → get_elem? records i ≡ some r
      → (best : ℕ) × (q : Instance F) × (out : List (Instance F)) × (choose F S
            (manual ∷ ext_constraints ∷ rules)
            records
          ≡ some (some best, out))
        × (get_elem? records best ≡ some q)
        × (ext_constraint_priority q.status.constraints
            ≤ℤ ext_constraint_priority r.status.constraints)
  choose-constraints nan S sorting rules tie records free i r e =
      let (best, q, out, c, g, wins) =
        choose-IsBest F nan S sorting (manual ∷ ext_constraints ∷ rules) tie records
          (λ i j r s ei ej hi hj. absurd (cc (free i r ei))) (in_range records i e) in
      (
        best,
        q,
        out,
        c,
        g,
        elim (Bool-cases (best == i)) [
          | inl same ↦
              same_priority q r
                (some-injective _ _ (sym g ∙ ap (get_elem? records) (ground (arith, same)) ∙ e))
          | inr other ↦
              least rules best q i r (free best q g) (free i r e)
                (wins i r e (ground (arith, other)))
        ],
      )
